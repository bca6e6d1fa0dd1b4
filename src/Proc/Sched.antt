-- ===== src/Proc/Sched.antt =====
-- Scheduling in kernel/proc.c: scheduler, sched, yield, sleep, wakeup, kill, setkilled, killed. A
-- switch of context ends a function's first half; its second half runs when the process is
-- scheduled again.
use project.Base.{
  ℕ, zero, suc, ◌+◌, ◌-◌, ◌%◌, ◌^◌, Bool, true, false, not, ◌&&◌, Option, none, some, ◌≡◌, ap, ◌==◌,
  if◌then◌else◌,
}
use project.Base.Lists.{length}
use project.Proc.State.{
  ProcState, unused, used, sleeping, runnable, running, zombie, Kernel, Held, and_then, nproc, Lock,
  proc_lock, cont_lock, holds, Cmd, ok, panic, pure, ◌>>=◌, ◌>>◌, acquire, release, get_proc,
  set_proc, get_cont, set_cont, deref, push_back,
}
use project.Proc.Table.{front, behind, is_nil}

abbrev pub same_state : ProcState → ProcState → Bool
same_state unused unused = true
same_state used used = true
same_state sleeping sleeping = true
same_state runnable runnable = true
same_state running running = true
same_state zombie zombie = true
same_state _ _ = false

abbrev pub is_current : ℕ → Option ℕ → Bool
is_current p none = false
is_current p (some q) = p == q

-- `c->proc` of this CPU.
abbrev pub set_current : Option ℕ → Cmd (Unit {0})
set_current p k held = ok tt (record k { current = p }) held

abbrev pub myproc : Cmd ℕ
myproc k held = deref k.current k held

-- Where `p` runs, a command that begins with myproc goes on with `p`.
pub myproc-run :
    {A : Type 0} (k : Kernel) (held : Held) (p : ℕ) (f : ℕ → Cmd A)
    → k.current ≡ some p
    → (myproc >>= f) k held ≡ f p k held
myproc-run k held p f now = ap (λ o. and_then (deref o k held) f) now

abbrev pub assert : Bool → Cmd (Unit {0})
assert b k held = if b then ok tt k held else panic

-- The end of the run list of the container of `p`.
unfoldable pub enqueue : ℕ → Cmd (Unit {0})
unfolding acquire release
enqueue p = do
  x ← get_proc p
  contp ← deref x.contp
  acquire (cont_lock contp)
  set_cont contp λ c. record c { run_list = push_back p c.run_list }
  release (cont_lock contp)

-- sched, up to the switch to the scheduler: `noff` is the number of locks held, and holding one
-- keeps interrupts off.
unfoldable pub sched : Cmd (Unit {0})
sched = do
  p ← myproc
  λ k held. assert (holds (proc_lock p) held) k held
  λ k held. assert (length held == 1) k held
  x ← get_proc p
  assert (not (same_state x.state running))

-- The scheduler takes the first process off the run list of `contp`, if there is one.
unfoldable pub next_process : ℕ → Cmd (Option ℕ)
unfolding acquire release
next_process contp = do
  acquire (cont_lock contp)
  c ← get_cont contp
  if is_nil c.run_list
      then pure tt
      else set_cont contp λ c. record c { run_list = behind c.run_list }
  release (cont_lock contp)
  pure (front c.run_list)

-- scheduler, up to the switch to the process that it found; none where it waits for an interrupt.
unfoldable pub scheduler_pick : Cmd (Option ℕ)
unfolding acquire next_process
scheduler_pick = do
  set_current none
  root ← λ k held. ok k.cont_root k held
  e ← next_process root
  elim e [
    | none ↦ pure none
    | some p ↦ do
      acquire (proc_lock p)
      x ← get_proc p
      assert (same_state x.state runnable)
      set_proc p λ x. record x { state = running; nsched = (x.nsched + 1) % 2 ^ 64 }
      set_current (some p)
      pure (some p)
  ]

-- The scheduler after the process `p` has switched back to it.
unfoldable pub scheduler_resume : ℕ → Cmd (Unit {0})
unfolding release
scheduler_resume p = do set_current none; release (proc_lock p)

-- yield, up to the switch, and behind it.
unfoldable pub yield_begin : Cmd (Unit {0})
unfolding acquire enqueue sched
yield_begin = do
  p ← myproc
  acquire (proc_lock p)
  set_proc p λ x. record x { state = runnable }
  enqueue p
  sched

unfoldable pub yield_end : Cmd (Unit {0})
unfolding release
yield_end = do p ← myproc; release (proc_lock p)

-- sleep(chan, lk), up to the switch, and behind it.
unfoldable pub sleep_begin : ℕ → Lock → Cmd (Unit {0})
unfolding acquire release sched
sleep_begin chan lk = do
  p ← myproc
  acquire (proc_lock p)
  release lk
  set_proc p λ x. record x { chan = chan; state = sleeping }
  sched

unfoldable pub sleep_end : Lock → Cmd (Unit {0})
unfolding acquire release
sleep_end lk = do
  p ← myproc
  set_proc p λ x. record x { chan = 0 }
  release (proc_lock p)
  acquire lk

-- One round of wakeup's loop.
unfoldable pub wakeup_one : ℕ → ℕ → Cmd (Unit {0})
unfolding acquire release enqueue
wakeup_one chan p k held =
    if is_current p k.current
    then ok tt k held
    else (do
      acquire (proc_lock p)
      x ← get_proc p
      if same_state x.state sleeping && (x.chan == chan)
          then (do set_proc p λ x. record x { state = runnable }; enqueue p)
          else pure tt
      release (proc_lock p))
        k held

-- The slots from `nproc - n` on.
unfoldable pub wakeup_loop : ℕ → ℕ → Cmd (Unit {0})
wakeup_loop zero chan = pure tt
wakeup_loop (suc n) chan = do wakeup_one chan (nproc - suc n); wakeup_loop n chan

unfoldable pub wakeup : ℕ → Cmd (Unit {0})
wakeup chan = wakeup_loop nproc chan

-- The victim: marked killed, and woken if it sleeps.
unfoldable pub kill_proc : ℕ → Cmd (Unit {0})
unfolding enqueue
kill_proc p = do
  set_proc p λ x. record x { killed = 1 }
  x ← get_proc p
  if same_state x.state sleeping
      then (do set_proc p λ x. record x { state = runnable }; enqueue p)
      else pure tt

-- kill's loop over the slots from `nproc - n` on: true is the result 0, false the result -1.
unfoldable pub kill_loop : ℕ → ℕ → Cmd Bool
unfolding acquire release kill_proc
kill_loop zero pid = pure false
kill_loop (suc n) pid = do
  let p = nproc - suc n
  acquire (proc_lock p)
  x ← get_proc p
  if x.pid == pid
      then (do kill_proc p; release (proc_lock p); pure true)
      else (do release (proc_lock p); kill_loop n pid)

unfoldable pub kill : ℕ → Cmd Bool
kill pid = kill_loop nproc pid

unfoldable pub setkilled : ℕ → Cmd (Unit {0})
unfolding acquire release
setkilled p = do
  acquire (proc_lock p)
  set_proc p λ x. record x { killed = 1 }
  release (proc_lock p)

unfoldable pub killed : ℕ → Cmd ℕ
unfolding acquire release
killed p = do acquire (proc_lock p); x ← get_proc p; release (proc_lock p); pure x.killed
