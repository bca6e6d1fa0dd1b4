-- ===== src/Proc/Family.antt =====
-- Process creation and death in kernel/proc.c: fork, cfork, reparent, exit and wait. What other
-- components answer (kalloc, proc_pagetable, uvmcopy, namei, copyout) is an argument.
use project.Base.{
  ℕ, zero, suc, ◌+◌, ◌-◌, Bool, true, false, not, ◌&&◌, Option, none, some, List, [], ◌∷◌, ◌==◌,
  ◌!=◌, if◌then◌else◌,
}
use project.Base.Lists.{length, take}
use project.Proc.State.{
  runnable, zombie, fileclose, filedup, idup, iput, nproc, wait_lock, proc_lock, cont_lock,
  cont_run_lock, Cmd, ok, panic, pure, ◌>>=◌, ◌>>◌, acquire, release, get_proc, set_proc, get_cont,
  set_cont, deref, call, minus, push_back,
}
use project.Proc.Table.{allocproc, freeproc}
use project.Proc.Container.{alloccont}
use project.Proc.Sched.{
  same_state, is_current, myproc, sched, wakeup, sleep_begin, sleep_end, killed,
}

-- The loop of fork over the open files: `fs` are the parent's entries, `ds` the child's.
unfoldable pub dup_files : List (Option ℕ) → List (Option ℕ) → Cmd (List (Option ℕ))
dup_files [] ds = pure ds
dup_files (f ∷ fs) [] = pure []
dup_files (none ∷ fs) (d ∷ ds) = do rest ← dup_files fs ds; pure (d ∷ rest)
dup_files (some f ∷ fs) (d ∷ ds) = do call (filedup f); rest ← dup_files fs ds; pure (some f ∷ rest)

-- fork, from the copied memory on: `p` is the parent and `np` the child, whose lock is held.
unfoldable pub fork_child : (p np contp : ℕ) → Cmd (Option ℕ)
unfolding acquire release
fork_child p np contp = do
  x ← get_proc p
  y ← get_proc np
  files ← dup_files x.ofile y.ofile
  cwd ← deref x.cwd
  call (idup cwd)
  set_proc np
      λ y. record y { sz = x.sz; ofile = files; cwd = some cwd; name = take (16 - 1) x.name }
  y' ← get_proc np
  let pid = y'.pid
  release (proc_lock np)
  acquire wait_lock
  set_proc np λ y. record y { parent = some p }
  release wait_lock
  acquire (proc_lock np)
  set_proc np λ y. record y { state = runnable }
  release (proc_lock np)
  acquire (cont_lock contp)
  set_cont contp λ c. record c { run_list = push_back np c.run_list }
  release (cont_lock contp)
  pure (some pid)

-- fork behind allocproc: `e` is what allocproc returned.
unfoldable pub fork_alloced : (copy_ok : Bool) → (p contp : ℕ) → Option ℕ → Cmd (Option ℕ)
unfolding release
fork_alloced copy_ok p contp none = pure none
fork_alloced copy_ok p contp (some np) =
    if not copy_ok
    then (do freeproc np; release (proc_lock np); pure none)
    else fork_child p np contp

-- The result is the child's pid, or none for -1.
unfoldable pub fork : (trapframe_ok pagetable_ok copy_ok : Bool) → ℕ → Cmd (Option ℕ)
fork trapframe_ok pagetable_ok copy_ok contp = do
  p ← myproc
  e ← allocproc trapframe_ok pagetable_ok contp
  fork_alloced copy_ok p contp e

unfoldable pub cfork :
    (trapframe_ok pagetable_ok copy_ok : Bool) (found : Option ℕ)
    → List ℕ
    → ℕ
    → List ℕ
    → ℕ
    → Cmd (Option ℕ)
unfolding acquire release
cfork trapframe_ok pagetable_ok copy_ok found cname max_mem_bytes crootdir max_disk_bytes = do
  e ← alloccont found cname max_mem_bytes crootdir max_disk_bytes
  elim e [
    | none ↦ pure none
    | some contp ↦ do
      acquire cont_run_lock
      λ k held. ok tt (record k { cont_run_list = push_back contp k.cont_run_list }) held
      release cont_run_lock
      fork trapframe_ok pagetable_ok copy_ok contp
  ]

-- A wait channel is an address: that of `proc[p]` is written `p + 1`, and 0 is the null pointer.
abbrev pub proc_chan : ℕ → ℕ
proc_chan p = p + 1

abbrev pub chan_of : Option ℕ → ℕ
chan_of none = 0
chan_of (some p) = proc_chan p

-- One round of reparent's loop.
unfoldable pub reparent_one : ℕ → ℕ → Cmd (Unit {0})
unfolding wakeup
reparent_one p pp = do
  x ← get_proc pp
  if is_current p x.parent
      then (do
        init ← λ k held. ok k.initproc k held
        root ← λ k held. ok k.cont_root k held
        set_proc pp λ x. record x { parent = some init }
        if is_current root x.contp then pure tt else set_proc pp λ x. record x { pid = minus 2 }
        wakeup (proc_chan init))
      else pure tt

unfoldable pub reparent_loop : ℕ → ℕ → Cmd (Unit {0})
reparent_loop zero p = pure tt
reparent_loop (suc n) p = do reparent_one p (nproc - suc n); reparent_loop n p

unfoldable pub reparent : ℕ → Cmd (Unit {0})
reparent p = reparent_loop nproc p

-- exit's loop over the open files.
unfoldable pub close_files : List (Option ℕ) → Cmd (List (Option ℕ))
close_files [] = pure []
close_files (none ∷ fs) = do rest ← close_files fs; pure (none ∷ rest)
close_files (some f ∷ fs) = do call (fileclose f); rest ← close_files fs; pure (none ∷ rest)

-- exit, up to the switch to the scheduler; it does not come back.
unfoldable pub exit : ℕ → Cmd (Unit {0})
unfolding acquire release close_files reparent wakeup sched
exit status = do
  p ← myproc
  λ k held. if p == k.initproc then panic else ok tt k held
  x ← get_proc p
  files ← close_files x.ofile
  set_proc p λ x. record x { ofile = files }
  cwd ← deref x.cwd
  call (iput cwd)
  set_proc p λ x. record x { cwd = none }
  contp ← deref x.contp
  acquire (cont_lock contp)
  c ← get_cont contp
  release (cont_lock contp)
  if length c.proc_list == 1 then (do rootdir ← deref c.rootdir; call (iput rootdir)) else pure tt
  acquire wait_lock
  reparent p
  y ← get_proc p
  wakeup (chan_of y.parent)
  acquire (proc_lock p)
  set_proc p λ x. record x { xstate = status; state = zombie }
  release wait_lock
  sched

-- What a scan of wait's loop comes to: a reaped child's pid, a failed copyout, or none reaped, with
-- `havekids`.
pub data Scan : Type 0 where
  reaped : ℕ → Scan
  copy_failed : Scan
  nothing : Bool → Scan

-- A child that may have exited.
unfoldable pub wait_child : (copy_ok : Bool) → (addr pp : ℕ) → Cmd Scan
unfolding acquire release freeproc
wait_child copy_ok addr pp = do
  acquire (proc_lock pp)
  x ← get_proc pp
  if not (same_state x.state zombie)
      then (do release (proc_lock pp); pure (nothing true))
      else if addr != 0 && not copy_ok
      then (do release (proc_lock pp); release wait_lock; pure copy_failed)
      else (do freeproc pp; release (proc_lock pp); release wait_lock; pure (reaped x.pid))

unfoldable pub wait_scan : ℕ → (copy_ok : Bool) → (addr p : ℕ) → Bool → Cmd Scan
unfolding wait_child
wait_scan zero copy_ok addr p havekids = pure (nothing havekids)
wait_scan (suc n) copy_ok addr p havekids = do
  x ← get_proc (nproc - suc n)
  if is_current p x.parent
      then (do
        r ← wait_child copy_ok addr (nproc - suc n)
        elim r [ nothing b ↦ wait_scan n copy_ok addr p true | other ↦ pure other ])
      else wait_scan n copy_ok addr p havekids

-- One round of wait's outer loop: a result (none for -1), or asleep until a child exits.
pub data Waited : Type 0 where
  result : Option ℕ → Waited
  asleep : Waited

unfoldable pub wait_round : (copy_ok : Bool) → ℕ → Cmd Waited
unfolding release wait_scan killed sleep_begin
wait_round copy_ok addr = do
  p ← myproc
  r ← wait_scan nproc copy_ok addr p false
  elim r [
    | reaped pid ↦ pure (result (some pid))
    | copy_failed ↦ pure (result none)
    | nothing false ↦ do release wait_lock; pure (result none)
    | nothing true ↦ do
      dead ← killed p
      if dead != 0
          then (do release wait_lock; pure (result none))
          else (do sleep_begin (proc_chan p) wait_lock; pure asleep)
  ]

-- wait, up to its result or the switch to the scheduler, and what it does when woken.
unfoldable pub wait : (copy_ok : Bool) → ℕ → Cmd Waited
unfolding acquire wait_round
wait copy_ok addr = do acquire wait_lock; wait_round copy_ok addr

unfoldable pub wait_again : (copy_ok : Bool) → ℕ → Cmd Waited
unfolding sleep_end wait_round
wait_again copy_ok addr = do sleep_end wait_lock; wait_round copy_ok addr
