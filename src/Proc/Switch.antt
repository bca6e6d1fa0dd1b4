-- ===== src/Proc/Switch.antt =====
-- yield, sleep and the scheduler of kernel/proc.c: no panic, no fault, the locks held at the switch
-- of context, and the queues.
use project.Base.{ℕ, ◌+◌, ◌%◌, ◌^◌, ◌≡◌, refl, true, none, some, List, [], ◌∷◌, ◌++◌, arith}
use project.Proc.State.{sleeping, runnable, running, Kernel, proc_lock, other_lock, ok, update}
use project.Proc.Table.{behind}
use project.Proc.Sched.{same_state, yield_begin, sleep_begin, scheduler_pick}
use project.Proc.Invariant.{WellFormed, Returns, returns}
use project.Proc.Queues.{
  dequeued-WellFormed, made_runnable, made_runnable-WellFormed, update-WellFormed,
  current-WellFormed,
}

-- The state in which sleep leaves its caller.
abbrev pub slept : ℕ → ℕ → Kernel → Kernel
slept p chan k = record k {
  procs = update k.procs p (record (k.procs p) { chan = chan; state = sleeping });
}

-- The state in which the scheduler starts its choice.
abbrev pub picked : ℕ → ℕ → Kernel → Kernel
picked c p k = record k {
  conts = update k.conts c (record (k.conts c) { run_list = behind (k.conts c).run_list });
  procs =
      update k.procs p
        (record (k.procs p) { state = running; nsched = ((k.procs p).nsched + 1) % 2 ^ 64 });
  current = some p;
}

module _ (k : Kernel) (p c : ℕ) (now : k.current ≡ some p) (own : (k.procs p).contp ≡ some c) where
  yield_begin-run : yield_begin k [] ≡ ok tt (made_runnable p c k) (proc_lock p ∷ [])
  unfolding yield_begin
  yield_begin-run = ground (arith, now)

  -- yield of the running process, called with no lock held, reaches the switch to the scheduler: no
  -- check of sched panics, exactly the process's own lock is held, the process is RUNNABLE and last
  -- on the run list of its container, and the queues still agree with the states.
  pub yield_begin-Returns :
      WellFormed k
      → (k.procs p).state ≡ running
      → Returns
          (λ _ k' held.
            WellFormed k'
            × (held ≡ proc_lock p ∷ [])
            × ((k'.conts c).run_list ≡ (k.conts c).run_list ++ (p ∷ []))
            × ((k'.procs p).state ≡ runnable))
          (yield_begin k [])
  yield_begin-Returns v run = rw yield_begin-run (
      returns (
        made_runnable-WellFormed k v p c own (rw run refl) (rw run refl),
        refl,
        ground arith,
        ground arith,
      ))

sleep_begin-run :
    (k : Kernel) (p chan n : ℕ)
    → k.current ≡ some p
    → sleep_begin chan (other_lock n) k (other_lock n ∷ [])
      ≡ ok tt (slept p chan k) (proc_lock p ∷ [])
unfolding sleep_begin
sleep_begin-run k p chan n now = ground (arith, now)

-- sleep(chan, lk) of the running process, called with `lk` alone held, reaches the switch to the
-- scheduler: no check of sched panics, `lk` is released and exactly the process's own lock is held,
-- the process is SLEEPING on `chan`, no other process changes, and the queues still agree with the
-- states.
pub sleep_begin-Returns :
    (k : Kernel) (p chan n : ℕ)
    → WellFormed k
    → k.current ≡ some p
    → (k.procs p).state ≡ running
    → Returns
        (λ _ k' held. WellFormed k' × (held ≡ proc_lock p ∷ []) × (k' ≡ slept p chan k))
        (sleep_begin chan (other_lock n) k (other_lock n ∷ []))
sleep_begin-Returns k p chan n v now run =
    rw (sleep_begin-run k p chan n now)
      (returns (update-WellFormed k v p _ refl (rw run refl) (rw run refl), refl, refl))

-- With no process on the run list of the root container the scheduler waits: it takes none and
-- changes nothing but the CPU's current process.
pub scheduler_pick-none :
    (k : Kernel)
    → (k.conts k.cont_root).run_list ≡ []
    → scheduler_pick k [] ≡ ok none (record k { current = none }) []
unfolding scheduler_pick
scheduler_pick-none k e = ground (arith, e)

pub picked-WellFormed :
    (k : Kernel) (c p : ℕ) (rest : List ℕ)
    → WellFormed k
    → (k.conts c).run_list ≡ p ∷ rest
    → WellFormed (picked c p k)
picked-WellFormed k c p rest v first =
    current-WellFormed _ (some p) (dequeued-WellFormed k v c p rest _ first refl refl refl)

scheduler_pick-run :
    (k : Kernel) (p : ℕ) (rest : List ℕ)
    → (k.conts k.cont_root).run_list ≡ p ∷ rest
    → same_state (k.procs p).state runnable ≡ true
    → scheduler_pick k [] ≡ ok (some p) (picked k.cont_root p k) (proc_lock p ∷ [])
unfolding scheduler_pick
scheduler_pick-run k p rest first ready = ground (arith, first, ready)

-- Otherwise the scheduler takes the first process of that list, called with no lock held: its
-- ASSERT that the process is RUNNABLE does not fail, it marks the process RUNNING, counts the
-- scheduling, and switches to it with exactly its lock held.
pub scheduler_pick-Returns :
    (k : Kernel) (p : ℕ) (rest : List ℕ)
    → WellFormed k
    → (k.conts k.cont_root).run_list ≡ p ∷ rest
    → Returns
        (λ r k' held.
          WellFormed k' × (r ≡ some p) × (held ≡ proc_lock p ∷ []) × (k' ≡ picked k.cont_root p k))
        (scheduler_pick k [])
scheduler_pick-Returns k p rest v first =
    rw (scheduler_pick-run k p rest first ready)
      (returns (picked-WellFormed k k.cont_root p rest v first, refl, refl, refl))
  where
    ready : same_state (k.procs p).state runnable ≡ true
    ready = ground (arith, v.run_exact k.cont_root p)
