-- ===== src/Proc/Tests.antt =====
-- The theorems on kernel/proc.c at concrete kernels: after procinit, with the first process ready,
-- and with it running.
use project.Base.{
  ℕ, ◌≡◌, refl, true, false, none, some, [], ◌∷◌, ◌++◌, arith, ◌==◌, ltb, ◌&&◌, if◌then◌else◌,
}
use project.Base.Lists.{range}
use project.Proc.State.{
  Kernel, proc_lock, other_lock, ok, null_access, update, runnable, nproc, idup,
}
use project.Proc.Sched.{sleep_begin, scheduler_pick, wakeup, kill}
use project.Proc.Table.{allocproc, freeproc}
use project.Proc.Family.{fork}
use project.Proc.Boot.{
  zero_cont, zero_kernel, root_cont, Booted, Booted-WellFormed, procinit, procinit-Returns,
}
use project.Proc.Invariant.{WellFormed, Returns}
use project.Proc.Queues.{made_runnable, made_runnable-WellFormed, update-WellFormed}
use project.Proc.Switch.{
  picked, slept, picked-WellFormed, sleep_begin-Returns, scheduler_pick-Returns,
  scheduler_pick-none,
}
use project.Proc.Wakeup.{NoTableLock, SameRest, wakes, wakeup-Returns}
use project.Proc.Kill.{victim_state, kill-found, kill-none}
use project.Proc.Birth.{
  born, freed, allocproc-Returns, allocproc-null_access, freeproc-Returns, born-WellFormed,
}
use project.Proc.Fork.{IsChild, dup_calls, fork-Returns}

abbrev booted : Kernel
booted = record zero_kernel {
  conts = λ c. if c == 0 then root_cont else zero_cont;
  unused_list = range 0 nproc;
  cont_unused_list = range 1 3;
  cont_run_list = 0 ∷ [];
}

booted-WellFormed : WellFormed booted
booted-WellFormed = Booted-WellFormed booted (record {
  procs = λ p. refl;
  conts = λ c. refl;
  unused_list = refl;
  cont_unused_list = refl;
  cont_run_list = refl;
  cont_root = refl;
})

abbrev with_dir : Kernel
with_dir = record (born 0 0 booted) {
  procs = update (born 0 0 booted).procs 0 (record ((born 0 0 booted).procs 0) { cwd = some 1 });
}

abbrev ready : Kernel
ready = made_runnable 0 0 with_dir

ready-WellFormed : WellFormed ready
ready-WellFormed =
    made_runnable-WellFormed with_dir
      (update-WellFormed (born 0 0 booted)
        (born-WellFormed booted 0 0 (range 1 63) refl booted-WellFormed refl) 0
        (record ((born 0 0 booted).procs 0) { cwd = some 1 }) refl refl refl)
      0 0 refl refl refl

abbrev pub running_one : Kernel
running_one = picked 0 0 ready

pub running_one-WellFormed : WellFormed running_one
running_one-WellFormed = picked-WellFormed ready 0 0 [] ready-WellFormed refl

abbrev sleeping_one : Kernel
sleeping_one = record (slept 0 7 running_one) { current = none }

no_locks : NoTableLock []
no_locks = record { no_proc = λ p. refl; no_cont = λ c. refl }

procinit-Returns_example :
    Returns (λ _ k held. WellFormed k × Booted k × (held ≡ [])) (procinit zero_kernel [])
procinit-Returns_example = procinit-Returns zero_kernel (λ p. refl) (λ c. refl)

scheduler_pick-Returns_example :
    Returns
      (λ r k held. WellFormed k × (r ≡ some 0) × (held ≡ proc_lock 0 ∷ []) × (k ≡ picked 0 0 ready))
      (scheduler_pick ready [])
scheduler_pick-Returns_example = scheduler_pick-Returns ready 0 [] ready-WellFormed refl

scheduler_pick-none_example :
    scheduler_pick booted [] ≡ ok none (record booted { current = none }) []
scheduler_pick-none_example = scheduler_pick-none booted refl

sleep_begin-Returns_example :
    Returns
      (λ _ k held. WellFormed k × (held ≡ proc_lock 0 ∷ []) × (k ≡ slept 0 7 running_one))
      (sleep_begin 7 (other_lock 5) running_one (other_lock 5 ∷ []))
sleep_begin-Returns_example = sleep_begin-Returns running_one 0 7 5 running_one-WellFormed refl refl

wakeup-Returns_example :
    Returns
      (λ _ k held.
        WellFormed k
        × (held ≡ [])
        × SameRest running_one k
        × ((q : ℕ)
            → k.procs q ≡ (
                if ltb q nproc && wakes 7 q running_one
                then record (running_one.procs q) { state = runnable }
                else running_one.procs q)))
      (wakeup 7 running_one [])
wakeup-Returns_example = wakeup-Returns 7 running_one [] running_one-WellFormed no_locks

kill-found_example :
    (kill 1 running_one [] ≡ ok true (victim_state 0 running_one) [])
    × WellFormed (victim_state 0 running_one)
kill-found_example =
    kill-found 1 0 running_one [] running_one-WellFormed no_locks (omega arith) refl
      (λ q h. elim h [ ])

kill-none_example : kill 9 booted [] ≡ ok false booted []
kill-none_example = kill-none 9 booted [] no_locks (λ q h. omega arith)

allocproc-Returns_example :
    Returns
      (λ r k held. WellFormed k × (r ≡ some 0) × (held ≡ proc_lock 0 ∷ []) × (k ≡ born 0 0 booted))
      (allocproc true true 0 booted [])
allocproc-Returns_example = allocproc-Returns booted 0 0 (range 1 63) booted-WellFormed refl refl

allocproc-null_access_example : allocproc false true 0 booted [] ≡ null_access
allocproc-null_access_example =
    allocproc-null_access booted 0 0 (range 1 63) false true booted-WellFormed refl refl

freeproc-Returns_example :
    Returns
      (λ _ k held. WellFormed k × (held ≡ []) × (k ≡ freed 0 0 running_one))
      (freeproc 0 running_one [])
freeproc-Returns_example =
    freeproc-Returns running_one 0 0 [] running_one-WellFormed refl refl
      (record { no_unused = refl; no_cont = refl; no_cont_run = refl; no_cont_unused = refl })

fork-Returns_example :
    Returns
      (λ r k held.
        WellFormed k
        × (r ≡ some 2)
        × (held ≡ [])
        × IsChild (k.procs 1) (running_one.procs 0) 0 0 1 2
        × (k.calls
            ≡ []
              ++ (dup_calls (running_one.procs 0).ofile (running_one.procs 1).ofile
                  ++ (idup 1 ∷ [])))
        × ((q : ℕ) → (q == 1) ≡ false → k.procs q ≡ running_one.procs q))
      (fork true true true 0 running_one [])
fork-Returns_example =
    fork-Returns running_one 0 1 0 1 (range 2 62) running_one-WellFormed refl refl refl refl refl
