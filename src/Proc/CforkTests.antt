-- ===== src/Proc/CforkTests.antt =====
-- The theorems on cfork of kernel/proc.c at concrete kernels: the first process runs, and another
-- container is asked for.
use project.Base.{◌≡◌, refl, true, false, none, some, [], ◌∷◌}
use project.Base.Lists.{range, has}
use project.Proc.State.{used, Kernel, cont_lock}
use project.Proc.Sched.{same_state}
use project.Proc.Family.{fork, cfork}
use project.Proc.Invariant.{WellFormed, Returns}
use project.Proc.Cfork.{Request, filled, started, cfork-eq-fork, cfork-leaves_lock}
use project.Proc.Tests.{running_one, running_one-WellFormed}

abbrev request : Request
request = record {
  cname = 99 ∷ 49 ∷ [];
  max_mem_bytes = 4096;
  crootdir = 47 ∷ 99 ∷ [];
  max_disk_bytes = 8192;
}

abbrev with_cont : Kernel
with_cont = started 1 (filled request (some 3) (running_one.conts 1)) running_one

cfork-eq-fork_example :
    (cfork true true true (some 3) request.cname 4096 request.crootdir 8192 running_one []
      ≡ fork true true true 1 with_cont [])
    × WellFormed with_cont
cfork-eq-fork_example =
    cfork-eq-fork request running_one 1 3 (range 2 2) true true true running_one-WellFormed refl
      refl

cfork-leaves_lock_example :
    Returns
      (λ r k held.
        (r ≡ none)
        × (held ≡ cont_lock 1 ∷ [])
        × (same_state (k.conts 1).state used ≡ true)
        × (has 1 k.cont_unused_list ≡ false)
        × (has 1 k.cont_run_list ≡ false)
        × ¬ WellFormed k)
      (cfork true true true none request.cname 4096 request.crootdir 8192 running_one [])
cfork-leaves_lock_example =
    cfork-leaves_lock request running_one 1 (range 2 2) true true true running_one-WellFormed refl
      refl
