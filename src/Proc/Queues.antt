-- ===== src/Proc/Queues.antt =====
-- The changes of state that the functions of kernel/proc.c make, and that they keep `WellFormed`.
use project.Base.{ℕ, ◌≡◌, false, Option, some, List, [], ◌∷◌, arith}
use project.Base.Lists.{has, has-append, Distinct-snoc}
use project.Proc.State.{unused, runnable, Proc, Kernel, Call, update, push_back}
use project.Proc.Sched.{same_state}
use project.Proc.Table.{behind}
use project.Proc.Invariant.{WellFormed}

-- `p` becomes RUNNABLE and goes to the end of the run list of `c`.
abbrev pub made_runnable : ℕ → ℕ → Kernel → Kernel
made_runnable p c k = record k {
  procs = update k.procs p (record (k.procs p) { state = runnable });
  conts = update k.conts c (record (k.conts c) { run_list = push_back p (k.conts c).run_list });
}

module _ (k : Kernel) (v : WellFormed k) (p c : ℕ) (own : (k.procs p).contp ≡ some c)
    (idle : same_state (k.procs p).state runnable ≡ false)
    (live : same_state (k.procs p).state unused ≡ false) where
  not_queued : has p (k.conts c).run_list ≡ false
  not_queued = ground (arith, v.run_exact c p)

  pub made_runnable-WellFormed : WellFormed (made_runnable p c k)
  made_runnable-WellFormed = record {
    unused_exact = λ q. ground (arith, v.unused_exact q);
    run_exact = λ d q. ground (arith, v.run_exact d q, has-append q (k.conts c).run_list (p ∷ []));
    proc_exact = λ d q. ground (arith, v.proc_exact d q);
    owned = λ q. ground (arith, v.owned q);
    cont_unused_exact = λ d. ground (arith, v.cont_unused_exact d);
    cont_run_exact = λ d. ground (arith, v.cont_run_exact d);
    member_used = λ d q. ground (arith, v.member_used d q);
    proc_range = λ q. ground (arith, v.proc_range q);
    cont_range = λ d. ground (arith, v.cont_range d);
    unused_distinct = v.unused_distinct;
    run_distinct = λ d. ground (
      arith,
      v.run_distinct d,
      Distinct-snoc (k.conts c).run_list p (v.run_distinct c) not_queued,
    );
    proc_distinct = λ d. ground (arith, v.proc_distinct d);
    cont_unused_distinct = v.cont_unused_distinct;
    cont_run_distinct = v.cont_run_distinct;
  }

-- A new value for the slot `p` that is in the same queues.
pub update-WellFormed :
    (k : Kernel) (v : WellFormed k) (p : ℕ) (x : Proc)
    → x.contp ≡ (k.procs p).contp
    → same_state x.state runnable ≡ same_state (k.procs p).state runnable
    → same_state x.state unused ≡ same_state (k.procs p).state unused
    → WellFormed (record k { procs = update k.procs p x })
update-WellFormed k v p x own run free = record {
  unused_exact = λ q. ground (arith, v.unused_exact q);
  run_exact = λ d q. ground (arith, v.run_exact d q);
  proc_exact = λ d q. ground (arith, v.proc_exact d q);
  owned = λ q. ground (arith, v.owned q);
  cont_unused_exact = v.cont_unused_exact;
  cont_run_exact = v.cont_run_exact;
  member_used = λ d q. ground (arith, v.member_used d q);
  proc_range = λ q. ground (arith, v.proc_range q);
  cont_range = v.cont_range;
  unused_distinct = v.unused_distinct;
  run_distinct = v.run_distinct;
  proc_distinct = v.proc_distinct;
  cont_unused_distinct = v.cont_unused_distinct;
  cont_run_distinct = v.cont_run_distinct;
}

-- The invariant says nothing of the process that runs.
pub current-WellFormed :
    (k : Kernel) (p : Option ℕ) → WellFormed k → WellFormed (record k { current = p })
current-WellFormed k p v = record {
  unused_exact = v.unused_exact;
  run_exact = v.run_exact;
  proc_exact = v.proc_exact;
  owned = v.owned;
  cont_unused_exact = v.cont_unused_exact;
  cont_run_exact = v.cont_run_exact;
  member_used = v.member_used;
  proc_range = v.proc_range;
  cont_range = v.cont_range;
  unused_distinct = v.unused_distinct;
  run_distinct = v.run_distinct;
  proc_distinct = v.proc_distinct;
  cont_unused_distinct = v.cont_unused_distinct;
  cont_run_distinct = v.cont_run_distinct;
}

-- The first process of a run list leaves it and is in a state `x` that is not RUNNABLE.
abbrev pub dequeued : ℕ → ℕ → Proc → Kernel → Kernel
dequeued c p x k = record k {
  conts = update k.conts c (record (k.conts c) { run_list = behind (k.conts c).run_list });
  procs = update k.procs p x;
}

pub dequeued-WellFormed :
    (k : Kernel) (v : WellFormed k) (c p : ℕ) (rest : List ℕ) (x : Proc)
    → (k.conts c).run_list ≡ p ∷ rest
    → x.contp ≡ (k.procs p).contp
    → same_state x.state runnable ≡ false
    → same_state x.state unused ≡ false
    → WellFormed (dequeued c p x k)
dequeued-WellFormed k v c p rest x first own run free = record {
  unused_exact = λ q. ground (arith, v.unused_exact q, v.run_exact c p);
  run_exact =
      λ d q. ground (arith, v.run_exact d q, v.run_exact c p, v.run_distinct c, v.run_exact c q);
  proc_exact = λ d q. ground (arith, v.proc_exact d q);
  owned = λ q. ground (arith, v.owned q, v.run_exact c p);
  cont_unused_exact = λ d. ground (arith, v.cont_unused_exact d);
  cont_run_exact = λ d. ground (arith, v.cont_run_exact d);
  member_used = λ d q. ground (arith, v.member_used d q);
  proc_range = λ q. ground (arith, v.proc_range q, v.run_exact c p);
  cont_range = λ d. ground (arith, v.cont_range d);
  unused_distinct = v.unused_distinct;
  run_distinct = λ d. ground (arith, v.run_distinct d, v.run_distinct c);
  proc_distinct = λ d. ground (arith, v.proc_distinct d);
  cont_unused_distinct = v.cont_unused_distinct;
  cont_run_distinct = v.cont_run_distinct;
}

-- Nor of the calls made.
pub calls-WellFormed :
    (k : Kernel) (cs : List Call) → WellFormed k → WellFormed (record k { calls = cs })
calls-WellFormed k cs v = record {
  unused_exact = v.unused_exact;
  run_exact = v.run_exact;
  proc_exact = v.proc_exact;
  owned = v.owned;
  cont_unused_exact = v.cont_unused_exact;
  cont_run_exact = v.cont_run_exact;
  member_used = v.member_used;
  proc_range = v.proc_range;
  cont_range = v.cont_range;
  unused_distinct = v.unused_distinct;
  run_distinct = v.run_distinct;
  proc_distinct = v.proc_distinct;
  cont_unused_distinct = v.cont_unused_distinct;
  cont_run_distinct = v.cont_run_distinct;
}
