-- ===== src/Proc/Birth.antt =====
-- allocproc and freeproc of kernel/proc.c: the slots they move, and that the queues go on agreeing
-- with the states.
use project.Base.{
  ℕ, ◌+◌, ◌%◌, ◌^◌, ◌≡◌, refl, sym, ap, ◌∙◌, Bool, true, false, not, ◌&&◌, none, some, List, [],
  ◌∷◌, arith, ltb, ◌==◌, ==-refl, if◌then◌else◌,
}
use project.Base.Lists.{has, has-append, has-erase, Distinct-snoc, Distinct-erase, erase}
use project.Proc.State.{
  unused, used, runnable, Kernel, proc_lock, cont_lock, holds, Held, ok, null_access, update,
  update-update, push_back, nproc, unused_lock, cont_run_lock, cont_unused_lock,
}
use project.Proc.Sched.{same_state}
use project.Proc.Table.{behind, is_nil, allocproc, freeproc}
use project.Proc.Invariant.{WellFormed, Returns, returns}

-- The state after allocproc has given the slot `p` to the container `c`.
abbrev pub born : ℕ → ℕ → Kernel → Kernel
born p c k = record k {
  unused_list = behind k.unused_list;
  procs = update k.procs p (record (k.procs p) {
    pid = (k.conts c).nextpid;
    state = used;
    trapframe = true;
    pagetable = true;
    nsched = 0;
    nticks = 0;
    contp = some c;
  });
  conts = update k.conts c (record (k.conts c) {
    nextpid = ((k.conts c).nextpid + 1) % 2 ^ 32;
    proc_list = push_back p (k.conts c).proc_list;
  });
}

module _ (k : Kernel) (p c : ℕ) (rest : List ℕ) (first : k.unused_list ≡ p ∷ rest) where
  pub allocproc-run : allocproc true true c k [] ≡ ok (some p) (born p c k) (proc_lock p ∷ [])
  unfolding allocproc
  allocproc-run = simp (first, ==-refl, update-update)

  module _ (v : WellFormed k) where
    is_unused : (ltb p nproc && same_state (k.procs p).state unused) ≡ true
    is_unused = ground (arith, v.unused_exact p)

    no_contp : (k.procs p).contp ≡ none
    no_contp = ground (arith, v.owned p, is_unused)

    pub born-WellFormed : same_state (k.conts c).state unused ≡ false → WellFormed (born p c k)
    born-WellFormed live = record {
      unused_exact = λ q. ground (arith, v.unused_exact q, v.unused_distinct);
      run_exact = λ d q. ground (arith, v.run_exact d q, no_contp);
      proc_exact = λ d q.
          ground (arith, v.proc_exact d q, no_contp, has-append q (k.conts c).proc_list (p ∷ []));
      owned = λ q. ground (arith, v.owned q);
      cont_unused_exact = λ d. ground (arith, v.cont_unused_exact d);
      cont_run_exact = λ d. ground (arith, v.cont_run_exact d);
      member_used = λ d q. ground (arith, v.member_used d q);
      proc_range = λ q. ground (arith, v.proc_range q, is_unused);
      cont_range = λ d. ground (arith, v.cont_range d);
      unused_distinct = ground (arith, v.unused_distinct);
      run_distinct = λ d. ground (arith, v.run_distinct d);
      proc_distinct = λ d. ground (
        arith,
        v.proc_distinct d,
        Distinct-snoc (k.conts c).proc_list p (v.proc_distinct c),
        v.proc_exact c p,
        no_contp,
      );
      cont_unused_distinct = v.cont_unused_distinct;
      cont_run_distinct = v.cont_run_distinct;
    }

-- The state after freeproc has taken the slot `p` from the container `c`, which has other
-- processes.
abbrev pub left : ℕ → ℕ → Kernel → Kernel
left p c k = record k {
  unused_list = push_back p k.unused_list;
  procs = update k.procs p (record (k.procs p) {
    state = unused;
    chan = 0;
    killed = 0;
    xstate = 0;
    pid = 0;
    parent = none;
    sz = 0;
    pagetable = false;
    trapframe = false;
    name = [];
    contp = none;
  });
  conts = update k.conts c (record (k.conts c) { proc_list = erase p (k.conts c).proc_list });
}

-- The same for the last process of the container, which is given back too.
abbrev pub left_last : ℕ → ℕ → Kernel → Kernel
left_last p c k = record k {
  unused_list = push_back p k.unused_list;
  procs = update k.procs p (record (k.procs p) {
    state = unused;
    chan = 0;
    killed = 0;
    xstate = 0;
    pid = 0;
    parent = none;
    sz = 0;
    pagetable = false;
    trapframe = false;
    name = [];
    contp = none;
  });
  conts = update k.conts c (record (k.conts c) {
    state = unused;
    nextpid = 1;
    proc_list = [];
    name = [];
    rootdir = none;
    max_mem_bytes = 0;
    max_disk_bytes = 0;
    used_mem_bytes = 0;
    used_disk_bytes = 0;
    nticks = 0;
  });
  cont_run_list = erase c k.cont_run_list;
  cont_unused_list = push_back c k.cont_unused_list;
}

abbrev pub freed : ℕ → ℕ → Kernel → Kernel
freed p c k = if is_nil (erase p (k.conts c).proc_list) then left_last p c k else left p c k

-- No lock that freeproc takes is held.
pub record FreeToFree (c : ℕ) (held : Held) : Type 0 where
  pub no_unused : holds unused_lock held ≡ false
  pub no_cont : holds (cont_lock c) held ≡ false
  pub no_cont_run : holds cont_run_lock held ≡ false
  pub no_cont_unused : holds cont_unused_lock held ≡ false

module _ (k : Kernel) (p c : ℕ) (held : Held) (own : (k.procs p).contp ≡ some c)
    (member : has p (k.conts c).proc_list ≡ true) (locks : FreeToFree c held) where
  freeproc-more :
      is_nil (erase p (k.conts c).proc_list) ≡ false → freeproc p k held ≡ ok tt (left p c k) held
  unfolding freeproc
  freeproc-more more =
      simp (own, locks.no_unused, locks.no_cont, ==-refl, member, more, update-update)

  freeproc-last :
      erase p (k.conts c).proc_list ≡ []
      → has c k.cont_run_list ≡ true
      → freeproc p k held ≡ ok tt (left_last p c k) held
  unfolding freeproc
  freeproc-last none_left queued = simp (
    own, locks.no_unused, locks.no_cont, locks.no_cont_run, locks.no_cont_unused, ==-refl, member,
    none_left, queued, update-update,
  )

module _ (k : Kernel) (p c : ℕ) (v : WellFormed k) (own : (k.procs p).contp ≡ some c)
    (idle : same_state (k.procs p).state runnable ≡ false) where
  is_member : has p (k.conts c).proc_list ≡ true
  is_member = ground (arith, v.proc_exact c p)

  was_used : same_state (k.procs p).state unused ≡ false
  was_used = ground (arith, v.owned p)

  cont_used : same_state (k.conts c).state unused ≡ false
  cont_used = ground (arith, v.member_used c p)

  left-WellFormed : WellFormed (left p c k)
  left-WellFormed = record {
    unused_exact = λ q.
        ground
          (arith, v.unused_exact q, has-append q k.unused_list (p ∷ []), v.proc_range p, was_used);
    run_exact = λ d q. ground (arith, v.run_exact d q);
    proc_exact = λ d q.
        ground (arith, v.proc_exact d q, has-erase p q (k.conts c).proc_list (v.proc_distinct c));
    owned = λ q. ground (arith, v.owned q);
    cont_unused_exact = λ d. ground (arith, v.cont_unused_exact d);
    cont_run_exact = λ d. ground (arith, v.cont_run_exact d);
    member_used = λ d q. ground (arith, v.member_used d q);
    proc_range = λ q. ground (arith, v.proc_range q);
    cont_range = λ d. ground (arith, v.cont_range d);
    unused_distinct =
        Distinct-snoc k.unused_list p v.unused_distinct
          (ground (arith, v.unused_exact p, was_used));
    run_distinct = λ d. ground (arith, v.run_distinct d);
    proc_distinct = λ d.
        ground
          (arith, v.proc_distinct d, Distinct-erase p (k.conts c).proc_list (v.proc_distinct c));
    cont_unused_distinct = v.cont_unused_distinct;
    cont_run_distinct = v.cont_run_distinct;
  }

  left_last-WellFormed : erase p (k.conts c).proc_list ≡ [] → WellFormed (left_last p c k)
  left_last-WellFormed none_left = record {
    unused_exact = λ q.
        ground
          (arith, v.unused_exact q, has-append q k.unused_list (p ∷ []), v.proc_range p, was_used);
    run_exact = λ d q. ground (arith, v.run_exact d q);
    proc_exact = λ d q. ground (arith, v.proc_exact d q, others q);
    owned = λ q. ground (arith, v.owned q);
    cont_unused_exact = λ d. ground (
      arith,
      v.cont_unused_exact d,
      has-append d k.cont_unused_list (c ∷ []),
      v.cont_range c,
      cont_used,
    );
    cont_run_exact =
        λ d. ground (arith, v.cont_run_exact d, has-erase c d k.cont_run_list v.cont_run_distinct);
    member_used = λ d q. ground (arith, v.member_used d q, v.proc_exact c q, others q);
    proc_range = λ q. ground (arith, v.proc_range q);
    cont_range = λ d. ground (arith, v.cont_range d);
    unused_distinct =
        Distinct-snoc k.unused_list p v.unused_distinct
          (ground (arith, v.unused_exact p, was_used));
    run_distinct = λ d. ground (arith, v.run_distinct d);
    proc_distinct = λ d. ground (arith, v.proc_distinct d);
    cont_unused_distinct =
        Distinct-snoc k.cont_unused_list c v.cont_unused_distinct
          (ground (arith, v.cont_unused_exact c, cont_used));
    cont_run_distinct = Distinct-erase c k.cont_run_list v.cont_run_distinct;
  }
    where
      others : (q : ℕ) → (has q (k.conts c).proc_list && not (q == p)) ≡ false
      others q =
          sym (has-erase p q (k.conts c).proc_list (v.proc_distinct c)) ∙ ap (has q) none_left

  is_queued : has c k.cont_run_list ≡ true
  is_queued = ground (arith, v.cont_run_exact c, cont_used)

-- allocproc of a container in use, with memory for the new process and no lock held, takes the
-- first free slot and returns it with its lock held. The process is USED, has the container's next
-- pid and is one of the container's processes; the queues still agree with the states.
pub allocproc-Returns :
    (k : Kernel) (p c : ℕ) (rest : List ℕ)
    → WellFormed k
    → k.unused_list ≡ p ∷ rest
    → same_state (k.conts c).state unused ≡ false
    → Returns
        (λ r k' held. WellFormed k' × (r ≡ some p) × (held ≡ proc_lock p ∷ []) × (k' ≡ born p c k))
        (allocproc true true c k [])
allocproc-Returns k p c rest v first live =
    rw (allocproc-run k p c rest first)
      (returns (born-WellFormed k p c rest first v live, refl, refl, refl))

-- With no free slot allocproc fails and changes nothing.
pub allocproc-none :
    (k : Kernel) (c : ℕ) (trapframe_ok pagetable_ok : Bool)
    → k.unused_list ≡ []
    → allocproc trapframe_ok pagetable_ok c k [] ≡ ok none k []
unfolding allocproc
allocproc-none k c trapframe_ok pagetable_ok none_left = ground (arith, none_left)

-- Where a slot is free but memory for the trap frame or the page table is not, allocproc does not
-- fail cleanly: it ends in an access through a null pointer, since freeproc follows the container
-- pointer of the slot, which is not set yet.
pub allocproc-null_access :
    (k : Kernel) (p c : ℕ) (rest : List ℕ) (trapframe_ok pagetable_ok : Bool)
    → WellFormed k
    → k.unused_list ≡ p ∷ rest
    → (trapframe_ok && pagetable_ok) ≡ false
    → allocproc trapframe_ok pagetable_ok c k [] ≡ null_access
unfolding allocproc
allocproc-null_access k p c rest false b v first short =
    simp (first, ==-refl, no_contp k p c rest first v)
allocproc-null_access k p c rest true false v first short =
    simp (first, ==-refl, no_contp k p c rest first v)
allocproc-null_access k p c rest true true v first short = cc

-- freeproc of a process that is not RUNNABLE, with none of the locks that it takes held, neither
-- panics nor faults and keeps the locks held: the slot is cleared and goes to the end of
-- `unused_list` and leaves its container, which is given back to the free containers exactly if it
-- has no other process. The queues still agree with the states.
pub freeproc-Returns :
    (k : Kernel) (p c : ℕ) (held : Held)
    → WellFormed k
    → (k.procs p).contp ≡ some c
    → same_state (k.procs p).state runnable ≡ false
    → FreeToFree c held
    → Returns
        (λ _ k' held'. WellFormed k' × (held' ≡ held) × (k' ≡ freed p c k))
        (freeproc p k held)
freeproc-Returns k p c held v own idle locks = split (erase p (k.conts c).proc_list) refl
  where
    freed-eq :
        (rest : List ℕ)
        → erase p (k.conts c).proc_list ≡ rest
        → (if is_nil rest then left_last p c k else left p c k) ≡ freed p c k
    freed-eq rest e = sym (ap (λ xs. if is_nil xs then left_last p c k else left p c k) e)

    split :
        (rest : List ℕ)
        → erase p (k.conts c).proc_list ≡ rest
        → Returns
            (λ _ k' held'. WellFormed k' × (held' ≡ held) × (k' ≡ freed p c k))
            (freeproc p k held)
    split [] e =
        rw
          (freeproc-last k p c held own (is_member k p c v own idle) locks e
            (is_queued k p c v own idle))
          (returns (left_last-WellFormed k p c v own idle e, refl, freed-eq [] e))
    split (q ∷ qs) e =
        rw (freeproc-more k p c held own (is_member k p c v own idle) locks (ap is_nil e))
          (returns (left-WellFormed k p c v own idle, refl, freed-eq (q ∷ qs) e))
