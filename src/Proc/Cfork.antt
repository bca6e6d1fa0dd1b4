-- ===== src/Proc/Cfork.antt =====
-- alloccont and cfork of kernel/proc.c: the container that they make, and what they leave behind
-- where they fail.
use project.Base.{
  ℕ, ◌-◌, ◌≡◌, refl, Bool, true, false, ◌&&◌, Option, none, some, List, [], ◌∷◌, arith, ltb,
  ==-refl,
}
use project.Base.Lists.{has, has-append, take, Distinct-snoc}
use project.Proc.State.{
  unused, used, Cont, Kernel, cont_lock, ok, update, update-update, push_back, ncont,
}
use project.Proc.Table.{behind}
use project.Proc.Sched.{same_state, is_current}
use project.Proc.Container.{is_root, alloccont}
use project.Proc.Family.{fork, cfork}
use project.Proc.Fork.{fork-none}
use project.Proc.Invariant.{WellFormed, Returns, returns}

-- The arguments of alloccont.
pub record Request : Type 0 where
  pub cname : List ℕ
  pub max_mem_bytes : ℕ
  pub crootdir : List ℕ
  pub max_disk_bytes : ℕ

-- The container as alloccont fills it, up to the lookup of the root directory, and to the end.
abbrev pub opened : Request → Cont → Cont
opened q x = record x {
  state = used;
  nextpid = 1;
  proc_list = [];
  run_list = [];
  name = take (16 - 1) q.cname;
  max_mem_bytes = q.max_mem_bytes;
  rootpath = take (128 - 1) q.crootdir;
}

abbrev pub filled : Request → Option ℕ → Cont → Cont
filled q dir x = record (opened q x) {
  rootdir = dir;
  max_disk_bytes = q.max_disk_bytes;
  used_mem_bytes = 0;
  used_disk_bytes = 0;
  nticks = 0;
}

-- The first free container slot, given the value `x`.
abbrev pub taken : ℕ → Cont → Kernel → Kernel
taken c x k = record k { cont_unused_list = behind k.cont_unused_list; conts = update k.conts c x }

-- The same, with the container on the container run list.
abbrev pub started : ℕ → Cont → Kernel → Kernel
started c x k = record (taken c x k) { cont_run_list = push_back c k.cont_run_list }

module _ (q : Request) (k : Kernel) (c : ℕ) (rest : List ℕ)
    (first : k.cont_unused_list ≡ c ∷ rest) where
  -- alloccont makes a container that is not called root, whose root directory namei finds, in the
  -- first free slot, and releases all locks.
  pub alloccont-run :
      (ip : ℕ)
      → is_root q.cname ≡ false
      → alloccont (some ip) q.cname q.max_mem_bytes q.crootdir q.max_disk_bytes k []
        ≡ ok (some c) (taken c (filled q (some ip) (k.conts c)) k) []
  unfolding alloccont
  alloccont-run ip other = simp (first, other, ==-refl, update-update)

  -- Where namei does not find it, alloccont returns at once: the slot is USED, and the container's
  -- lock is held.
  pub alloccont-none :
      is_root q.cname ≡ false
      → alloccont none q.cname q.max_mem_bytes q.crootdir q.max_disk_bytes k []
        ≡ ok none (taken c (record (opened q (k.conts c)) { rootdir = none }) k) (cont_lock c ∷ [])
  unfolding alloccont
  alloccont-none other = simp (first, other, ==-refl, update-update)

  module _ (v : WellFormed k) where
    slot_free : (ltb c ncont && same_state (k.conts c).state unused) ≡ true
    slot_free = ground (arith, v.cont_unused_exact c)

    no_member : (p : ℕ) → is_current c (k.procs p).contp ≡ false
    no_member p = ground (arith, v.member_used c p, slot_free)

    pub started-WellFormed : (ip : ℕ) → WellFormed (started c (filled q (some ip) (k.conts c)) k)
    started-WellFormed ip = record {
      unused_exact = v.unused_exact;
      run_exact = λ d p. ground (arith, v.run_exact d p, no_member p);
      proc_exact = λ d p. ground (arith, v.proc_exact d p, no_member p);
      owned = v.owned;
      cont_unused_exact = λ d. ground (arith, v.cont_unused_exact d, v.cont_unused_distinct);
      cont_run_exact =
          λ d. ground (arith, v.cont_run_exact d, has-append d k.cont_run_list (c ∷ []));
      member_used = λ d p. ground (arith, v.member_used d p);
      proc_range = v.proc_range;
      cont_range = λ d. ground (arith, v.cont_range d, slot_free);
      unused_distinct = v.unused_distinct;
      run_distinct = λ d. ground (arith, v.run_distinct d);
      proc_distinct = λ d. ground (arith, v.proc_distinct d);
      cont_unused_distinct = ground (arith, v.cont_unused_distinct);
      cont_run_distinct =
          Distinct-snoc k.cont_run_list c v.cont_run_distinct
            (ground (arith, v.cont_run_exact c, slot_free));
    }

    lost-not-WellFormed :
        ¬ WellFormed (taken c (record (opened q (k.conts c)) { rootdir = none }) k)
    lost-not-WellFormed w = ground (arith, w.cont_run_exact c, v.cont_run_exact c, slot_free)

-- cfork of a container that is not called root, whose root directory namei finds, with a free
-- container slot and no lock held: fork runs in a state in which the queues agree with the states
-- and the new container, in use, without processes and with the name, the limits and the root
-- directory asked for, is last on the container run list.
pub cfork-eq-fork :
    (q : Request) (k : Kernel) (c ip : ℕ) (rest : List ℕ) (trapframe_ok pagetable_ok copy_ok : Bool)
    → WellFormed k
    → k.cont_unused_list ≡ c ∷ rest
    → is_root q.cname ≡ false
    → (cfork trapframe_ok pagetable_ok copy_ok
          (some ip)
          q.cname
          q.max_mem_bytes
          q.crootdir
          q.max_disk_bytes
          k
          []
        ≡ fork trapframe_ok pagetable_ok copy_ok c
            (started c (filled q (some ip) (k.conts c)) k)
            [])
      × WellFormed (started c (filled q (some ip) (k.conts c)) k)
unfolding cfork
cfork-eq-fork q k c ip rest trapframe_ok pagetable_ok copy_ok v first other =
    (rw (alloccont-run q k c rest first ip other) refl, started-WellFormed q k c rest first v ip)

-- Where namei does not find the root directory of such a container, cfork fails and leaves the
-- container's lock held and its slot USED but neither on the free list nor on the run list of the
-- containers: the queues no longer agree with the states.
pub cfork-leaves_lock :
    (q : Request) (k : Kernel) (c : ℕ) (rest : List ℕ) (trapframe_ok pagetable_ok copy_ok : Bool)
    → WellFormed k
    → k.cont_unused_list ≡ c ∷ rest
    → is_root q.cname ≡ false
    → Returns
        (λ r k' held.
          (r ≡ none)
          × (held ≡ cont_lock c ∷ [])
          × (same_state (k'.conts c).state used ≡ true)
          × (has c k'.cont_unused_list ≡ false)
          × (has c k'.cont_run_list ≡ false)
          × ¬ WellFormed k')
        (cfork trapframe_ok pagetable_ok copy_ok none q.cname q.max_mem_bytes q.crootdir
          q.max_disk_bytes k [])
unfolding cfork
cfork-leaves_lock q k c rest trapframe_ok pagetable_ok copy_ok v first other =
    rw (alloccont-none q k c rest first other) (
      returns (
        refl,
        refl,
        ground arith,
        ground (arith, v.cont_unused_distinct),
        ground (arith, v.cont_run_exact c, slot_free q k c rest first v),
        lost-not-WellFormed q k c rest first v,
      ))

-- Where namei finds it but no process slot is free, cfork fails, and the container stays in use
-- with no process: its slot is not given back.
pub cfork-keeps_cont :
    (q : Request) (k : Kernel) (c ip p : ℕ) (rest : List ℕ)
    (trapframe_ok pagetable_ok copy_ok : Bool)
    → WellFormed k
    → k.cont_unused_list ≡ c ∷ rest
    → is_root q.cname ≡ false
    → k.current ≡ some p
    → k.unused_list ≡ []
    → Returns
        (λ r k' held.
          (r ≡ none)
          × (held ≡ [])
          × (same_state (k'.conts c).state unused ≡ false)
          × ((k'.conts c).proc_list ≡ [])
          × (has c k'.cont_unused_list ≡ false))
        (cfork trapframe_ok pagetable_ok copy_ok
          (some ip)
          q.cname
          q.max_mem_bytes
          q.crootdir
          q.max_disk_bytes
          k
          [])
cfork-keeps_cont q k c ip p rest trapframe_ok pagetable_ok copy_ok v first other now full =
    rw (cfork-eq-fork q k c ip rest trapframe_ok pagetable_ok copy_ok v first other).0 (
      rw
        (fork-none (started c (filled q (some ip) (k.conts c)) k) p c trapframe_ok pagetable_ok
          copy_ok now full)
        (returns (refl, refl, ground arith, ground arith, ground (arith, v.cont_unused_distinct))))
