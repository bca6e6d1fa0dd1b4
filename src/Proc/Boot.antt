-- ===== src/Proc/Boot.antt =====
-- procinit and userinit of kernel/proc.c.
use project.Base.{
  ℕ, zero, suc, ◌-◌, ◌≤◌, ◌≡◌, refl, sym, ◌∙◌, ap, Bool, true, false, Option, none, List, [], ◌∷◌,
  ◌++◌, arith, ◌==◌, if◌then◌else◌,
}
use mathlib.Core.List.{append_assoc, append-nil}
use project.Base.Lists.{Distinct, take, replicate, range, has-range, Distinct-range}
use project.Proc.State.{
  unused, used, runnable, Proc, Cont, Kernel, Held, cont_lock, proc_lock, Cmd, ok, ◌>>=◌, ◌>>◌,
  pure, update, update-update, acquire, release, set_proc, set_cont, deref, push_back, nproc, ncont,
}
use project.Proc.Table.{allocproc}
use project.Proc.Container.{alloccont, root_name}
use project.Proc.Invariant.{WellFormed, Returns, returns, Returns-mono, Returns-bind}

-- The tables before procinit: zeroed memory.
abbrev pub zero_proc : Proc
zero_proc = record {
  state = unused;
  chan = 0;
  killed = 0;
  xstate = 0;
  pid = 0;
  parent = none;
  sz = 0;
  pagetable = false;
  trapframe = false;
  ofile = replicate 16 none;
  cwd = none;
  name = [];
  nsched = 0;
  nticks = 0;
  contp = none;
}

abbrev pub zero_cont : Cont
zero_cont = record {
  state = unused;
  nextpid = 0;
  proc_list = [];
  run_list = [];
  name = [];
  rootpath = [];
  rootdir = none;
  max_mem_bytes = 0;
  max_disk_bytes = 0;
  used_mem_bytes = 0;
  used_disk_bytes = 0;
  nticks = 0;
}

abbrev pub zero_kernel : Kernel
zero_kernel = record {
  procs = λ p. zero_proc;
  conts = λ c. zero_cont;
  unused_list = [];
  cont_unused_list = [];
  cont_run_list = [];
  cont_root = 0;
  initproc = 0;
  current = none;
  calls = [];
}

-- The loops of procinit, over the slots from `ncont - n` and from `nproc - n` on.
unfoldable pub init_conts : ℕ → Cmd (Unit {0})
init_conts zero = pure tt
init_conts (suc n) = do
  set_cont (ncont - suc n) λ c. record c { state = unused }
  λ k held.
      ok tt (record k { cont_unused_list = push_back (ncont - suc n) k.cont_unused_list }) held
  init_conts n

unfoldable pub init_procs : ℕ → Cmd (Unit {0})
init_procs zero = pure tt
init_procs (suc n) = do
  set_proc (nproc - suc n) λ p. record p { state = unused }
  λ k held. ok tt (record k { unused_list = push_back (nproc - suc n) k.unused_list }) held
  init_procs n

-- The end of procinit: the root container.
unfoldable pub start_root : Cmd (Unit {0})
unfolding alloccont
start_root = do
  e ← alloccont none root_name 0 (b'/' ∷ []) 0
  root ← deref e
  λ k held. ok tt (record k { cont_root = root }) held
  λ k held. ok tt (record k { cont_run_list = push_back root k.cont_run_list }) held

unfoldable pub procinit : Cmd (Unit {0})
unfolding init_conts init_procs start_root
procinit = do
  λ k held. ok tt (record k { cont_run_list = [] }) held
  λ k held. ok tt (record k { cont_unused_list = [] }) held
  init_conts ncont
  λ k held. ok tt (record k { unused_list = [] }) held
  init_procs nproc
  start_root

-- "initcode".
abbrev pub initcode_name : List ℕ
initcode_name = b'i' ∷ b'n' ∷ b'i' ∷ b't' ∷ b'c' ∷ b'o' ∷ b'd' ∷ b'e' ∷ []

-- `cwd` is what namei answers for "/".
unfoldable pub userinit : (trapframe_ok pagetable_ok : Bool) (cwd : Option ℕ) → Cmd (Unit {0})
unfolding allocproc acquire release
userinit trapframe_ok pagetable_ok cwd = do
  root ← λ k held. ok k.cont_root k held
  e ← allocproc trapframe_ok pagetable_ok root
  p ← deref e
  λ k held. ok tt (record k { initproc = p }) held
  set_proc p λ x. record x { sz = 4096; name = take (16 - 1) initcode_name; cwd = cwd }
  set_proc p λ x. record x { state = runnable }
  release (proc_lock p)
  acquire (cont_lock root)
  set_cont root λ c. record c { run_list = push_back p c.run_list }
  release (cont_lock root)

-- The tables after procinit: every process slot free, the root container in use, the other
-- containers free.
abbrev pub root_cont : Cont
root_cont = record zero_cont { state = used; nextpid = 1; name = root_name; rootpath = b'/' ∷ [] }

pub record Booted (k : Kernel) : Type 0 where
  pub procs : (p : ℕ) → k.procs p ≡ zero_proc
  pub conts : (c : ℕ) → k.conts c ≡ (if c == 0 then root_cont else zero_cont)
  pub unused_list : k.unused_list ≡ range 0 nproc
  pub cont_unused_list : k.cont_unused_list ≡ range 1 3
  pub cont_run_list : k.cont_run_list ≡ 0 ∷ []
  pub cont_root : k.cont_root ≡ 0

no_processes :
    (b : Bool)
    → Distinct (if b then root_cont else zero_cont).run_list
      × Distinct (if b then root_cont else zero_cont).proc_list
no_processes true = (tt, tt)
no_processes false = (tt, tt)

pub Booted-WellFormed : (k : Kernel) → Booted k → WellFormed k
Booted-WellFormed k b = record {
  unused_exact = λ p. rw (b.procs p, b.unused_list, has-range p 0 nproc) (ground arith);
  run_exact = λ c p. rw (b.procs p, b.conts c) (ground arith);
  proc_exact = λ c p. rw (b.procs p, b.conts c) (ground arith);
  owned = λ p. rw (b.procs p) refl;
  cont_unused_exact = λ c. rw (b.conts c, b.cont_unused_list, has-range c 1 3) (ground arith);
  cont_run_exact = λ c. rw (b.conts c, b.cont_run_list) (ground arith);
  member_used = λ c p. rw (b.procs p) refl;
  proc_range = λ p. rw (b.procs p) (ground arith);
  cont_range = λ c. rw (b.conts c) (ground arith);
  unused_distinct = rw b.unused_list (Distinct-range 0 nproc);
  run_distinct = λ c. rw (b.conts c) (no_processes (c == 0)).0;
  proc_distinct = λ c. rw (b.conts c) (no_processes (c == 0)).1;
  cont_unused_distinct = rw b.cont_unused_list (Distinct-range 1 3);
  cont_run_distinct = rw b.cont_run_list (refl, tt);
}

init_procs-Returns :
    (n : ℕ) (k : Kernel) (held : Held)
    → n ≤ nproc
    → ((p : ℕ) → k.procs p ≡ zero_proc)
    → Returns
        (λ _ k' held'.
          (held' ≡ held)
          × ((p : ℕ) → k'.procs p ≡ zero_proc)
          × (k'.unused_list ≡ k.unused_list ++ range (nproc - n) n)
          × (k'.conts ≡ k.conts)
          × (k'.cont_unused_list ≡ k.cont_unused_list)
          × (k'.cont_run_list ≡ k.cont_run_list))
        (init_procs n k held)
unfolding init_procs
init_procs-Returns zero k held le z =
    returns (refl, z, sym (append-nil k.unused_list), refl, refl, refl)
init_procs-Returns (suc n) k held le z =
    Returns-mono (init_procs-Returns n _ held (omega arith) λ p. zeroed p)
      λ _ k' held' (h, z', ul, c, cu, cr). (
        h,
        z',
        ul
            ∙ append_assoc k.unused_list ((nproc - suc n) ∷ []) (range (nproc - n) n)
            ∙ ap (λ a. k.unused_list ++ ((nproc - suc n) ∷ range a n)) (omega arith),
        c,
        cu,
        cr,
      )
  where
    zeroed :
        (p : ℕ)
        → update k.procs (nproc - suc n) (record (k.procs (nproc - suc n)) { state = unused }) p
          ≡ zero_proc
    zeroed p = rw (z (nproc - suc n), z p) (same (p == nproc - suc n))
      where
        same : (b : Bool) → (if b then zero_proc else zero_proc) ≡ zero_proc
        same true = refl
        same false = refl

init_conts-Returns :
    (n : ℕ) (k : Kernel) (held : Held)
    → n ≤ ncont
    → ((c : ℕ) → k.conts c ≡ zero_cont)
    → Returns
        (λ _ k' held'.
          (held' ≡ held)
          × ((c : ℕ) → k'.conts c ≡ zero_cont)
          × (k'.cont_unused_list ≡ k.cont_unused_list ++ range (ncont - n) n)
          × (k'.procs ≡ k.procs)
          × (k'.cont_run_list ≡ k.cont_run_list))
        (init_conts n k held)
unfolding init_conts
init_conts-Returns zero k held le z =
    returns (refl, z, sym (append-nil k.cont_unused_list), refl, refl)
init_conts-Returns (suc n) k held le z =
    Returns-mono (init_conts-Returns n _ held (omega arith) λ c. zeroed c)
      λ _ k' held' (h, z', ul, p, cr). (
        h,
        z',
        ul
            ∙ append_assoc k.cont_unused_list ((ncont - suc n) ∷ []) (range (ncont - n) n)
            ∙ ap (λ a. k.cont_unused_list ++ ((ncont - suc n) ∷ range a n)) (omega arith),
        p,
        cr,
      )
  where
    zeroed :
        (c : ℕ)
        → update k.conts (ncont - suc n) (record (k.conts (ncont - suc n)) { state = unused }) c
          ≡ zero_cont
    zeroed c = rw (z (ncont - suc n), z c) (same (c == ncont - suc n))
      where
        same : (b : Bool) → (if b then zero_cont else zero_cont) ≡ zero_cont
        same true = refl
        same false = refl

start_root-Returns :
    (k : Kernel)
    → ((p : ℕ) → k.procs p ≡ zero_proc)
    → ((c : ℕ) → k.conts c ≡ zero_cont)
    → k.unused_list ≡ range 0 nproc
    → k.cont_unused_list ≡ range 0 ncont
    → k.cont_run_list ≡ []
    → Returns (λ _ k' held. Booted k' × (held ≡ [])) (start_root k [])
unfolding start_root
start_root-Returns k zp zc ul cul crl =
    simp (cul, crl, zc 0, update-update)
      (returns (
        record {
          procs = zp;
          conts = λ c. rooted c (c == 0);
          unused_list = ul;
          cont_unused_list = refl;
          cont_run_list = refl;
          cont_root = refl;
        },
        refl,
      ))
  where
    rooted :
        (c : ℕ) (b : Bool)
        → (if b then root_cont else k.conts c) ≡ (if b then root_cont else zero_cont)
    rooted c true = refl
    rooted c false = zc c

-- procinit, from zeroed tables and with no lock held, neither panics nor faults. It leaves every
-- process slot free, in order, the first container slot in use as the root container and the others
-- free, so that the queues agree with the states.
pub procinit-Returns :
    (k : Kernel)
    → ((p : ℕ) → k.procs p ≡ zero_proc)
    → ((c : ℕ) → k.conts c ≡ zero_cont)
    → Returns (λ _ k' held. WellFormed k' × Booted k' × (held ≡ [])) (procinit k [])
unfolding procinit
procinit-Returns k zp zc =
    Returns-bind
      (init_conts-Returns ncont (record k { cont_run_list = []; cont_unused_list = [] }) []
        (omega arith) zc)
      λ _ k1 held1 (h1, z1, ul1, p1, cr1).
        Returns-bind {f = λ _. start_root}
          (init_procs-Returns nproc (record k1 { unused_list = [] }) held1 (omega arith)
            (λ p. ap (λ f. f p) p1 ∙ zp p))
          λ _ k2 held2 (h2, z2, ul2, c2, cu2, cr2).
            rw (h2, h1)
              (Returns-mono
                (start_root-Returns k2 z2 (λ c. ap (λ f. f c) c2 ∙ z1 c) ul2 (cu2 ∙ ul1)
                  (cr2 ∙ cr1))
                λ _ k3 held3 (booted, h3). (Booted-WellFormed k3 booted, booted, h3))
