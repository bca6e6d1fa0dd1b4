-- ===== src/Proc/Wakeup.antt =====
-- wakeup of kernel/proc.c: which processes it wakes.
use project.Base.{
  ℕ, zero, suc, ◌-◌, ◌≤◌, ◌≡◌, refl, ◌∙◌, ap, Bool, true, false, not, ◌&&◌, Option, none, some,
  arith, ltb, leb, ◌==◌, if◌then◌else◌, Bool-cases, inl, inr,
}
use project.Proc.State.{
  unused, sleeping, runnable, Kernel, proc_lock, cont_lock, holds, Held, ok, nproc,
}
use project.Proc.Sched.{same_state, is_current, wakeup_one, wakeup_loop, wakeup}
use project.Proc.Invariant.{WellFormed, Returns, returns, Returns-mono, is_some}
use project.Proc.Queues.{made_runnable, made_runnable-WellFormed}

-- No lock of a process or of a container is held.
pub record NoTableLock (held : Held) : Type 0 where
  pub no_proc : (p : ℕ) → holds (proc_lock p) held ≡ false
  pub no_cont : (c : ℕ) → holds (cont_lock c) held ≡ false

-- The process sleeps on `chan` and is not the one that runs.
abbrev pub wakes : ℕ → ℕ → Kernel → Bool
wakes chan p k =
    not (is_current p k.current)
    && (same_state (k.procs p).state sleeping && ((k.procs p).chan == chan))

-- A process that sleeps becomes RUNNABLE and is queued in its container.
abbrev pub queued_in : Option ℕ → ℕ → Kernel → Kernel
queued_in none p k = k
queued_in (some c) p k = made_runnable p c k

abbrev pub woken_one : ℕ → ℕ → Kernel → Kernel
woken_one chan p k = if wakes chan p k then queued_in (k.procs p).contp p k else k

pub some-cases : (o : Option ℕ) → is_some o ≡ true → (c : ℕ) × (o ≡ some c)
some-cases none h = cc
some-cases (some c) h = (c, refl)

module _ (k : Kernel) (v : WellFormed k) (p : ℕ)
    (live : same_state (k.procs p).state unused ≡ false) where
  pub container : (c : ℕ) × ((k.procs p).contp ≡ some c)
  container = some-cases (k.procs p).contp (ground (arith, v.owned p))

pub queued_in-WellFormed :
    (k : Kernel) (v : WellFormed k) (p : ℕ) (o : Option ℕ)
    → (k.procs p).contp ≡ o
    → same_state (k.procs p).state runnable ≡ false
    → same_state (k.procs p).state unused ≡ false
    → WellFormed (queued_in o p k)
queued_in-WellFormed k v p none own idle live = v
queued_in-WellFormed k v p (some c) own idle live = made_runnable-WellFormed k v p c own idle live

module _ (chan p : ℕ) (k : Kernel) (v : WellFormed k) where
  pub wakeup_one-run :
      (held : Held) → NoTableLock held → wakeup_one chan p k held ≡ ok tt (woken_one chan p k) held
  unfolding wakeup_one
  wakeup_one-run held no_lock = elim (Bool-cases (wakes chan p k)) [
    | inl hit ↦
        let (c, own) = container k v p (ground arith) in
        ground (arith, hit, own, no_lock.no_proc p, no_lock.no_cont c)
    | inr miss ↦ ground (arith, miss, no_lock.no_proc p)
  ]

  pub woken_one-WellFormed : WellFormed (woken_one chan p k)
  woken_one-WellFormed = elim (Bool-cases (wakes chan p k)) [
    | inl hit ↦
        let (c, own) = container k v p (ground arith) in
        rw (hit, own) (made_runnable-WellFormed k v p c own (ground arith) (ground arith))
    | inr miss ↦ rw miss v
  ]

  pub woken_one-procs :
      (q : ℕ)
      → (woken_one chan p k).procs q ≡ (
          if (q == p) && wakes chan q k then record (k.procs q) { state = runnable } else k.procs q)
  woken_one-procs q = elim (Bool-cases (wakes chan p k)) [
    | inl hit ↦ let (c, own) = container k v p (ground arith) in rw (hit, own) (ground arith)
    | inr miss ↦ rw miss (ground arith)
  ]

-- What wakeup leaves alone.
pub record SameRest (k k' : Kernel) : Type 0 where
  pub current : k'.current ≡ k.current
  pub initproc : k'.initproc ≡ k.initproc
  pub cont_root : k'.cont_root ≡ k.cont_root
  pub unused_list : k'.unused_list ≡ k.unused_list
  pub cont_run_list : k'.cont_run_list ≡ k.cont_run_list
  pub cont_unused_list : k'.cont_unused_list ≡ k.cont_unused_list
  pub calls : k'.calls ≡ k.calls
  pub proc_list : (c : ℕ) → (k'.conts c).proc_list ≡ (k.conts c).proc_list
  pub cont_state : (c : ℕ) → (k'.conts c).state ≡ (k.conts c).state

queued_in-SameRest : (o : Option ℕ) (p : ℕ) (k : Kernel) → SameRest k (queued_in o p k)
queued_in-SameRest none p k = record {
  current = refl;
  initproc = refl;
  cont_root = refl;
  unused_list = refl;
  cont_run_list = refl;
  cont_unused_list = refl;
  calls = refl;
  proc_list = λ c. refl;
  cont_state = λ c. refl;
}
queued_in-SameRest (some d) p k = record {
  current = refl;
  initproc = refl;
  cont_root = refl;
  unused_list = refl;
  cont_run_list = refl;
  cont_unused_list = refl;
  calls = refl;
  proc_list = λ c. ground arith;
  cont_state = λ c. ground arith;
}

pub woken_one-SameRest : (chan p : ℕ) (k : Kernel) → SameRest k (woken_one chan p k)
woken_one-SameRest chan p k = elim (Bool-cases (wakes chan p k)) [
  | inl hit ↦ rw hit (queued_in-SameRest (k.procs p).contp p k)
  | inr miss ↦ rw miss (queued_in-SameRest none p k)
]

pub SameRest-trans : {k l m : Kernel} → SameRest k l → SameRest l m → SameRest k m
SameRest-trans s t = record {
  current = t.current ∙ s.current;
  initproc = t.initproc ∙ s.initproc;
  cont_root = t.cont_root ∙ s.cont_root;
  unused_list = t.unused_list ∙ s.unused_list;
  cont_run_list = t.cont_run_list ∙ s.cont_run_list;
  cont_unused_list = t.cont_unused_list ∙ s.cont_unused_list;
  calls = t.calls ∙ s.calls;
  proc_list = λ c. t.proc_list c ∙ s.proc_list c;
  cont_state = λ c. t.cont_state c ∙ s.cont_state c;
}

-- The processes after the slots from `m` on have been looked at.
abbrev WokenFrom : ℕ → ℕ → Kernel → Kernel → Type 0
WokenFrom m chan k k' =
    (q : ℕ)
    → k'.procs q ≡ (
        if (leb m q && ltb q nproc) && wakes chan q k
        then record (k.procs q) { state = runnable }
        else k.procs q)

advance :
    (n chan : ℕ) (k k' : Kernel) (q : ℕ)
    → suc n ≤ nproc
    → k'.current ≡ k.current
    → k'.procs q ≡ (
        if (q == nproc - suc n) && wakes chan q k
        then record (k.procs q) { state = runnable }
        else k.procs q)
    → (if (leb (nproc - n) q && ltb q nproc) && wakes chan q k'
        then record (k'.procs q) { state = runnable }
        else k'.procs q)
      ≡ (if (leb (nproc - suc n) q && ltb q nproc) && wakes chan q k
          then record (k.procs q) { state = runnable }
          else k.procs q)
advance n chan k k' q le same now = elim (Bool-cases ((q == nproc - suc n) && wakes chan q k)) [
  | inl hit ↦
      let e =
        now ∙ ap (λ b. if b then record (k.procs q) { state = runnable } else k.procs q) hit in
      ground (arith, e)
  | inr miss ↦
      let e =
        now ∙ ap (λ b. if b then record (k.procs q) { state = runnable } else k.procs q) miss in
      rw (e, same) (ground arith)
]

wakeup_loop-Returns :
    (n chan : ℕ) (k : Kernel) (held : Held)
    → n ≤ nproc
    → WellFormed k
    → NoTableLock held
    → Returns
        (λ _ k' held'.
          WellFormed k' × (held' ≡ held) × SameRest k k' × WokenFrom (nproc - n) chan k k')
        (wakeup_loop n chan k held)
unfolding wakeup_loop
wakeup_loop-Returns zero chan k held le v no_lock =
    returns (v, refl, queued_in-SameRest none 0 k, λ q. ground arith)
wakeup_loop-Returns (suc n) chan k held le v no_lock =
    rw (wakeup_one-run chan (nproc - suc n) k v held no_lock) (
      Returns-mono
        (wakeup_loop-Returns n chan (woken_one chan (nproc - suc n) k) held (omega arith)
          (woken_one-WellFormed chan (nproc - suc n) k v) no_lock)
        λ _ k' held' (v', same_held, rest, woken). (
          v',
          same_held,
          SameRest-trans (woken_one-SameRest chan (nproc - suc n) k) rest,
          λ q.
              woken q
              ∙ advance n chan k (woken_one chan (nproc - suc n) k) q le
                  (woken_one-SameRest chan (nproc - suc n) k).current
                  (woken_one-procs chan (nproc - suc n) k v q),
        ))

-- wakeup(chan), called with no process or container lock held, neither panics nor faults, and keeps
-- the locks held. Exactly the processes of the table that sleep on `chan`, but the running one,
-- become RUNNABLE; no other field of any process changes. The queues still agree with the states,
-- so each of them is on the run list of its container.
pub wakeup-Returns :
    (chan : ℕ) (k : Kernel) (held : Held)
    → WellFormed k
    → NoTableLock held
    → Returns
        (λ _ k' held'.
          WellFormed k'
          × (held' ≡ held)
          × SameRest k k'
          × ((q : ℕ)
              → k'.procs q ≡ (
                  if ltb q nproc && wakes chan q k
                  then record (k.procs q) { state = runnable }
                  else k.procs q)))
        (wakeup chan k held)
unfolding wakeup
wakeup-Returns chan k held v no_lock =
    Returns-mono (wakeup_loop-Returns nproc chan k held (omega arith) v no_lock)
      λ _ k' held' (v', same_held, rest, woken). (v', same_held, rest, λ q. woken q ∙ ground arith)
