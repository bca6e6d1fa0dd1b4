-- ===== src/Proc/Kill.antt =====
-- kill of kernel/proc.c: which process it marks, and that it wakes it.
use project.Base.{
  ℕ, zero, suc, ◌-◌, ◌≤◌, ◌<◌, ◌≡◌, refl, sym, ap, ◌∙◌, ◌≢◌, true, false, ◌∷◌, arith, ◌==◌,
  if◌then◌else◌, Bool-cases, inl, inr, ==-refl, ==-ne,
}
use project.Proc.State.{sleeping, Kernel, proc_lock, Held, ok, update, nproc}
use project.Proc.Sched.{same_state, kill_proc, kill_loop, kill}
use project.Proc.Invariant.{WellFormed}
use project.Proc.Queues.{update-WellFormed}
use project.Proc.Wakeup.{NoTableLock, queued_in, queued_in-WellFormed, container}

abbrev pub marked : ℕ → Kernel → Kernel
marked p k = record k { procs = update k.procs p (record (k.procs p) { killed = 1 }) }

-- The state in which kill leaves its victim.
abbrev pub victim_state : ℕ → Kernel → Kernel
victim_state p k =
    if same_state (k.procs p).state sleeping
    then queued_in (k.procs p).contp p (marked p k)
    else marked p k

module _ (p : ℕ) (k : Kernel) (v : WellFormed k) where
  marked-WellFormed : WellFormed (marked p k)
  marked-WellFormed = update-WellFormed k v p _ refl refl refl

  victim_state-WellFormed : WellFormed (victim_state p k)
  victim_state-WellFormed = elim (Bool-cases (same_state (k.procs p).state sleeping)) [
    | inl hit ↦ rw hit (
        queued_in-WellFormed (marked p k) marked-WellFormed p (k.procs p).contp (ground arith)
          (ground arith) (ground arith))
    | inr miss ↦ rw miss marked-WellFormed
  ]

  kill_proc-run :
      (held : Held)
      → NoTableLock held
      → kill_proc p k (proc_lock p ∷ held) ≡ ok tt (victim_state p k) (proc_lock p ∷ held)
  unfolding kill_proc
  kill_proc-run held no_lock = elim (Bool-cases (same_state (k.procs p).state sleeping)) [
    | inl hit ↦
        let (c, own) = container k v p (ground arith) in ground (arith, hit, own, no_lock.no_cont c)
    | inr miss ↦ ground (arith, miss)
  ]

module _ (pid : ℕ) (k : Kernel) (held : Held) (no_lock : NoTableLock held) where
  kill_loop-here :
      (n : ℕ)
      → WellFormed k
      → ((k.procs (nproc - suc n)).pid == pid) ≡ true
      → kill_loop (suc n) pid k held ≡ ok true (victim_state (nproc - suc n) k) held
  unfolding kill_loop
  kill_loop-here n v e = rw (
    no_lock.no_proc (nproc - suc n),
    e,
    kill_proc-run (nproc - suc n) k v held no_lock,
    ==-refl (nproc - suc n),
  )

  kill_loop-found :
      (n p : ℕ)
      → WellFormed k
      → n ≤ nproc
      → nproc - n ≤ p
      → p < nproc
      → (k.procs p).pid ≡ pid
      → ((q : ℕ) → q < p → (k.procs q).pid ≢ pid)
      → kill_loop n pid k held ≡ ok true (victim_state p k) held
  unfolding kill_loop
  kill_loop-found zero p v le from below hit first = absurd (omega arith)
  kill_loop-found (suc n) p v le from below hit first =
      elim (Bool-cases ((k.procs (nproc - suc n)).pid == pid)) [
        | inl e ↦
            let same : nproc - suc n ≡ p = ground (arith, first (nproc - suc n)) in
            kill_loop-here n v e ∙ ap (λ q. ok true (victim_state q k) held) same
        | inr ne ↦
            let apart : nproc - suc n ≢ p = λ (e : nproc - suc n ≡ p). cc (
              sym ne ∙ ap (λ q. (k.procs q).pid == pid) e ∙ ap (λ x. x == pid) hit ∙ ==-refl pid) in
            let further : nproc - n ≤ p = omega (arith, apart) in
            rw (no_lock.no_proc (nproc - suc n), ne, ==-refl (nproc - suc n))
              (kill_loop-found n p v (omega arith) further below hit first)
      ]

  kill_loop-none :
      (n : ℕ)
      → n ≤ nproc
      → ((q : ℕ) → q < nproc → (k.procs q).pid ≢ pid)
      → kill_loop n pid k held ≡ ok false k held
  unfolding kill_loop
  kill_loop-none zero le no_one = refl
  kill_loop-none (suc n) le no_one =
      rw
        (
          no_lock.no_proc (nproc - suc n),
          ==-ne _ _ (no_one (nproc - suc n) (omega arith)),
          ==-refl (nproc - suc n),
        )
        (kill_loop-none n (omega arith) no_one)

-- kill(pid), called with no process or container lock held, marks the first process of the table
-- that has the pid as killed, makes it RUNNABLE and queues it in its container if it sleeps,
-- changes nothing else, and succeeds. The queues still agree with the states.
pub kill-found :
    (pid p : ℕ) (k : Kernel) (held : Held)
    → WellFormed k
    → NoTableLock held
    → p < nproc
    → (k.procs p).pid ≡ pid
    → ((q : ℕ) → q < p → (k.procs q).pid ≢ pid)
    → (kill pid k held ≡ ok true (victim_state p k) held) × WellFormed (victim_state p k)
unfolding kill
kill-found pid p k held v no_lock below hit first = (
  kill_loop-found pid k held no_lock nproc p v (omega arith) (omega arith) below hit first,
  victim_state-WellFormed p k v,
)

-- Where no process of the table has the pid, kill fails and changes nothing.
pub kill-none :
    (pid : ℕ) (k : Kernel) (held : Held)
    → NoTableLock held
    → ((q : ℕ) → q < nproc → (k.procs q).pid ≢ pid)
    → kill pid k held ≡ ok false k held
unfolding kill
kill-none pid k held no_lock no_one = kill_loop-none pid k held no_lock nproc (omega arith) no_one
