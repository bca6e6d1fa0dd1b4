-- ===== src/Proc/Invariant.antt =====
-- What ties the process table of kernel/proc.c to its queues.
use project.Base.{ℕ, ◌≡◌, Bool, true, false, not, ◌&&◌, ◌||◌, Option, none, some, ltb}
use project.Base.Lists.{has, Distinct}
use project.Proc.State.{unused, runnable, Kernel, Held, Run, ok, and_then, Cmd, nproc, ncont}
use project.Proc.Sched.{same_state, is_current}

abbrev pub is_some : Option ℕ → Bool
is_some none = false
is_some (some x) = true

-- Every process slot is on `unused_list` exactly when it is UNUSED, on a container's `run_list`
-- exactly when it is RUNNABLE and belongs to it, and on a container's `proc_list` exactly when it
-- belongs to it; a process belongs to a container, which is in use, exactly while it is not UNUSED.
-- No queue has a slot twice. The containers' queues agree with their states in the same way. Slots
-- outside the tables are UNUSED and on no queue.
pub record WellFormed (k : Kernel) : Type 0 where
  pub unused_exact :
      (p : ℕ) → has p k.unused_list ≡ (ltb p nproc && same_state (k.procs p).state unused)
  pub run_exact :
      (c p : ℕ)
      → has p (k.conts c).run_list
        ≡ (same_state (k.procs p).state runnable && is_current c (k.procs p).contp)
  pub proc_exact : (c p : ℕ) → has p (k.conts c).proc_list ≡ is_current c (k.procs p).contp
  pub owned : (p : ℕ) → is_some (k.procs p).contp ≡ not (same_state (k.procs p).state unused)
  pub cont_unused_exact :
      (c : ℕ) → has c k.cont_unused_list ≡ (ltb c ncont && same_state (k.conts c).state unused)
  pub cont_run_exact : (c : ℕ) → has c k.cont_run_list ≡ not (same_state (k.conts c).state unused)
  pub member_used :
      (c p : ℕ) → (is_current c (k.procs p).contp && same_state (k.conts c).state unused) ≡ false
  pub proc_range : (p : ℕ) → (ltb p nproc || same_state (k.procs p).state unused) ≡ true
  pub cont_range : (c : ℕ) → (ltb c ncont || same_state (k.conts c).state unused) ≡ true
  pub unused_distinct : Distinct k.unused_list
  pub run_distinct : (c : ℕ) → Distinct (k.conts c).run_list
  pub proc_distinct : (c : ℕ) → Distinct (k.conts c).proc_list
  pub cont_unused_distinct : Distinct k.cont_unused_list
  pub cont_run_distinct : Distinct k.cont_run_list

-- A run that ends, with no panic and no fault of the C code, in a value, a state and a set of locks
-- held.
pub data Returns {A : Type 0} (Post : A → Kernel → Held → Type 0) : Run A → Type 0 where
  returns : {x : A} {k : Kernel} {held : Held} → Post x k held → Returns Post (ok x k held)

-- A run in two parts, and a weaker postcondition.
pub Returns-bind :
    {A B : Type 0} {Mid : A → Kernel → Held → Type 0} {Post : B → Kernel → Held → Type 0}
    {first : Run A} {f : A → Cmd B}
    → Returns Mid first
    → ((x : A) (k : Kernel) (held : Held) → Mid x k held → Returns Post (f x k held))
    → Returns Post (and_then first f)
Returns-bind (returns mid) go = go _ _ _ mid

pub Returns-mono :
    {A : Type 0} {Post Post' : A → Kernel → Held → Type 0} {run : Run A}
    → Returns Post run
    → ((x : A) (k : Kernel) (held : Held) → Post x k held → Post' x k held)
    → Returns Post' run
Returns-mono (returns post) enough = returns (enough _ _ _ post)
