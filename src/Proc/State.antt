-- ===== src/Proc/State.antt =====
-- The state of kernel/proc.c and the commands over it: the process table, the container table,
-- their queues, the spinlocks that this CPU holds, and the calls made to the file layer.
use project.Base.{
  ℕ, ◌≡◌, refl, ◌-◌, ◌^◌, Bool, true, false, ◌||◌, Option, none, some, List, [], ◌∷◌, ◌++◌, ◌==◌,
  ==-refl, if◌then◌else◌,
}
use mathlib.Core.Path.{fun_ext}
use project.Base.Lists.{has, erase}

-- `enum procstate`.
pub data ProcState : Type 0 where
  unused used sleeping runnable running zombie : ProcState

-- `struct proc`, less the lock and the register context. A pointer to a process or a container is
-- its slot in the table; an `int` is its 32-bit pattern; `sz` and the counters are 64-bit.
-- `trapframe` and `pagetable` say whether the pointer is set; `ofile` and `cwd` name files and
-- inodes.
pub record Proc : Type 0 where
  pub state : ProcState
  pub chan : ℕ
  pub killed : ℕ
  pub xstate : ℕ
  pub pid : ℕ
  pub parent : Option ℕ
  pub sz : ℕ
  pub pagetable : Bool
  pub trapframe : Bool
  pub ofile : List (Option ℕ)
  pub cwd : Option ℕ
  pub name : List ℕ
  pub nsched : ℕ
  pub nticks : ℕ
  pub contp : Option ℕ

-- `struct cont`.
pub record Cont : Type 0 where
  pub state : ProcState
  pub nextpid : ℕ
  pub proc_list : List ℕ
  pub run_list : List ℕ
  pub name : List ℕ
  pub rootpath : List ℕ
  pub rootdir : Option ℕ
  pub max_mem_bytes : ℕ
  pub max_disk_bytes : ℕ
  pub used_mem_bytes : ℕ
  pub used_disk_bytes : ℕ
  pub nticks : ℕ

-- What proc.c asks of the file layer, in order.
pub data Call : Type 0 where
  fileclose filedup idup iput : ℕ → Call

-- The globals of proc.c. A queue is the sequence of the slots whose `elem` (`elem_c` for a
-- container's `proc_list`) it links: what `LinkedList.Seg.IsList` states of the links themselves.
pub record Kernel : Type 0 where
  pub procs : ℕ → Proc
  pub conts : ℕ → Cont
  pub unused_list : List ℕ
  pub cont_unused_list : List ℕ
  pub cont_run_list : List ℕ
  pub cont_root : ℕ
  pub initproc : ℕ
  pub current : Option ℕ
  pub calls : List Call

abbrev pub nproc : ℕ
nproc = 64

abbrev pub ncont : ℕ
ncont = 4

-- The locks that proc.c takes; `other_lock` stands for those that callers pass to sleep.
pub data Lock : Type 0 where
  unused_lock cont_unused_lock cont_run_lock wait_lock : Lock
  proc_lock cont_lock other_lock : ℕ → Lock

abbrev pub same_lock : Lock → Lock → Bool
same_lock unused_lock unused_lock = true
same_lock cont_unused_lock cont_unused_lock = true
same_lock cont_run_lock cont_run_lock = true
same_lock wait_lock wait_lock = true
same_lock (proc_lock p) (proc_lock q) = p == q
same_lock (cont_lock p) (cont_lock q) = p == q
same_lock (other_lock p) (other_lock q) = p == q
same_lock _ _ = false

-- The locks held, the last one acquired first.
abbrev pub Held : Type 0
Held = List Lock

abbrev pub holds : Lock → Held → Bool
holds l [] = false
holds l (m ∷ ls) = same_lock l m || holds l ls

abbrev pub drop_lock : Lock → Held → Held
drop_lock l [] = []
drop_lock l (m ∷ ls) = if same_lock l m then ls else m ∷ drop_lock l ls

-- A command ends with a value, in a call of panic, in an access through a null pointer, or in a
-- list operation on an element that is not in the list.
pub data Run (A : Type 0) : Type 0 where
  panic null_access not_member : Run A
  ok : A → Kernel → Held → Run A

abbrev pub Cmd : Type 0 → Type 0
Cmd A = Kernel → Held → Run A

abbrev pub pure : {A : Type 0} → A → Cmd A
pure x k held = ok x k held

-- The rest of a run, from its first part.
abbrev pub and_then : {A B : Type 0} → Run A → (A → Cmd B) → Run B
and_then panic rest = panic
and_then null_access rest = null_access
and_then not_member rest = not_member
and_then (ok x k held) rest = rest x k held

infixl 5 ◌>>=◌
abbrev pub ◌>>=◌ : {A B : Type 0} → Cmd A → (A → Cmd B) → Cmd B
◌>>=◌ first rest k held = and_then (first k held) rest

infixl 5 ◌>>◌
abbrev pub ◌>>◌ : {A B : Type 0} → Cmd A → Cmd B → Cmd B
◌>>◌ first rest k held = and_then (first k held) λ _. rest

abbrev pub update {ℓ} : {A : Type ℓ} → (ℕ → A) → ℕ → A → ℕ → A
update f i v j = if j == i then v else f j

pub update-update {ℓ} :
    {A : Type ℓ} (f : ℕ → A) (i : ℕ) (v w : A) → update (update f i v) i w ≡ update f i w
update-update f i v w = fun_ext λ j. merge j (j == i)
  where
    merge : (j : ℕ) (b : Bool) → (if b then w else (if b then v else f j)) ≡ (if b then w else f j)
    merge j true = refl
    merge j false = refl

pub update_self {ℓ} : {A : Type ℓ} (f : ℕ → A) (i : ℕ) (v : A) → update f i v i ≡ v
update_self f i v = rw (==-refl i)

-- acquire and release of kernel/spinlock.c, as this CPU sees them: acquiring a lock that it holds,
-- and releasing one that it does not hold, panics.
unfoldable pub acquire : Lock → Cmd (Unit {0})
acquire l k held = if holds l held then panic else ok tt k (l ∷ held)

unfoldable pub release : Lock → Cmd (Unit {0})
release l k held = if holds l held then ok tt k (drop_lock l held) else panic

-- Reads and writes of the tables.
abbrev pub get_proc : ℕ → Cmd Proc
get_proc p k held = ok (k.procs p) k held

abbrev pub set_proc : ℕ → (Proc → Proc) → Cmd (Unit {0})
set_proc p f k held = ok tt (record k { procs = update k.procs p (f (k.procs p)) }) held

abbrev pub get_cont : ℕ → Cmd Cont
get_cont c k held = ok (k.conts c) k held

abbrev pub set_cont : ℕ → (Cont → Cont) → Cmd (Unit {0})
set_cont c f k held = ok tt (record k { conts = update k.conts c (f (k.conts c)) }) held

abbrev pub deref : Option ℕ → Cmd ℕ
deref none k held = null_access
deref (some p) k held = ok p k held

abbrev pub call : Call → Cmd (Unit {0})
call c k held = ok tt (record k { calls = k.calls ++ (c ∷ []) }) held

-- An `int` -n.
abbrev pub minus : ℕ → ℕ
minus n = 2 ^ 32 - n

-- The queue operations of list.c, on the sequence that a list holds.
abbrev pub push_back : ℕ → List ℕ → List ℕ
push_back p q = q ++ (p ∷ [])

-- list_remove of an element that is in the list; where it is not, C says nothing of the links.
abbrev pub removed : ℕ → List ℕ → Cmd (List ℕ)
removed p q k held = if has p q then ok (erase p q) k held else not_member
