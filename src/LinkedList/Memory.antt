-- ===== src/LinkedList/Memory.antt =====
-- Memory as kernel/list.c sees it: the two links of the `struct list_elem` at each address, and
-- commands that read and write them. A command ends with a value, in the panic of a failed
-- ASSERT, in an access through NULL, or out of fuel (a loop that did not end in the rounds given).
use project.Base.{ℕ, ◌+◌, Bool, ◌==◌, if◌then◌else◌}

abbrev pub Ptr : Type 0
Ptr = ℕ

abbrev pub null : Ptr
null = 0

-- `&list->head` and `&list->tail`: a `struct list` is two `struct list_elem` of 16 bytes.
abbrev pub head_of : Ptr → Ptr
head_of l = l

abbrev pub tail_of : Ptr → Ptr
tail_of l = l + 16

-- The `prev` and `next` members of the elements, as functions of the element's address.
pub record Heap : Type 0 where
  pub prev : Ptr → Ptr
  pub next : Ptr → Ptr

abbrev pub update : (Ptr → Ptr) → Ptr → Ptr → Ptr → Ptr
update f p v q = if q == p then v else f q

pub data Run (A : Type 0) : Type 0 where
  null_access panic out_of_fuel : Run A
  ok : A → Heap → Run A

abbrev pub Cmd : Type 0 → Type 0
Cmd A = Heap → Run A

abbrev pub pure : {A : Type 0} → A → Cmd A
pure x mem = ok x mem

-- The rest of a run, from its first part.
abbrev pub and_then : {A B : Type 0} → Run A → (A → Cmd B) → Run B
and_then null_access rest = null_access
and_then panic rest = panic
and_then out_of_fuel rest = out_of_fuel
and_then (ok x mem) rest = rest x mem

infixl 5 ◌>>=◌
abbrev pub ◌>>=◌ : {A B : Type 0} → Cmd A → (A → Cmd B) → Cmd B
◌>>=◌ first rest mem = and_then (first mem) rest

infixl 5 ◌>>◌
abbrev pub ◌>>◌ : {A B : Type 0} → Cmd A → Cmd B → Cmd B
◌>>◌ first rest mem = and_then (first mem) λ _. rest

-- ASSERT (assert.h): panics where the condition fails.
abbrev pub check : (Heap → Bool) → Cmd (Unit {0})
check c h = if c h then ok tt h else panic

-- `p->prev` and `p->next`, read.
unfoldable pub get_prev : Ptr → Cmd Ptr
get_prev p h = if p == null then null_access else ok (h.prev p) h

unfoldable pub get_next : Ptr → Cmd Ptr
get_next p h = if p == null then null_access else ok (h.next p) h

-- `p->prev = v` and `p->next = v`.
unfoldable pub set_prev : Ptr → Ptr → Cmd (Unit {0})
set_prev p v h = if p == null then null_access else ok tt (record h { prev = update h.prev p v })

unfoldable pub set_next : Ptr → Ptr → Cmd (Unit {0})
set_next p v h = if p == null then null_access else ok tt (record h { next = update h.next p v })

-- A run that ends with a value and a heap that satisfy `P`: no panic, no access through NULL,
-- and fuel enough.
pub data Returns {A : Type 0} (Post : A → Heap → Type 0) : Run A → Type 0 where
  returns : {x : A} {mem : Heap} → Post x mem → Returns Post (ok x mem)

-- A run in two parts, and a weaker postcondition.
pub Returns-bind :
    {A B : Type 0} {Mid : A → Heap → Type 0} {Post : B → Heap → Type 0} {first : Run A}
    {rest : A → Cmd B}
    → Returns Mid first
    → ((x : A) (mem : Heap) → Mid x mem → Returns Post (rest x mem))
    → Returns Post (and_then first rest)
Returns-bind (returns mid) go = go _ _ mid

pub Returns-mono :
    {A : Type 0} {Post Post' : A → Heap → Type 0} {run : Run A}
    → Returns Post run
    → ((x : A) (mem : Heap) → Post x mem → Post' x mem)
    → Returns Post' run
Returns-mono (returns post) enough = returns (enough _ _ post)
