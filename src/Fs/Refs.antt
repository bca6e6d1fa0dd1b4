-- ===== src/Fs/Refs.antt =====
-- The reference counts of the inode table of kernel/fs.c: an inode has at most one entry.
use project.Base.{
  ℕ, zero, suc, ◌+◌, ◌-◌, ◌%◌, ◌^◌, ◌≢◌, ◌≤◌, ◌<◌, ◌≡◌, refl, sym, ◌∙◌, ◌⊎◌, inl, inr, Bool, true,
  false, Option, none, some, ◌==◌, arith, Bool-cases, eq_of_==, ==-refl,
}
use project.Fs.Itable.{
  Inode, Table, ninode, is_for, first_entry, add_ref, drop_ref, recycle, set_inode, iget,
}

-- An entry in use for the inode `inum` of the device `dev`.
pub record IsEntry (dev inum : ℕ) (ip : Inode) : Type 0 where
  pub referred : 0 < ip.ref
  pub int : ip.ref < 2 ^ 31
  pub same_dev : ip.dev ≡ dev
  pub same_inum : ip.inum ≡ inum

is_for-IsEntry : (dev inum : ℕ) (ip : Inode) → is_for dev inum ip ≡ true → IsEntry dev inum ip
is_for-IsEntry dev inum ip h = record {
  referred = ground arith;
  int = ground arith;
  same_dev = ground arith;
  same_inum = ground arith;
}

is_for-not_IsEntry :
    (dev inum : ℕ) (ip : Inode) → is_for dev inum ip ≡ false → IsEntry dev inum ip → ⊥
is_for-not_IsEntry dev inum ip h e =
    let a = e.referred in
    let b = e.int in let c = e.same_dev in let d = e.same_inum in absurd (ground arith)

-- Entries in use for the same inode of the same device are one entry.
abbrev pub Unique : Table → Type 0
Unique t =
    (i k dev inum : ℕ)
    → i < ninode
    → k < ninode
    → IsEntry dev inum (t.inode i)
    → IsEntry dev inum (t.inode k)
    → i ≡ k

-- What first_entry answers.
abbrev First : (Inode → Bool) → (ℕ → Inode) → ℕ → ℕ → Option ℕ → Type 0
First test inode i left none = (j : ℕ) → i ≤ j → j < i + left → test (inode j) ≡ false
First test inode i left (some k) = (i ≤ k) × (k < i + left) × (test (inode k) ≡ true)

First-step :
    (test : Inode → Bool) (inode : ℕ → Inode) (i left : ℕ) (r : Option ℕ)
    → test (inode i) ≡ false
    → First test inode (i + 1) left r
    → First test inode i (suc left) r
First-step test inode i left none h f = λ j le lt. elim (Bool-cases (j == i)) [
  | inl e ↦ rw (eq_of_== j i e) h
  | inr e ↦ f j (ground arith) (omega arith)
]
First-step test inode i left (some k) h (le, lt, c) = (omega arith, omega arith, c)

first_entry-First :
    (test : Inode → Bool) (inode : ℕ → Inode) (i left : ℕ)
    → First test inode i left (first_entry test inode i left)
first_entry-First test inode i zero = λ j le lt. absurd (omega arith)
first_entry-First test inode i (suc left) = elim (Bool-cases (test (inode i))) [
  | inl h ↦ rw h (omega arith, omega arith, h)
  | inr h ↦ rw h (
      First-step test inode i left (first_entry test inode (i + 1) left) h
        (first_entry-First test inode (i + 1) left))
]

-- Replacing an entry by one for the same inode, or by one for an inode that has no entry.
Unique-put :
    (t : Table) (i : ℕ) (ip : Inode)
    → Unique t
    → ((k dev inum : ℕ) → k < ninode → IsEntry dev inum ip → IsEntry dev inum (t.inode k) → k ≡ i)
    → Unique (set_inode i ip t)
Unique-put t i ip u fresh a b dev inum al bl fa fb = elim (Bool-cases (a == i)) [
  | inl ea ↦ elim (Bool-cases (b == i)) [
    | inl eb ↦ eq_of_== a i ea ∙ sym (eq_of_== b i eb)
    | inr eb ↦ eq_of_== a i ea ∙ sym (fresh b dev inum bl (rw ea at fa) (rw eb at fb))
  ]
  | inr ea ↦ elim (Bool-cases (b == i)) [
    | inl eb ↦ fresh a dev inum al (rw eb at fb) (rw ea at fa) ∙ sym (eq_of_== b i eb)
    | inr eb ↦ u a b dev inum al bl (rw ea at fa) (rw eb at fb)
  ]
]

-- The inode `inum` of `dev` is at entry `i`, which was its entry with one reference less, or was
-- free.
abbrev pub Entered : (dev inum : ℕ) → Table → ℕ → Table → Type 0
Entered dev inum t i u =
    (IsEntry dev inum (t.inode i) × (u.inode i ≡ record (t.inode i) { ref = (t.inode i).ref + 1 }))
    ⊎ (((t.inode i).ref ≡ 0)
        × ((j : ℕ) → j < ninode → IsEntry dev inum (t.inode j) → ⊥)
        × (u.inode i ≡ record (t.inode i) { dev = dev; inum = inum; ref = 1; valid = false }))

-- What iget answers: a panic where the inode has no entry and none is free.
abbrev pub Got : (dev inum : ℕ) → Table → Option (ℕ × Table) → Type 0
Got dev inum t none =
    (j : ℕ) → j < ninode → (IsEntry dev inum (t.inode j) → ⊥) × ((t.inode j).ref ≢ 0)
Got dev inum t (some (i, u)) =
    (i < ninode)
    × Unique u
    × Entered dev inum t i u
    × ((k : ℕ) → (k == i) ≡ false → u.inode k ≡ t.inode k)
    × (u.fs ≡ t.fs)

-- One more reference does not overflow.
abbrev pub Countable : Table → Type 0
Countable t = (j : ℕ) → j < ninode → (t.inode j).ref + 1 < 2 ^ 31

more_refs :
    (d n : ℕ) (ip : Inode)
    → 0 < ip.ref
    → ip.ref + 1 < 2 ^ 31
    → IsEntry d n (record ip { ref = ip.ref + 1 })
    → IsEntry d n ip
more_refs d n ip pos lt e = record {
  referred = pos;
  int = omega arith;
  same_dev = e.same_dev;
  same_inum = e.same_inum;
}

recycled :
    (dev inum : ℕ) (t : Table) (r : Option ℕ)
    → Unique t
    → ((j : ℕ) → j < ninode → IsEntry dev inum (t.inode j) → ⊥)
    → First (λ ip. ip.ref == 0) t.inode 0 ninode r
    → Got dev inum t (elim r [ some i ↦ some (i, recycle dev inum i t) | none ↦ none ])
recycled dev inum t none u absent f =
    λ j lt. (absent j lt, λ z. let used = f j (omega arith) (omega arith) in ground arith)
recycled dev inum t (some i) u absent (le, lt, free) = (
  omega arith,
  Unique-put t i (record (t.inode i) { dev = dev; inum = inum; ref = 1; valid = false }) u
      (λ k d n kl new old. absurd (
        absent k kl (record {
          referred = old.referred;
          int = old.int;
          same_dev = old.same_dev ∙ sym new.same_dev;
          same_inum = old.same_inum ∙ sym new.same_inum;
        }))),
  inr (ground arith, absent, rw (==-refl i) refl),
  λ k ne. rw ne refl,
  refl,
)

found :
    (dev inum : ℕ) (t : Table) (r : Option ℕ)
    → Unique t
    → Countable t
    → First (is_for dev inum) t.inode 0 ninode r
    → Got dev inum t (elim r [
      | some i ↦ some (i, add_ref i t)
      | none ↦ elim (first_entry (λ ip. ip.ref == 0) t.inode 0 ninode) [
        | some i ↦ some (i, recycle dev inum i t)
        | none ↦ none
      ]
    ])
found dev inum t none u few f =
    recycled dev inum t (first_entry (λ ip. ip.ref == 0) t.inode 0 ninode) u
      (λ j lt. is_for-not_IsEntry dev inum (t.inode j) (f j (omega arith) (omega arith)))
      (first_entry-First (λ ip. ip.ref == 0) t.inode 0 ninode)
found dev inum t (some i) u few (le, lt, h) =
    let e = is_for-IsEntry dev inum (t.inode i) h in
    let il : i < ninode = omega arith in
    let same : ((t.inode i).ref + 1) % 2 ^ 32 ≡ (t.inode i).ref + 1 = omega (arith, few i il) in
    (
      il,
      rw same (
          Unique-put t i (record (t.inode i) { ref = (t.inode i).ref + 1 }) u
            (λ k d n kl new old.
              u k i d n kl il old (more_refs d n (t.inode i) e.referred (few i il) new))),
      inl (e, rw (==-refl i, same) refl),
      λ k ne. rw ne refl,
      refl,
    )

-- iget in a table where an inode has at most one entry and one more reference does not overflow an
-- int: an inode has at most one entry after it, and the inode asked for has the entry that it
-- returns, with one more reference if there was one, else with one reference and not valid. No
-- other entry and no block changes. It panics only if the inode has no entry and no entry is free.
pub iget-Got :
    (dev inum : ℕ) (t : Table) → Unique t → Countable t → Got dev inum t (iget dev inum t)
unfolding iget
iget-Got dev inum t u few =
    found dev inum t (first_entry (is_for dev inum) t.inode 0 ninode) u few
      (first_entry-First (is_for dev inum) t.inode 0 ninode)

-- Dropping a reference of any entry keeps the entries unique.
pub drop_ref-Unique :
    (i : ℕ) (t : Table) → i < ninode → (t.inode i).ref < 2 ^ 31 → Unique t → Unique (drop_ref i t)
drop_ref-Unique i t lt int u =
    Unique-put t i (record (t.inode i) { ref = ((t.inode i).ref + (2 ^ 32 - 1)) % 2 ^ 32 }) u
      (λ k d n kl new old. u k i d n kl lt old (record {
        referred = omega (arith, new.int);
        int = int;
        same_dev = new.same_dev;
        same_inum = new.same_inum;
      }))
