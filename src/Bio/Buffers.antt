-- ===== src/Bio/Buffers.antt =====
-- What the cache of kernel/bio.c shows of each block, and how changes of a buffer bear on it.
use project.Base.{
  ℕ, ◌+◌, ◌≤◌, ◌≡◌, refl, ap, inl, inr, ◌==◌, true, false, none, some, List, [], ◌∷◌, if◌then◌else◌,
  arith, Bool-cases,
}
use mathlib.Core.Path.{subst}
use project.Bio.{Buf, Bcache, is_block, find, set_buf}

-- Block `blockno` of device `dev` as the cache shows it: the bytes of its buffer if these are
-- valid, and those on the disk otherwise.
abbrev pub shown : (ℕ → ℕ → ℕ → ℕ) → (dev blockno : ℕ) → List Buf → ℕ → ℕ
shown disk dev blockno [] = disk dev blockno
shown disk dev blockno (b ∷ bs) =
    let rest = shown disk dev blockno bs in
    if is_block dev blockno b then (if b.valid then b.bytes else disk dev blockno) else rest

abbrev pub view : Bcache → (dev blockno : ℕ) → ℕ → ℕ
view s dev blockno = shown s.disk dev blockno s.bufs

-- How many buffers have the block.
abbrev pub count : (dev blockno : ℕ) → List Buf → ℕ
count dev blockno [] = 0
count dev blockno (b ∷ bs) =
    let rest = count dev blockno bs in if is_block dev blockno b then rest + 1 else rest

-- An unused buffer has no bytes that the disk does not have.
abbrev pub UnusedClean : (ℕ → ℕ → ℕ → ℕ) → Buf → Type 0
UnusedClean disk b = b.refcnt ≡ 0 → b.valid ≡ true → b.bytes ≡ disk b.dev b.blockno

abbrev pub Clean : (ℕ → ℕ → ℕ → ℕ) → List Buf → Type 0
Clean disk [] = Unit
Clean disk (b ∷ bs) = UnusedClean disk b × Clean disk bs

-- Each block of a device other than 0 has one buffer at most, and unused buffers are clean. At the
-- start the buffers have device 0, which no call asks for.
pub record Sound (s : Bcache) : Type 0 where
  pub single : (d k : ℕ) → (d == 0) ≡ false → count d k s.bufs ≤ 1
  pub clean : Clean s.disk s.bufs

-- The change of a buffer leaves it a buffer of the same block.
abbrev pub KeepsBlock : (Buf → Buf) → Type 0
KeepsBlock f = (b : Buf) → ((f b).dev ≡ b.dev) × ((f b).blockno ≡ b.blockno)

pub some_inj : (a b : Buf) → some a ≡ some b → a ≡ b
some_inj a b e = ap (λ o. elim o [ none ↦ a | some x ↦ x ]) e

same_block :
    (f : Buf → Buf) (d k : ℕ) (b : Buf) → KeepsBlock f → is_block d k (f b) ≡ is_block d k b
same_block f d k b keeps = rw ((keeps b).0, (keeps b).1) refl

pub is_block_eq : (d k : ℕ) (b : Buf) → is_block d k b ≡ true → (b.dev ≡ d) × (b.blockno ≡ k)
is_block_eq d k b h = (ground arith, ground arith)

pub count-set_buf :
    (f : Buf → Buf) (dev blockno d k : ℕ) (bs : List Buf)
    → KeepsBlock f
    → count d k (set_buf dev blockno f bs) ≡ count d k bs
count-set_buf f dev blockno d k [] keeps = refl
count-set_buf f dev blockno d k (b ∷ bs) keeps = elim (Bool-cases (is_block dev blockno b)) [
  | inl h ↦ rw (h, same_block f d k b keeps) refl
  | inr h ↦ rw (h, count-set_buf f dev blockno d k bs keeps) refl
]

pub find-set_buf :
    (f : Buf → Buf) (dev blockno : ℕ) (b : Buf) (bs : List Buf)
    → KeepsBlock f
    → find dev blockno bs ≡ some b
    → find dev blockno (set_buf dev blockno f bs) ≡ some (f b)
find-set_buf f dev blockno b [] keeps e = absurd (ground arith)
find-set_buf f dev blockno b (c ∷ bs) keeps e = elim (Bool-cases (is_block dev blockno c)) [
  | inl h ↦
      rw (h, same_block f dev blockno c keeps, h) (ap (λ x. some (f x)) (some_inj c b (rw h at e)))
  | inr h ↦ rw (h, h) (find-set_buf f dev blockno b bs keeps (rw h at e))
]

-- The buffer that find finds.
pub shown-find :
    (disk : ℕ → ℕ → ℕ → ℕ) (dev blockno : ℕ) (b : Buf) (bs : List Buf)
    → find dev blockno bs ≡ some b
    → shown disk dev blockno bs ≡ (if b.valid then b.bytes else disk dev blockno)
shown-find disk dev blockno b [] e = absurd (ground arith)
shown-find disk dev blockno b (c ∷ bs) e = elim (Bool-cases (is_block dev blockno c)) [
  | inl h ↦
      let same : c ≡ b = some_inj c b (rw h at e) in
      rw h (ap (λ x. if x.valid then x.bytes else disk dev blockno) same)
  | inr h ↦ rw h (shown-find disk dev blockno b bs (rw h at e))
]

pub shown-set_buf :
    (disk : ℕ → ℕ → ℕ → ℕ) (f : Buf → Buf) (dev blockno d k : ℕ) (bs : List Buf)
    → KeepsBlock f
    → ((b : Buf)
        → is_block dev blockno b ≡ true
        → (if (f b).valid then (f b).bytes else disk b.dev b.blockno)
          ≡ (if b.valid then b.bytes else disk b.dev b.blockno))
    → shown disk d k (set_buf dev blockno f bs) ≡ shown disk d k bs
shown-set_buf disk f dev blockno d k [] keeps same = refl
shown-set_buf disk f dev blockno d k (b ∷ bs) keeps same =
    elim (Bool-cases (is_block dev blockno b)) [
      | inr h ↦ rw (h, shown-set_buf disk f dev blockno d k bs keeps same) refl
      | inl h ↦ elim (Bool-cases (is_block d k b)) [
        | inr other ↦ rw (h, same_block f d k b keeps, other) refl
        | inl this ↦
            let key = is_block_eq d k b this in
            let at_disk : disk b.dev b.blockno ≡ disk d k = rw (key.0, key.1) refl in
            rw (h, same_block f d k b keeps, this)
              (subst
                (λ x. (if (f b).valid then (f b).bytes else x) ≡ (if b.valid then b.bytes else x))
                at_disk (same b h))
      ]
    ]

pub find-block :
    (dev blockno : ℕ) (b : Buf) (bs : List Buf)
    → find dev blockno bs ≡ some b
    → is_block dev blockno b ≡ true
find-block dev blockno b [] e = absurd (ground arith)
find-block dev blockno b (c ∷ bs) e = elim (Bool-cases (is_block dev blockno c)) [
  | inl h ↦ subst (λ x. is_block dev blockno x ≡ true) (some_inj c b (rw h at e)) h
  | inr h ↦ find-block dev blockno b bs (rw h at e)
]

pub Clean-set_buf :
    (disk : ℕ → ℕ → ℕ → ℕ) (f : Buf → Buf) (dev blockno : ℕ) (bs : List Buf)
    → ((b : Buf) → find dev blockno bs ≡ some b → UnusedClean disk b → UnusedClean disk (f b))
    → Clean disk bs
    → Clean disk (set_buf dev blockno f bs)
Clean-set_buf disk f dev blockno [] keeps c = tt
Clean-set_buf disk f dev blockno (b ∷ bs) keeps (c, cs) =
    elim (Bool-cases (is_block dev blockno b)) [
      | inl h ↦ rw h (keeps b (rw h refl) c, cs)
      | inr h ↦ rw h (c, Clean-set_buf disk f dev blockno bs (λ x e. keeps x (rw h e)) cs)
    ]

-- No buffer has the block.
pub shown-absent :
    (disk : ℕ → ℕ → ℕ → ℕ) (d k : ℕ) (bs : List Buf)
    → count d k bs ≤ 0
    → shown disk d k bs ≡ disk d k
shown-absent disk d k [] le = refl
shown-absent disk d k (b ∷ bs) le = elim (Bool-cases (is_block d k b)) [
  | inl h ↦ absurd (omega (arith, (rw h at le)))
  | inr h ↦ rw h (shown-absent disk d k bs (rw h at le))
]

pub count-absent : (d k : ℕ) (bs : List Buf) → find d k bs ≡ none → count d k bs ≤ 0
count-absent d k [] e = omega arith
count-absent d k (b ∷ bs) e = elim (Bool-cases (is_block d k b)) [
  | inl h ↦ let clash : some b ≡ none = rw h at e in absurd (ground arith)
  | inr h ↦ rw h (count-absent d k bs (rw h at e))
]
