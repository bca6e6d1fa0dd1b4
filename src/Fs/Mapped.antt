-- ===== src/Fs/Mapped.antt =====
-- The blocks of a file of kernel/fs.c, by the direct entries and the indirect block.
use project.Base.{
  ℕ, ◌+◌, ◌-◌, ◌*◌, ◌/◌, ◌%◌, ◌^◌, ◌<◌, ◌≡◌, refl, sym, ◌∙◌, inl, inr, true, false, ltb, ◌==◌,
  ==-refl, ==_sym, if◌then◌else◌, arith, Bool-cases, eq_of_==,
}
use mathlib.Core.Path.{subst}
use project.Fs.{Superblock, Fs, ndirect, maxfile, bblock}
use project.Fs.Bitmap.{is_free, BitmapSafe, Took, and_false}
use project.Fs.Inode.{word, put_word}

-- The bytes of another word stay.
put_word-other : (bytes : ℕ → ℕ) (j v i : ℕ) → (i / 4 == j) ≡ false → put_word bytes j v i ≡ bytes i
put_word-other bytes j v i ne = ground arith

put_word-bytes :
    (bytes : ℕ → ℕ) (j v : ℕ)
    → (put_word bytes j v (4 * j) ≡ v % 256)
      × (put_word bytes j v (4 * j + 1) ≡ v / 2 ^ 8 % 256)
      × (put_word bytes j v (4 * j + 2) ≡ v / 2 ^ 16 % 256)
      × (put_word bytes j v (4 * j + 3) ≡ v / 2 ^ 24 % 256)
put_word-bytes bytes j v = (ground arith, ground arith, ground arith, ground arith)

-- A word reads back, and the other words of the block stay.
pub word-put_word :
    (bytes : ℕ → ℕ) (j k v : ℕ)
    → v < 2 ^ 32
    → word (put_word bytes j v) k ≡ (if k == j then v else word bytes k)
word-put_word bytes j k v lt = elim (Bool-cases (k == j)) [
  | inl h ↦
      let w = put_word-bytes bytes j v in
      rw (eq_of_== k j h, ==-refl j) (rw (w.0, w.1, w.2, w.3) (omega arith))
  | inr h ↦
      let other = put_word-other bytes j v in
      rw
        (
          h,
          other (4 * k) (ground arith),
          other (4 * k + 1) (ground arith),
          other (4 * k + 2) (ground arith),
          other (4 * k + 3) (ground arith),
        )
        refl
]

pub put_word-lt :
    (bytes : ℕ → ℕ) (j v i : ℕ) → ((i : ℕ) → bytes i < 256) → put_word bytes j v i < 256
put_word-lt bytes j v i h = ground (arith, h i)

clash : true ≡ false → ⊥
clash h = cc

-- The block with number `bn` of the file, or 0.
abbrev pub lookup : Fs → (ℕ → ℕ) → ℕ → ℕ
lookup s addrs bn =
    if ltb bn ndirect
    then addrs bn
    else (if addrs ndirect == 0 then 0 else word (s.block (addrs ndirect)) (bn - ndirect))

-- The blocks of a file, `blocks`, and its indirect block, `ind`, are in use where they are not 0;
-- no block is there twice, and none is the indirect block.
pub record Layout (Used : ℕ → Type 0) (block : ℕ → ℕ) (ind : ℕ) : Type 0 where
  pub blocks : (k : ℕ) → k < maxfile → (block k == 0) ≡ false → Used (block k)
  pub indirect : (ind == 0) ≡ false → Used ind
  pub apart : (k : ℕ) → k < maxfile → (block k == 0) ≡ false → (block k == ind) ≡ false
  pub distinct :
      (i k : ℕ) → i < maxfile → k < maxfile → (block i == 0) ≡ false → block i ≡ block k → i ≡ k

-- A new block of a file.
pub Layout-insert :
    (Used Used' : ℕ → Type 0) (block block' : ℕ → ℕ) (ind bn r : ℕ)
    → Layout Used block ind
    → ((b : ℕ) → Used b → Used' b)
    → Used' r
    → ((k : ℕ) → k < maxfile → (block k == r) ≡ false)
    → (r == ind) ≡ false
    → ((k : ℕ) → k < maxfile → block' k ≡ (if k == bn then r else block k))
    → Layout Used' block' ind
Layout-insert Used Used' block block' ind bn r m keep new fresh apart at = record {
  blocks = λ k kl ne. elim (Bool-cases (k == bn)) [
    | inl h ↦ rw (at k kl) (rw h new)
    | inr h ↦
        let e : block' k ≡ block k = at k kl ∙ rw h refl in
        rw e (keep (block k) (m.blocks k kl (rw e at ne)))
  ];
  indirect = λ ne. keep ind (m.indirect ne);
  apart = λ k kl ne. elim (Bool-cases (k == bn)) [
    | inl h ↦ rw (at k kl) (rw h apart)
    | inr h ↦ let e : block' k ≡ block k = at k kl ∙ rw h refl in rw e (m.apart k kl (rw e at ne))
  ];
  distinct = λ i k il kl ne e. elim (Bool-cases (i == bn)) [
    | inl hi ↦ elim (Bool-cases (k == bn)) [
      | inl hk ↦ eq_of_== i bn hi ∙ sym (eq_of_== k bn hk)
      | inr hk ↦
          let same : block k ≡ r = sym (at k kl ∙ rw hk refl) ∙ sym e ∙ at i il ∙ rw hi refl in
          absurd (ground (arith, fresh k kl))
    ]
    | inr hi ↦
        let ei : block' i ≡ block i = at i il ∙ rw hi refl in
        elim (Bool-cases (k == bn)) [
          | inl hk ↦
              let same : block i ≡ r = sym ei ∙ e ∙ at k kl ∙ rw hk refl in
              absurd (ground (arith, fresh i il))
          | inr hk ↦ m.distinct i k il kl (rw ei at ne) (sym ei ∙ e ∙ at k kl ∙ rw hk refl)
        ]
  ];
}

module _ (sb : Superblock) where
  -- A block of the file system that is in use and is no bitmap block.
  pub record InUse (s : Fs) (b : ℕ) : Type 0 where
    pub in_range : b < sb.size
    pub used : is_free sb s b ≡ false
    pub apart : (d : ℕ) → d < sb.size → (bblock sb d == b) ≡ false

  abbrev pub Mapped : Fs → (ℕ → ℕ) → Type 0
  Mapped s addrs = Layout (InUse s) (lookup s addrs) (addrs ndirect)

  module _ (s t : Fs) (r : ℕ) (safe : BitmapSafe sb s) (took : Took sb s r t) where
    -- A block in use is not the one that balloc takes, and does not change.
    pub InUse-ne : (b : ℕ) → InUse s b → (b == r) ≡ false
    InUse-ne b u = elim (Bool-cases (b == r)) [
      | inl e ↦
          let free : is_free sb s b ≡ true = rw (eq_of_== b r e) took.was_free in
          absurd (clash (sym free ∙ u.used))
      | inr e ↦ e
    ]

    pub Took-block : (b : ℕ) → InUse s b → t.block b ≡ s.block b
    Took-block b u =
        took.same_rest b (InUse-ne b u) (==_sym b (bblock sb r) ∙ u.apart r took.in_range)

    pub InUse-Took : (b : ℕ) → InUse s b → InUse t b
    InUse-Took b u = record {
      in_range = u.in_range;
      used = took.now_free b u.in_range ∙ rw u.used refl;
      apart = u.apart;
    }

    pub InUse-new : InUse t r
    InUse-new = record {
      in_range = took.in_range;
      used = took.now_free r took.in_range ∙ rw (==-refl r) (and_false (is_free sb s r));
      apart = λ d dl. safe.map_used r d took.in_range dl took.was_free;
    }

    pub new-ne-zero : (r == 0) ≡ false
    new-ne-zero = elim (Bool-cases (r == 0)) [
      | inl e ↦
          let free = subst (λ a. is_free sb s a ≡ true) (eq_of_== r 0 e) took.was_free in
          absurd (clash (sym free ∙ safe.boot_used))
      | inr e ↦ e
    ]

    module _ (addrs : ℕ → ℕ) (mapped : Mapped s addrs) where
      pub lookup-Took : (k : ℕ) → lookup t addrs k ≡ lookup s addrs k
      lookup-Took k = elim (Bool-cases (addrs ndirect == 0)) [
        | inl h ↦ rw h refl
        | inr h ↦ rw (Took-block (addrs ndirect) (mapped.indirect h)) refl
      ]

      pub Mapped-Took : Mapped t addrs
      Mapped-Took = record {
        blocks = λ k kl ne.
            rw (lookup-Took k)
              (InUse-Took (lookup s addrs k) (mapped.blocks k kl (rw (lookup-Took k) at ne)));
        indirect = λ ne. InUse-Took (addrs ndirect) (mapped.indirect ne);
        apart = λ k kl ne. rw (lookup-Took k) (mapped.apart k kl (rw (lookup-Took k) at ne));
        distinct = λ i k il kl ne e.
            mapped.distinct i k il kl (rw (lookup-Took i) at ne)
              (sym (lookup-Took i) ∙ e ∙ lookup-Took k);
      }

      -- No block of the file is the new one.
      pub lookup-ne-new : (k : ℕ) → k < maxfile → (lookup s addrs k == r) ≡ false
      lookup-ne-new k kl = elim (Bool-cases (lookup s addrs k == 0)) [
        | inl h ↦ rw (eq_of_== (lookup s addrs k) 0 h) (==_sym 0 r ∙ new-ne-zero)
        | inr h ↦ InUse-ne (lookup s addrs k) (mapped.blocks k kl h)
      ]
