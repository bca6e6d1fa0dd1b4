-- ===== src/Fs/Bits.antt =====
-- The bits of a byte, and of the bitmap blocks of kernel/fs.c.
use project.Base.{
  ℕ, zero, suc, ◌-◌, ◌/◌, ◌%◌, ◌^◌, ◌<◌, ◌≡◌, refl, Bool, true, false, not, ◌&&◌, ◌||◌, inl, inr,
  ltb, ◌==◌, arith, Bool-cases, eq_of_==, ==-refl,
}
use Prim.Native.Nat.{bit_and, bit_or}
use project.Fs.{put, bit_clear}

-- A test of every number below `n`.
all_below : ℕ → (ℕ → Bool) → Bool
all_below zero p = true
all_below (suc n) p = p n && all_below n p

all_below_lem : (n : ℕ) (p : ℕ → Bool) (x : ℕ) → all_below n p ≡ true → x < n → p x ≡ true
unfolding all_below
all_below_lem zero p x h lt = absurd (omega arith)
all_below_lem (suc n) p x h lt = ground (arith, all_below_lem n p x)

same : Bool → Bool → Bool
same true b = b
same false b = not b

eq_of_same : (a b : Bool) → same a b ≡ true → a ≡ b
unfolding same
eq_of_same true true h = refl
eq_of_same true false h = cc
eq_of_same false true h = cc
eq_of_same false false h = refl

abbrev clear : ℕ → ℕ → Bool
clear x j = bit_and x (2 ^ j) == 0

lt_of_ltb : (a b : ℕ) → ltb a b ≡ true → a < b
lt_of_ltb a b h = ground arith

-- Every byte, with every bit set or cleared, at every bit.
abbrev every_bit : (ℕ → ℕ → ℕ → Bool) → Bool
every_bit p = all_below 256 (λ x. all_below 8 (λ k. all_below 8 (p x k)))

every_bit_lem :
    (p : ℕ → ℕ → ℕ → Bool) (x k j : ℕ)
    → every_bit p ≡ true
    → x < 256
    → k < 8
    → j < 8
    → p x k j ≡ true
every_bit_lem p x k j h xs ks js =
    all_below_lem 8 (p x k) j
      (all_below_lem 8 (λ k. all_below 8 (p x k)) k
        (all_below_lem 256 (λ x. all_below 8 (λ k. all_below 8 (p x k))) x h xs) ks)
      js

abbrev set_test : ℕ → ℕ → ℕ → Bool
set_test x k j =
    same (clear (bit_or x (2 ^ k)) j) (clear x j && not (j == k)) && ltb (bit_or x (2 ^ k)) 256

abbrev clear_test : ℕ → ℕ → ℕ → Bool
clear_test x k j =
    same (clear (bit_and x (255 - 2 ^ k)) j) (clear x j || (j == k))
    && ltb (bit_and x (255 - 2 ^ k)) 256

set_table : every_bit set_test ≡ true
unfolding all_below same
set_table = refl

clear_table : every_bit clear_test ≡ true
unfolding all_below same
clear_table = refl

and_left : (a b : Bool) → (a && b) ≡ true → a ≡ true
and_left true b h = refl
and_left false b h = cc

and_right : (a b : Bool) → (a && b) ≡ true → b ≡ true
and_right true b h = h
and_right false b h = cc

clear-bit_or :
    (x k j : ℕ) → x < 256 → k < 8 → j < 8 → clear (bit_or x (2 ^ k)) j ≡ (clear x j && not (j == k))
clear-bit_or x k j xs ks js =
    eq_of_same _ _ (and_left _ _ (every_bit_lem set_test x k j set_table xs ks js))

bit_or-lt : (x k : ℕ) → x < 256 → k < 8 → bit_or x (2 ^ k) < 256
bit_or-lt x k xs ks =
    let h : ltb (bit_or x (2 ^ k)) 256 ≡ true =
      and_right (same (clear (bit_or x (2 ^ k)) 0) (clear x 0 && not (0 == k))) _
        (every_bit_lem set_test x k 0 set_table xs ks (omega arith)) in
    lt_of_ltb _ _ h

clear-bit_and :
    (x k j : ℕ)
    → x < 256
    → k < 8
    → j < 8
    → clear (bit_and x (255 - 2 ^ k)) j ≡ (clear x j || (j == k))
clear-bit_and x k j xs ks js =
    eq_of_same _ _ (and_left _ _ (every_bit_lem clear_test x k j clear_table xs ks js))

bit_and-lt : (x k : ℕ) → x < 256 → k < 8 → bit_and x (255 - 2 ^ k) < 256
bit_and-lt x k xs ks =
    let h : ltb (bit_and x (255 - 2 ^ k)) 256 ≡ true =
      and_right (same (clear (bit_and x (255 - 2 ^ k)) 0) (clear x 0 || (0 == k))) _
        (every_bit_lem clear_test x k 0 clear_table xs ks (omega arith)) in
    lt_of_ltb _ _ h

-- Two bits are the same where they are in the same byte at the same place.
same_place : (c bi : ℕ) → c / 8 ≡ bi / 8 → (c % 8 == bi % 8) ≡ (c == bi)
same_place c bi h = ground arith

module _ (bytes : ℕ → ℕ) (bi : ℕ) (byte : bytes (bi / 8) < 256) where
  pub bit_clear-set :
      (c : ℕ)
      → bit_clear (put bytes (bi / 8) (bit_or (bytes (bi / 8)) (2 ^ (bi % 8)))) c
        ≡ (bit_clear bytes c && not (c == bi))
  bit_clear-set c = elim (Bool-cases (c / 8 == bi / 8)) [
    | inl h ↦
        let q = eq_of_== (c / 8) (bi / 8) h in
        rw (q, ==-refl (bi / 8), ← same_place c bi q)
          (clear-bit_or (bytes (bi / 8)) (bi % 8) (c % 8) byte (omega arith) (omega arith))
    | inr h ↦ let apart : (c == bi) ≡ false = ground arith in rw (h, apart) (ground arith)
  ]

  pub bit_clear-reset :
      (c : ℕ)
      → bit_clear (put bytes (bi / 8) (bit_and (bytes (bi / 8)) (255 - 2 ^ (bi % 8)))) c
        ≡ (bit_clear bytes c || (c == bi))
  bit_clear-reset c = elim (Bool-cases (c / 8 == bi / 8)) [
    | inl h ↦
        let q = eq_of_== (c / 8) (bi / 8) h in
        rw (q, ==-refl (bi / 8), ← same_place c bi q)
          (clear-bit_and (bytes (bi / 8)) (bi % 8) (c % 8) byte (omega arith) (omega arith))
    | inr h ↦ let apart : (c == bi) ≡ false = ground arith in rw (h, apart) (ground arith)
  ]

  pub set-byte : bit_or (bytes (bi / 8)) (2 ^ (bi % 8)) < 256
  set-byte = bit_or-lt (bytes (bi / 8)) (bi % 8) byte (omega arith)

  pub reset-byte : bit_and (bytes (bi / 8)) (255 - 2 ^ (bi % 8)) < 256
  reset-byte = bit_and-lt (bytes (bi / 8)) (bi % 8) byte (omega arith)
