-- ===== src/Print/Number.antt =====
-- Numbers that printint of user/printf.c prints, as atoi of user/ulib.c reads them.
use project.Base.{
  ℕ, zero, suc, ◌+◌, ◌-◌, ◌*◌, ◌/◌, ◌%◌, ◌^◌, ◌≤◌, ◌<◌, ◌≡◌, refl, sym, ◌∙◌, ◌⊎◌, inl, inr, Bool,
  true, List, [], ◌∷◌, ◌++◌, ◌==◌, if◌then◌else◌, arith, Bool-cases, eq_of_==, ap,
}
use mathlib.Core.Path.{subst}
use project.Base.Lists.{length, length-append}
use project.Print.{
  digits, fill_buf, put_back, minus, neg, buf_of, printint, is_digit, atoi_from, atoi,
}

-- 10 ^ n.
abbrev pow10 : ℕ → ℕ
pow10 zero = 1
pow10 (suc n) = 10 * pow10 n

atoi_from-digit :
    (x : ℕ) (s : List ℕ) → x < 2 ^ 32 → atoi_from (x / 10) (digits (x % 10) ∷ s) ≡ atoi_from x s
atoi_from-digit x s lt =
    let char : digits (x % 10) ≡ 48 + x % 10 = ground arith in
    let digit : is_digit (48 + x % 10) ≡ true = ground arith in
    let value : (x / 10 * 10 + (48 + x % 10) - 48) % 2 ^ 32 ≡ x = omega arith in
    rw (char, digit, value) refl

-- The digits read back, in front of what follows.
atoi-fill_buf :
    (fuel x : ℕ) (s : List ℕ)
    → x < 2 ^ 32
    → x < pow10 fuel
    → atoi_from 0 (put_back (fill_buf fuel 10 x) s) ≡ atoi_from x s
atoi-fill_buf zero x s lt enough = let z : x ≡ 0 = omega arith in rw z refl
atoi-fill_buf (suc fuel) x s lt enough = elim (Bool-cases (x / 10 == 0)) [
  | inl z ↦
      let zero_left : x / 10 ≡ 0 = eq_of_== (x / 10) 0 z in
      let step = atoi_from-digit x s lt in
      rw z (ap (λ n. atoi_from n (digits (x % 10) ∷ s)) (sym zero_left) ∙ step)
  | inr more ↦ rw more (
      atoi-fill_buf fuel (x / 10) (digits (x % 10) ∷ s) (omega arith) (omega arith)
      ∙ atoi_from-digit x s lt)
]

put_back-++ : (xs : List ℕ) (c : ℕ) (s : List ℕ) → put_back (xs ++ (c ∷ [])) s ≡ c ∷ put_back xs s
put_back-++ [] c s = refl
put_back-++ (x ∷ xs) c s = put_back-++ xs c (x ∷ s)

++_nil : (xs : List ℕ) → (xs ++ []) ≡ xs
++_nil [] = refl
++_nil (x ∷ xs) = ap (λ ys. x ∷ ys) (++_nil xs)

-- atoi of what printint prints in base 10 is the number, or 0 where it is negative and printed with
-- its sign, since atoi reads no sign.
pub atoi-printint :
    (xx : ℕ) (sgn : Bool) → xx < 2 ^ 32 → atoi (printint xx 10 sgn) ≡ (if neg xx sgn then 0 else xx)
unfolding printint buf_of
atoi-printint xx sgn lt = elim (Bool-cases (neg xx sgn)) [
  | inl h ↦ rw (h, put_back-++ (fill_buf 32 10 ((2 ^ 32 - xx) % 2 ^ 32)) minus []) refl
  | inr h ↦ rw (h, ++_nil (fill_buf 32 10 xx)) (atoi-fill_buf 32 xx [] lt (omega arith))
]

length-fill_buf :
    (fuel k base x : ℕ)
    → ((y : ℕ) → y / base ≤ y / 10)
    → x < pow10 (suc k)
    → length (fill_buf fuel base x) ≤ k + 1
length-fill_buf zero k base x shrinks lt = omega arith
length-fill_buf (suc fuel) zero base x shrinks lt =
    let last : x / base ≡ 0 = omega (arith, shrinks x) in
    let stop : (x / base == 0) ≡ true = ground arith in rw stop (omega arith)
length-fill_buf (suc fuel) (suc k) base x shrinks lt = elim (Bool-cases (x / base == 0)) [
  | inl stop ↦ rw stop (omega arith)
  | inr more ↦
      rw more
        (omega (arith, length-fill_buf fuel k base (x / base) shrinks (omega (arith, shrinks x))))
]

buf_fits :
    (base x : ℕ) (tail : List ℕ)
    → ((y : ℕ) → y / base ≤ y / 10)
    → x < 2 ^ 32
    → length tail ≤ 1
    → length (fill_buf 32 base x ++ tail) ≤ 11
buf_fits base x tail shrinks lt short =
    let l : length (fill_buf 32 base x) ≤ 10 = length-fill_buf 32 9 base x shrinks (omega arith) in
    subst (λ n. n ≤ 11) (sym (length-append (fill_buf 32 base x) tail)) (omega arith)

-- printint of an int or uint in base 10 or 16 puts at most 11 characters into buf, which has room
-- for 16.
pub length-buf_of :
    (xx base : ℕ) (sgn : Bool)
    → xx < 2 ^ 32
    → (base ≡ 10) ⊎ (base ≡ 16)
    → length (buf_of xx base sgn) ≤ 11
unfolding buf_of
length-buf_of xx base sgn lt b =
    let shrinks : (y : ℕ) → y / base ≤ y / 10 = elim b [
      | inl e ↦ λ y. rw e (omega arith)
      | inr e ↦ λ y. rw e (omega arith)
    ] in
    elim (Bool-cases (neg xx sgn)) [
      | inl h ↦
          rw h (
            buf_fits base ((2 ^ 32 - xx) % 2 ^ 32) (minus ∷ []) shrinks (omega arith) (omega arith))
      | inr h ↦ rw h (buf_fits base xx [] shrinks lt (omega arith))
    ]
