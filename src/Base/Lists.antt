-- ===== src/Base/Lists.antt =====
-- Lists measured and indexed by native numbers, and Boolean membership of numbers.
use Prim.Native.Nat.{ℕ, zero, suc, ◌+◌, compare, Ordering}
use mathlib.Core.Path.{◌≡◌, refl}
use mathlib.Core.Logic.{◌⊎◌, inl, inr}
use mathlib.Core.Bool.{Bool, true, false, not, ◌&&◌, ◌||◌}
use mathlib.Core.List.{List, [], ◌∷◌, ◌++◌}
use native.Mathlib.Omega.{arith}

infix 50 ◌==◌
abbrev ◌==◌ : ℕ → ℕ → Bool
a == b = elim (compare a b) [ Ordering.eq ↦ true | _ ↦ false ]

cases : (b : Bool) → (b ≡ true) ⊎ (b ≡ false)
cases true = inl refl
cases false = inr refl

abbrev ltb : ℕ → ℕ → Bool
ltb a b = elim (compare a b) [ Ordering.lt ↦ true | _ ↦ false ]

abbrev leb : ℕ → ℕ → Bool
leb a b = elim (compare a b) [ Ordering.gt ↦ false | _ ↦ true ]

module _ {ℓ} {A : Type ℓ} where
  abbrev pub length : List A → ℕ
  length [] = 0
  length (x ∷ xs) = suc (length xs)

  pub length-append : (xs ys : List A) → length (xs ++ ys) ≡ length xs + length ys
  length-append [] ys = omega arith
  length-append (x ∷ xs) ys = omega (arith, length-append xs ys)

-- Whether a number occurs in a list.
abbrev pub has : ℕ → List ℕ → Bool
has a [] = false
has a (x ∷ xs) = (a == x) || has a xs

-- No number occurs twice.
abbrev pub Distinct : List ℕ → Type 0
Distinct [] = Unit
Distinct (x ∷ xs) = (has x xs ≡ false) × Distinct xs

pub has-append : (a : ℕ) (xs ys : List ℕ) → has a (xs ++ ys) ≡ (has a xs || has a ys)
has-append a [] ys = refl
has-append a (x ∷ xs) ys = ground (arith, has-append a xs ys)

pub Distinct-left : (xs ys : List ℕ) → Distinct (xs ++ ys) → Distinct xs
Distinct-left [] ys d = tt
Distinct-left (x ∷ xs) ys d = (ground (arith, has-append x xs ys), Distinct-left xs ys d.1)

pub Distinct-right : (xs ys : List ℕ) → Distinct (xs ++ ys) → Distinct ys
Distinct-right [] ys d = d
Distinct-right (x ∷ xs) ys d = Distinct-right xs ys d.1

-- A number of the second part of a list without repetitions is not in the first.
pub Distinct-not_has_left :
    (xs ys : List ℕ) (a : ℕ) → Distinct (xs ++ ys) → has a ys ≡ true → has a xs ≡ false
Distinct-not_has_left [] ys a d h = refl
Distinct-not_has_left (x ∷ xs) ys a d h =
    ground (arith, Distinct-not_has_left xs ys a d.1 h, has-append x xs ys)

pub ne_of_has : (a b : ℕ) (xs : List ℕ) → has a xs ≡ true → has b xs ≡ false → (a == b) ≡ false
ne_of_has a b xs m n = ground arith

pub Distinct-not_has_right :
    (xs ys : List ℕ) (a : ℕ) → Distinct (xs ++ ys) → has a xs ≡ true → has a ys ≡ false
Distinct-not_has_right xs ys a d h = elim (cases (has a ys)) [
  | inl e ↦ absurd (ground (arith, Distinct-not_has_left xs ys a d e))
  | inr e ↦ e
]

module _ (e : ℕ) (ys : List ℕ) where
  pub has-insert : (a : ℕ) (xs : List ℕ) → has a (xs ++ (e ∷ ys)) ≡ ((a == e) || has a (xs ++ ys))
  has-insert a [] = refl
  has-insert a (x ∷ xs) = ground (arith, has-insert a xs)

  pub Distinct-insert :
      (xs : List ℕ) → Distinct (xs ++ ys) → has e (xs ++ ys) ≡ false → Distinct (xs ++ (e ∷ ys))
  Distinct-insert [] d out = (out, d)
  Distinct-insert (x ∷ xs) d out =
      (ground (arith, has-insert x xs), Distinct-insert xs d.1 (ground arith))

  pub Distinct-remove :
      (xs : List ℕ) → Distinct (xs ++ (e ∷ ys)) → Distinct (xs ++ ys) × (has e (xs ++ ys) ≡ false)
  Distinct-remove [] d = (d.1, d.0)
  Distinct-remove (x ∷ xs) d = (
    (ground (arith, has-insert x xs), (Distinct-remove xs d.1).0),
    ground (arith, has-insert x xs, (Distinct-remove xs d.1).1),
  )

-- A list of characters stands for the C string of them: safestrcpy into `n` bytes keeps the first
-- `n - 1`, and strncmp of at most `n` bytes is 0 if they agree so far.
abbrev pub take {ℓ} : {A : Type ℓ} → ℕ → List A → List A
take zero xs = []
take (suc n) [] = []
take (suc n) (x ∷ xs) = x ∷ take n xs

abbrev pub same_prefix : ℕ → List ℕ → List ℕ → Bool
same_prefix zero xs ys = true
same_prefix (suc n) [] [] = true
same_prefix (suc n) [] (y ∷ ys) = y == 0
same_prefix (suc n) (x ∷ xs) [] = x == 0
same_prefix (suc n) (x ∷ xs) (y ∷ ys) = (x == y) && same_prefix n xs ys

pub Distinct-snoc :
    (xs : List ℕ) (a : ℕ) → Distinct xs → has a xs ≡ false → Distinct (xs ++ (a ∷ []))
Distinct-snoc [] a d out = (refl, tt)
Distinct-snoc (x ∷ xs) a d out =
    (ground (arith, has-append x xs (a ∷ [])), Distinct-snoc xs a d.1 (ground arith))

-- The list without the first occurrence of a number.
abbrev pub erase : ℕ → List ℕ → List ℕ
erase p [] = []
erase p (q ∷ qs) = let rest = erase p qs in elim (p == q) [ true ↦ qs | false ↦ q ∷ rest ]

module _ (p : ℕ) where
  pub has-erase :
      (q : ℕ) (xs : List ℕ) → Distinct xs → has q (erase p xs) ≡ (has q xs && not (q == p))
  has-erase q [] d = refl
  has-erase q (x ∷ xs) d = ground (arith, has-erase q xs d.1)

  pub Distinct-erase : (xs : List ℕ) → Distinct xs → Distinct (erase p xs)
  Distinct-erase [] d = tt
  Distinct-erase (x ∷ xs) d = ground (arith, Distinct-erase xs d.1, has-erase x xs d.1)

abbrev pub replicate {ℓ} : {A : Type ℓ} → ℕ → A → List A
replicate zero a = []
replicate (suc n) a = a ∷ replicate n a

-- The numbers `a`, `a + 1`, …, `n` of them.
abbrev pub range : ℕ → ℕ → List ℕ
range a zero = []
range a (suc n) = a ∷ range (a + 1) n

pub has-range : (q a n : ℕ) → has q (range a n) ≡ (leb a q && ltb q (a + n))
has-range q a zero = ground arith
has-range q a (suc n) = ground (arith, has-range q (a + 1) n)

pub Distinct-range : (a n : ℕ) → Distinct (range a n)
Distinct-range a zero = tt
Distinct-range a (suc n) = (ground (arith, has-range a (a + 1) n), Distinct-range (a + 1) n)
