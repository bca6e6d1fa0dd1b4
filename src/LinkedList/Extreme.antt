-- ===== src/LinkedList/Extreme.antt =====
-- list_max and list_min of kernel/list.c: what they find with a comparison of elements.
use project.Base.{
  ℕ, zero, suc, ◌<◌, ◌≡◌, refl, Bool, true, false, List, [], ◌∷◌, ◌++◌, arith, ◌==◌, ==-refl,
  if◌then◌else◌, inl, inr, Bool-cases, eq_of_==,
}
use project.Base.Lists.{has, Distinct-not_has_right, has-insert, length}
use mathlib.Core.List.{append_assoc}
use project.LinkedList.{list_begin, list_end, list_next}
use project.LinkedList.Memory.{Ptr, Heap, Cmd, ok, pure, out_of_fuel, ◌>>=◌, tail_of}
use project.LinkedList.Seg.{IsList, first_of}
use project.LinkedList.Access.{list_begin-run, list_end-run}
use project.LinkedList.Size.{list_next-run}

-- The loop of list_max, from the element `e` on; `less` is the comparison with its auxiliary data.
max_loop : (less : Ptr → Ptr → Bool) → ℕ → Ptr → (max e : Ptr) → Cmd Ptr
max_loop less zero l max e = λ _. out_of_fuel
max_loop less (suc fuel) l max e = do
  last ← list_end l
  if e == last
      then pure max
      else do n ← list_next e; max_loop less fuel l (if less max e then e else max) n

pub list_max : (less : Ptr → Ptr → Bool) → ℕ → Ptr → Cmd Ptr
list_max less fuel l = do
  max ← list_begin l
  last ← list_end l
  if max == last then pure max else do e ← list_next max; max_loop less fuel l max e

-- The loop of list_min, and list_min.
min_loop : (less : Ptr → Ptr → Bool) → ℕ → Ptr → (min e : Ptr) → Cmd Ptr
min_loop less zero l min e = λ _. out_of_fuel
min_loop less (suc fuel) l min e = do
  last ← list_end l
  if e == last
      then pure min
      else do n ← list_next e; min_loop less fuel l (if less e min then e else min) n

pub list_min : (less : Ptr → Ptr → Bool) → ℕ → Ptr → Cmd Ptr
list_min less fuel l = do
  min ← list_begin l
  last ← list_end l
  if min == last then pure min else do e ← list_next min; min_loop less fuel l min e

-- The element that the loop ends with, by what it starts with and the elements that are left.
abbrev pub running_max : (Ptr → Ptr → Bool) → Ptr → List Ptr → Ptr
running_max less m [] = m
running_max less m (z ∷ zs) = running_max less (if less m z then z else m) zs

abbrev pub largest : (Ptr → Ptr → Bool) → Ptr → List Ptr → Ptr
largest less l [] = tail_of l
largest less l (x ∷ xs) = running_max less x xs

module _ {h : Heap} {l : Ptr} (less : Ptr → Ptr → Bool) where
  not_tail :
      (ys : List Ptr) (z : Ptr) (zs : List Ptr)
      → IsList h l (ys ++ (z ∷ zs))
      → (z == tail_of l) ≡ false
  not_tail ys z zs c = ground (
    arith,
    Distinct-not_has_right (ys ++ (z ∷ zs)) (tail_of l ∷ []) z c.distinct.1,
    has-insert z zs z ys,
  )

  max_loop_lem :
      (fuel : ℕ) (m : Ptr) (ys zs : List Ptr)
      → IsList h l (ys ++ zs)
      → length zs < fuel
      → max_loop less fuel l m (first_of l zs) h ≡ ok (running_max less m zs) h
  unfolding max_loop
  max_loop_lem zero m ys zs c f = absurd (omega arith)
  max_loop_lem (suc fuel) m ys [] c f = rw (list_end-run (ys ++ []) c, ==-refl (tail_of l)) refl
  max_loop_lem (suc fuel) m ys (z ∷ zs) c f =
      rw (list_end-run (ys ++ (z ∷ zs)) c, not_tail ys z zs c, list_next-run ys z zs c)
        (max_loop_lem fuel (if less m z then z else m) (ys ++ (z ∷ [])) zs
          (rw (append_assoc ys (z ∷ []) zs) c) (omega arith))

  list_max_run :
      (fuel : ℕ) (xs : List Ptr)
      → IsList h l xs
      → length xs < fuel
      → list_max less fuel l h ≡ ok (largest less l xs) h
  unfolding list_max
  list_max_run fuel [] c f = rw (list_begin-run [] c, list_end-run [] c, ==-refl (tail_of l)) refl
  list_max_run fuel (x ∷ xs) c f =
      rw
        (
          list_begin-run (x ∷ xs) c,
          list_end-run (x ∷ xs) c,
          not_tail [] x xs c,
          list_next-run [] x xs c,
        )
        (max_loop_lem fuel x (x ∷ []) xs c (omega arith))

-- The comparison is asymmetric, and what is not less composes, as for a strict weak order.
pub record Ordered (less : Ptr → Ptr → Bool) : Type 0 where
  pub asymmetric : (a b : Ptr) → less a b ≡ true → less b a ≡ false
  pub compose : (a b c : Ptr) → less a b ≡ false → less b c ≡ false → less a c ≡ false

irreflexive : (less : Ptr → Ptr → Bool) → Ordered less → (a : Ptr) → less a a ≡ false
irreflexive less o a = elim (Bool-cases (less a a)) [ inl h ↦ o.asymmetric a a h | inr h ↦ h ]

-- `r` is one of the elements, and not less than any of them.
abbrev pub Top : (Ptr → Ptr → Bool) → Ptr → List Ptr → Type 0
Top less r zs = (has r zs ≡ true) × ((z : Ptr) → has z zs ≡ true → less r z ≡ false)

module _ (less : Ptr → Ptr → Bool) (o : Ordered less) where
  larger-Top : (m y : Ptr) → Top less (if less m y then y else m) (m ∷ y ∷ [])
  larger-Top m y = elim (Bool-cases (less m y)) [
    | inl h ↦ rw h (
      ground (arith, ==-refl y),
      λ z e. elim (Bool-cases (z == m)) [
        | inl at ↦ rw (eq_of_== z m at) (o.asymmetric m y h)
        | inr other ↦ rw (eq_of_== z y (ground arith)) (irreflexive less o y)
      ],
    )
    | inr h ↦ rw h (
      ground (arith, ==-refl m),
      λ z e. elim (Bool-cases (z == m)) [
        | inl at ↦ rw (eq_of_== z m at) (irreflexive less o m)
        | inr other ↦ rw (eq_of_== z y (ground arith)) h
      ],
    )
  ]

  Top-step :
      (m y n r : Ptr) (zs : List Ptr)
      → Top less n (m ∷ y ∷ [])
      → Top less r (n ∷ zs)
      → Top less r (m ∷ y ∷ zs)
  Top-step m y n r zs t u = (
    ground (arith, t.0, u.0),
    λ z e. elim (Bool-cases (has z zs)) [
      | inl later ↦ u.1 z (ground arith)
      | inr first ↦ o.compose r n z (u.1 n (ground (arith, ==-refl n))) (t.1 z (ground arith))
    ],
  )

  running_max-Top : (m : Ptr) (zs : List Ptr) → Top less (running_max less m zs) (m ∷ zs)
  running_max-Top m [] =
      (ground (arith, ==-refl m), λ z e. rw (eq_of_== z m (ground arith)) (irreflexive less o m))
  running_max-Top m (y ∷ zs) =
      Top-step m y (if less m y then y else m) (running_max less (if less m y then y else m) zs) zs
        (larger-Top m y) (running_max-Top (if less m y then y else m) zs)

  -- list_max of a well-formed list with elements, for a strict weak order and with fuel above the
  -- length: it ends, changes nothing, and returns an element of the list that is not less than any
  -- other.
  pub list_max_lem :
      (fuel : ℕ) (h : Heap) (l x : Ptr) (xs : List Ptr)
      → IsList h l (x ∷ xs)
      → length (x ∷ xs) < fuel
      → (r : Ptr) × (list_max less fuel l h ≡ ok r h) × Top less r (x ∷ xs)
  list_max_lem fuel h l x xs c f =
      (running_max less x xs, list_max_run less fuel (x ∷ xs) c f, running_max-Top x xs)
