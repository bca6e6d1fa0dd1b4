-- ===== src/LinkedList/Ordered.antt =====
-- list_insert_ordered of kernel/list.c: where it puts an element.
use project.Base.{
  ℕ, zero, suc, ◌<◌, ◌≡◌, inl, inr, Bool, false, List, [], ◌∷◌, ◌++◌, arith, ◌==◌, ==-refl,
  if◌then◌else◌, Bool-cases,
}
use project.Base.Lists.{has, length, Distinct-not_has_right, has-insert}
use mathlib.Core.List.{append_assoc}
use project.LinkedList.Memory.{Ptr, null, Heap, Returns, tail_of}
use project.LinkedList.Seg.{IsList, SameOutside, first_of, nodes}
use project.LinkedList.Insert.{list_insert_lem}
use project.LinkedList.Access.{list_begin-run, list_end-run}
use project.LinkedList.Size.{list_next-run}
use project.LinkedList.Splice.{insert_loop, list_insert_ordered}

-- The element before the first one that it is less than, or at the end.
abbrev pub insert_sorted : (Ptr → Ptr → Bool) → Ptr → List Ptr → List Ptr
insert_sorted less elem [] = elem ∷ []
insert_sorted less elem (z ∷ zs) =
    let rest = insert_sorted less elem zs in if less elem z then elem ∷ z ∷ zs else z ∷ rest

module _ (h : Heap) (l elem : Ptr) (less : Ptr → Ptr → Bool)
    (not_null : (elem == null) ≡ false) where
  insert_loop-Returns :
      (fuel : ℕ) (ys zs : List Ptr)
      → IsList h l (ys ++ zs)
      → has elem (nodes l (ys ++ zs)) ≡ false
      → length zs < fuel
      → Returns
          (λ _ g.
            IsList g l (ys ++ insert_sorted less elem zs)
            × SameOutside (elem ∷ nodes l (ys ++ zs)) h g)
          (insert_loop less fuel l elem (first_of l zs) h)
  unfolding insert_loop
  insert_loop-Returns zero ys zs c fresh f = absurd (omega arith)
  insert_loop-Returns (suc fuel) ys [] c fresh f =
      rw (list_end-run (ys ++ []) c, ==-refl (tail_of l))
        (list_insert_lem h l elem ys [] c fresh not_null)
  insert_loop-Returns (suc fuel) ys (z ∷ zs) c fresh f = elim (Bool-cases (less elem z)) [
    | inl lt ↦
        rw (list_end-run (ys ++ (z ∷ zs)) c, z_ne_tail, lt)
          (list_insert_lem h l elem ys (z ∷ zs) c fresh not_null)
    | inr ge ↦
        rw
          (
            list_end-run (ys ++ (z ∷ zs)) c,
            z_ne_tail,
            ge,
            list_next-run ys z zs c,
            ← append_assoc ys (z ∷ []) zs,
            ← append_assoc ys (z ∷ []) (insert_sorted less elem zs),
          )
          (insert_loop-Returns fuel (ys ++ (z ∷ [])) zs (rw (append_assoc ys (z ∷ []) zs) c)
            (rw (append_assoc ys (z ∷ []) zs) fresh) (omega arith))
  ]
    where
      z_ne_tail : (z == tail_of l) ≡ false
      z_ne_tail = ground (
        arith,
        Distinct-not_has_right (ys ++ (z ∷ zs)) (tail_of l ∷ []) z c.distinct.1,
        has-insert z zs z ys,
      )

  -- list_insert_ordered of an element that is not in the well-formed list, with fuel above the
  -- length: it ends, and the element is then before the first one that it is less than, or at the
  -- end. It writes to the element and to nodes of the list only.
  pub list_insert_ordered_lem :
      (fuel : ℕ) (xs : List Ptr)
      → (l == null) ≡ false
      → IsList h l xs
      → has elem (nodes l xs) ≡ false
      → length xs < fuel
      → Returns
          (λ _ g. IsList g l (insert_sorted less elem xs) × SameOutside (elem ∷ nodes l xs) h g)
          (list_insert_ordered less fuel l elem h)
  unfolding list_insert_ordered
  list_insert_ordered_lem fuel xs l_ok c fresh f =
      rw (l_ok, not_null, list_begin-run xs c) (insert_loop-Returns fuel [] xs c fresh f)
