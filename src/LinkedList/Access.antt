-- ===== src/LinkedList/Access.antt =====
-- list_begin, list_end, list_empty, list_front, list_back, list_push_front and list_push_back of
-- kernel/list.c at a well-formed list.
use project.Base.{◌≡◌, refl, Bool, true, false, List, [], ◌∷◌, ◌++◌, arith, ◌==◌}
use mathlib.Core.List.{append-nil}
use project.Base.Lists.{has, has-append}
use project.LinkedList.{
  list_begin, list_end, list_empty, list_front, list_back, list_push_front, list_push_back,
}
use project.LinkedList.Memory.{Ptr, null, Heap, ok, panic, Returns, tail_of, get_prev, get_next}
use project.LinkedList.Seg.{Seg-right, IsList, nodes, SameOutside, first_of, inner-append}
use project.LinkedList.Insert.{list_insert_lem}

abbrev pub is_nil : List Ptr → Bool
is_nil [] = true
is_nil (x ∷ xs) = false

module _ {h : Heap} {l : Ptr} where
  head-not_null : (xs : List Ptr) → IsList h l xs → (l == null) ≡ false
  head-not_null xs c = ground (arith, c.not_null)

  tail-not_null : (xs : List Ptr) → IsList h l xs → (tail_of l == null) ≡ false
  tail-not_null xs c = ground (arith, c.not_null, has-append null xs (tail_of l ∷ []))

  next-head : (xs : List Ptr) → IsList h l xs → h.next l ≡ first_of l xs
  next-head [] c = c.linked.0
  next-head (x ∷ xs) c = c.linked.0

  pub list_begin-run : (xs : List Ptr) → IsList h l xs → list_begin l h ≡ ok (first_of l xs) h
  unfolding list_begin get_next
  list_begin-run xs c = ground (arith, head-not_null xs c, next-head xs c)

  pub list_end-run : (xs : List Ptr) → IsList h l xs → list_end l h ≡ ok (tail_of l) h
  unfolding list_end
  list_end-run xs c = rw (head-not_null xs c)

  first_of-tail : (xs : List Ptr) → IsList h l xs → (first_of l xs == tail_of l) ≡ is_nil xs
  first_of-tail [] c = ground arith
  first_of-tail (x ∷ xs) c = ground (arith, c.distinct, has-append x xs (tail_of l ∷ []))

  -- list_empty says whether the list has no element, and changes nothing.
  pub list_empty_lem : (xs : List Ptr) → IsList h l xs → list_empty l h ≡ ok (is_nil xs) h
  unfolding list_empty
  list_empty_lem xs c = rw (list_begin-run xs c, list_end-run xs c, first_of-tail xs c)

  pub list_front_lem : (x : Ptr) (xs : List Ptr) → IsList h l (x ∷ xs) → list_front l h ≡ ok x h
  unfolding list_front get_next
  list_front_lem x xs c =
      rw (list_empty_lem (x ∷ xs) c, head-not_null (x ∷ xs) c, next-head (x ∷ xs) c)

  pub list_front-nil : IsList h l [] → list_front l h ≡ panic
  unfolding list_front
  list_front-nil c = rw (list_empty_lem [] c)

  prev-tail : (x : Ptr) (xs : List Ptr) → IsList h l (xs ++ (x ∷ [])) → h.prev (tail_of l) ≡ x
  prev-tail x xs c =
      (Seg-right h l xs (x ∷ tail_of l ∷ []) (rw (inner-append l xs (x ∷ [])) at c.linked)).2.1

  pub list_back_lem :
      (x : Ptr) (xs : List Ptr) → IsList h l (xs ++ (x ∷ [])) → list_back l h ≡ ok x h
  unfolding list_back get_prev
  list_back_lem x xs c = rw (
    list_empty_lem (xs ++ (x ∷ [])) c,
    not_nil xs,
    tail-not_null (xs ++ (x ∷ [])) c,
    prev-tail x xs c,
  )
    where
      not_nil : (ys : List Ptr) → is_nil (ys ++ (x ∷ [])) ≡ false
      not_nil [] = refl
      not_nil (y ∷ ys) = refl

  -- list_push_front puts a new element before all others.
  pub list_push_front_lem :
      (e : Ptr) (xs : List Ptr)
      → IsList h l xs
      → has e (nodes l xs) ≡ false
      → (e == null) ≡ false
      → Returns
          (λ _ g. IsList g l (e ∷ xs) × SameOutside (e ∷ nodes l xs) h g)
          (list_push_front l e h)
  unfolding list_push_front
  list_push_front_lem e xs c fresh ne =
      rw (list_begin-run xs c) (list_insert_lem h l e [] xs c fresh ne)

  -- list_push_back puts a new element behind all others.
  pub list_push_back_lem :
      (e : Ptr) (xs : List Ptr)
      → IsList h l xs
      → has e (nodes l xs) ≡ false
      → (e == null) ≡ false
      → Returns
          (λ _ g. IsList g l (xs ++ (e ∷ [])) × SameOutside (e ∷ nodes l xs) h g)
          (list_push_back l e h)
  unfolding list_push_back
  list_push_back_lem e xs c fresh ne = rw (list_end-run xs c) (
      rw (append-nil xs) at
        (list_insert_lem h l e xs [] (rw (append-nil xs) c) (rw (append-nil xs) fresh) ne))
