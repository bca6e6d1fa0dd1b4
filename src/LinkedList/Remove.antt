-- ===== src/LinkedList/Remove.antt =====
-- list_remove of kernel/list.c.
use mathlib.Core.List.{append-nil}
use project.Base.{◌≡◌, refl, true, false, List, [], ◌∷◌, ◌++◌, arith, ◌==◌}
use project.Base.Lists.{
  has, has-append, Distinct, Distinct-left, Distinct-right, Distinct-not_has_left,
  Distinct-not_has_right, ne_of_has, has-insert, Distinct-remove,
}
use project.LinkedList.{is_interior, list_remove, list_pop_front, list_pop_back}
use project.LinkedList.Memory.{
  Ptr, null, Heap, ok, Returns, returns, Returns-bind, Returns-mono, update, head_of, get_prev,
  get_next, set_prev, set_next,
}
use project.LinkedList.Seg.{
  Seg, last, Seg-append, Seg-left, Seg-right, has-last, not-has-sources, last-not-source,
  Seg-set_next, Seg-set_prev, IsList, IsChain, nodes, SameOutside, last-append, first_of, rest_of,
  inner-first, inner-append,
}
use project.LinkedList.Access.{list_front_lem, list_back_lem}

-- The heap after the two writes of `list_remove`, for an element between `q` and `n`.
abbrev removed : Heap → (q n : Ptr) → Heap
removed h q n = record { prev = update h.prev n q; next = update h.next q n }

remove-run :
    (h : Heap) (e : Ptr)
    → (e == null) ≡ false
    → (h.prev e == null) ≡ false
    → (h.next e == null) ≡ false
    → (h.prev e == e) ≡ false
    → (h.next e == e) ≡ false
    → list_remove e h ≡ ok (h.next e) (removed h (h.prev e) (h.next e))
unfolding list_remove is_interior get_prev get_next set_prev set_next
remove-run h e ne nq nn qe ene = ground arith

module _ (h : Heap) (p e n : Ptr) (ys zs : List Ptr) (c : IsChain h p (ys ++ (e ∷ n ∷ zs))) where
  q-not-rest : has (last p ys) (e ∷ n ∷ zs) ≡ false
  q-not-rest = Distinct-not_has_right (p ∷ ys) (e ∷ n ∷ zs) (last p ys) c.distinct (has-last p ys)

  n-not-left : has n (p ∷ ys) ≡ false
  n-not-left = Distinct-not_has_left (p ∷ ys) (e ∷ n ∷ zs) n c.distinct (ground arith)

  right-Distinct : Distinct (e ∷ n ∷ zs)
  right-Distinct = Distinct-right (p ∷ ys) (e ∷ n ∷ zs) c.distinct

  split : Seg h (last p ys) (e ∷ n ∷ zs)
  split = Seg-right h p ys (e ∷ n ∷ zs) c.linked

  remove-Seg : Seg (removed h (last p ys) n) p (ys ++ (n ∷ zs))
  remove-Seg =
      Seg-append _ p ys (n ∷ zs)
        (Seg-set_next _ p (last p ys) n ys
          (last-not-source p ys (Distinct-left (p ∷ ys) _ c.distinct))
          (Seg-set_prev h p n (last p ys) ys (ground (arith, n-not-left))
            (Seg-left h p ys (e ∷ n ∷ zs) c.linked)))
        (
          ground arith,
          ground arith,
          Seg-set_next _ n (last p ys) n zs
              (not-has-sources (last p ys) n zs (ground (arith, q-not-rest)))
              (Seg-set_prev h n n (last p ys) zs right-Distinct.1.0 split.2.2),
        )

  remove-IsChain : IsChain (removed h (last p ys) n) p (ys ++ (n ∷ zs))
  remove-IsChain = record {
    linked = remove-Seg;
    front_end = ground (arith, n-not-left, c.front_end);
    back_end =
        rw (last-append p ys (n ∷ zs))
          (ground (arith, end_ne_q, rw (last-append p ys (e ∷ n ∷ zs)) at c.back_end));
    distinct = (Distinct-remove e (n ∷ zs) (p ∷ ys) c.distinct).0;
    not_null = ground (arith, has-insert e (n ∷ zs) null (p ∷ ys), c.not_null);
  }
    where
      end_ne_q : (last n zs == last p ys) ≡ false
      end_ne_q =
          ne_of_has (last n zs) (last p ys) (n ∷ zs) (has-last n zs) (ground (arith, q-not-rest))

  removed-SameOutside : SameOutside (p ∷ (ys ++ (e ∷ n ∷ zs))) h (removed h (last p ys) n)
  removed-SameOutside a out =
      (ground (arith, has-append a (p ∷ ys) (e ∷ n ∷ zs)), ground (arith, a_ne_q))
    where
      a_ne_q : (last p ys == a) ≡ false
      a_ne_q =
          ne_of_has (last p ys) a (p ∷ ys) (has-last p ys)
            (ground (arith, has-append a (p ∷ ys) (e ∷ n ∷ zs)))

  remove-Returns :
      Returns
        (λ r g. (r ≡ n) × IsChain g p (ys ++ (n ∷ zs)) × SameOutside (p ∷ (ys ++ (e ∷ n ∷ zs))) h g)
        (list_remove e h)
  remove-Returns =
      rw (remove-run h e e_not_null q_not_null n_not_null q_ne_e n_ne_e, split.1, split.2.0)
        (returns (ground arith, remove-IsChain, removed-SameOutside))
    where
      not_null' : (a : Ptr) → has a (e ∷ n ∷ zs) ≡ true → (a == null) ≡ false
      not_null' a m =
          ne_of_has a null (e ∷ n ∷ zs) m
            (ground (arith, has-append null (p ∷ ys) (e ∷ n ∷ zs), c.not_null))

      e_not_null : (e == null) ≡ false
      e_not_null = not_null' e (ground arith)

      n_not_null : (h.next e == null) ≡ false
      n_not_null = rw (split.2.0) (not_null' n (ground arith))

      q_not_null : (h.prev e == null) ≡ false
      q_not_null = rw (split.1) (
          ne_of_has (last p ys) null (p ∷ ys) (has-last p ys)
            (ground (arith, has-append null (p ∷ ys) (e ∷ n ∷ zs), c.not_null)))

      q_ne_e : (h.prev e == e) ≡ false
      q_ne_e = rw (split.1) (ground (arith, q-not-rest))

      n_ne_e : (h.next e == e) ≡ false
      n_ne_e = rw (split.2.0) (ground (arith, right-Distinct.0))

-- list_remove takes `e` out of a list, returns the element that followed it (the tail, if there was
-- none), and writes to nodes of the list only. Afterwards `e` is no node of the list.
pub list_remove_lem :
    (h : Heap) (l e : Ptr) (ys zs : List Ptr)
    → IsList h l (ys ++ (e ∷ zs))
    → Returns
        (λ r g.
          (r ≡ first_of l zs)
          × IsList g l (ys ++ zs)
          × (has e (nodes l (ys ++ zs)) ≡ false)
          × SameOutside (nodes l (ys ++ (e ∷ zs))) h g)
        (list_remove e h)
list_remove_lem h l e ys zs c =
    rw (inner-append l ys zs, inner-append l ys (e ∷ zs), inner-first l zs)
      (Returns-mono (remove-Returns h (head_of l) e (first_of l zs) ys (rest_of l zs) c')
        λ r g (eq, chain, same). (
          eq,
          chain,
          (Distinct-remove e (first_of l zs ∷ rest_of l zs) (head_of l ∷ ys) c'.distinct).1,
          same,
        ))
  where
    c' : IsChain h (head_of l) (ys ++ (e ∷ first_of l zs ∷ rest_of l zs))
    c' = rw (inner-append l ys (e ∷ zs), inner-first l zs) at c

-- list_pop_front takes the first element out of a list that has one.
pub list_pop_front_lem :
    (h : Heap) (l x : Ptr) (xs : List Ptr)
    → IsList h l (x ∷ xs)
    → Returns
        (λ r g. (r ≡ x) × IsList g l xs × SameOutside (nodes l (x ∷ xs)) h g)
        (list_pop_front l h)
unfolding list_pop_front
list_pop_front_lem h l x xs c = rw (list_front_lem x xs c) (
    Returns-bind (list_remove_lem h l x [] xs c)
      λ r g (eq, chain, out, same). returns (refl, chain, same))

-- list_pop_back takes the last element out of a list that has one.
pub list_pop_back_lem :
    (h : Heap) (l x : Ptr) (xs : List Ptr)
    → IsList h l (xs ++ (x ∷ []))
    → Returns
        (λ r g. (r ≡ x) × IsList g l xs × SameOutside (nodes l (xs ++ (x ∷ []))) h g)
        (list_pop_back l h)
unfolding list_pop_back
list_pop_back_lem h l x xs c = rw (list_back_lem x xs c) (
    Returns-bind (list_remove_lem h l x xs [] c)
      λ r g (eq, chain, out, same). returns (refl, rw (append-nil xs) at chain, same))
