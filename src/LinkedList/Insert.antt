-- ===== src/LinkedList/Insert.antt =====
-- list_insert, list_push_front and list_push_back of kernel/list.c.
use project.Base.{◌≡◌, false, List, ◌∷◌, ◌++◌, arith, ◌==◌}
use project.Base.Lists.{
  has, has-append, Distinct, Distinct-left, Distinct-right, Distinct-not_has_left,
  Distinct-not_has_right, ne_of_has, has-insert, Distinct-insert,
}
use project.LinkedList.{is_interior, is_tail, list_insert}
use project.LinkedList.Memory.{
  Ptr, null, Heap, ok, Returns, returns, update, head_of, get_prev, set_prev, set_next,
}
use project.LinkedList.Seg.{
  Seg, last, Seg-append, Seg-left, Seg-right, has-last, not-has-sources, last-not-source,
  Seg-set_next, Seg-set_prev, IsList, IsChain, nodes, SameOutside, last-append, first_of, rest_of,
  inner-first, inner-append,
}

-- The heap after the four writes of `list_insert`, `e` going between `q` and `b`.
abbrev inserted : Heap → (q e b : Ptr) → Heap
inserted h q e b = record {
  prev = update (update h.prev e q) b e;
  next = update (update h.next e b) q e;
}

insert-run :
    (h : Heap) (e b : Ptr)
    → (b == null) ≡ false
    → (h.prev b == null) ≡ false
    → (e == null) ≡ false
    → (b == e) ≡ false
    → list_insert b e h ≡ ok tt (inserted h (h.prev b) e b)
unfolding list_insert is_interior is_tail get_prev set_prev set_next
insert-run h e b nb nq ne nbe = ground arith

module _ (h : Heap) (p b e : Ptr) (ys zs : List Ptr) (d : Distinct ((p ∷ ys) ++ (b ∷ zs)))
    (fresh : has e ((p ∷ ys) ++ (b ∷ zs)) ≡ false) where
  insert-left : Seg h p ys → Seg (inserted h (last p ys) e b) p ys
  insert-left s =
      Seg-set_next _ p (last p ys) e ys (last-not-source p ys (Distinct-left (p ∷ ys) _ d)) (
        Seg-set_next _ p e b ys (not-has-sources e p ys (ground (arith, out))) (
          Seg-set_prev _ p b e ys (ground (arith, b_out))
            (Seg-set_prev h p e (last p ys) ys (ground (arith, out)) s)))
    where
      out : has e (p ∷ ys) ≡ false
      out = ground (arith, has-append e (p ∷ ys) (b ∷ zs))

      b_out : has b (p ∷ ys) ≡ false
      b_out = Distinct-not_has_left (p ∷ ys) (b ∷ zs) b d (ground arith)

  insert-right : Seg h b zs → Seg (inserted h (last p ys) e b) b zs
  insert-right s = Seg-set_next _ b (last p ys) e zs (not-has-sources (last p ys) b zs q_out) (
      Seg-set_next _ b e b zs (not-has-sources e b zs (ground (arith, out))) (
        Seg-set_prev _ b b e zs (Distinct-right (p ∷ ys) _ d).0
          (Seg-set_prev h b e (last p ys) zs (ground (arith, out)) s)))
    where
      out : has e (b ∷ zs) ≡ false
      out = ground (arith, has-append e (p ∷ ys) (b ∷ zs))

      q_out : has (last p ys) (b ∷ zs) ≡ false
      q_out = Distinct-not_has_right (p ∷ ys) (b ∷ zs) (last p ys) d (has-last p ys)

  insert-Seg : Seg h p (ys ++ (b ∷ zs)) → Seg (inserted h (last p ys) e b) p (ys ++ (e ∷ b ∷ zs))
  insert-Seg s = Seg-append _ p ys (e ∷ b ∷ zs) (insert-left (Seg-left h p ys (b ∷ zs) s)) (
    ground arith,
    ground (arith, e_ne_b),
    (ground (arith, e_ne_q), ground arith, insert-right (Seg-right h p ys (b ∷ zs) s).2),
  )
    where
      e_ne_b : (e == b) ≡ false
      e_ne_b = ground (arith, has-append e (p ∷ ys) (b ∷ zs))

      e_ne_q : (last p ys == e) ≡ false
      e_ne_q =
          ne_of_has (last p ys) e (p ∷ ys) (has-last p ys)
            (ground (arith, has-append e (p ∷ ys) (b ∷ zs)))

  insert-IsChain :
      (e == null) ≡ false
      → IsChain h p (ys ++ (b ∷ zs))
      → IsChain (inserted h (last p ys) e b) p (ys ++ (e ∷ b ∷ zs))
  insert-IsChain ne c = record {
    linked = insert-Seg c.linked;
    front_end = ground (arith, p_ne_b, p_ne_e);
    back_end =
        rw (last-append p ys (e ∷ b ∷ zs))
          (ground (arith, end_ne_q, end_ne_e, rw (last-append p ys (b ∷ zs)) at c.back_end));
    distinct = Distinct-insert e (b ∷ zs) (p ∷ ys) d fresh;
    not_null = ground (arith, has-insert e (b ∷ zs) null (p ∷ ys), c.not_null);
  }
    where
      p_ne_b : (p == b) ≡ false
      p_ne_b = ground (arith, has-append p ys (b ∷ zs))

      p_ne_e : (p == e) ≡ false
      p_ne_e = ground arith

      end_ne_q : (last b zs == last p ys) ≡ false
      end_ne_q =
          ne_of_has (last b zs) (last p ys) (b ∷ zs) (has-last b zs)
            (Distinct-not_has_right (p ∷ ys) (b ∷ zs) (last p ys) d (has-last p ys))

      end_ne_e : (last b zs == e) ≡ false
      end_ne_e =
          ne_of_has (last b zs) e (b ∷ zs) (has-last b zs)
            (ground (arith, has-append e (p ∷ ys) (b ∷ zs)))

  inserted-SameOutside : SameOutside (e ∷ p ∷ (ys ++ (b ∷ zs))) h (inserted h (last p ys) e b)
  inserted-SameOutside a out =
      (ground (arith, has-append a (p ∷ ys) (b ∷ zs)), ground (arith, a_ne_q))
    where
      a_ne_q : (last p ys == a) ≡ false
      a_ne_q =
          ne_of_has (last p ys) a (p ∷ ys) (has-last p ys)
            (ground (arith, has-append a (p ∷ ys) (b ∷ zs)))

  -- The run of `list_insert` at a chain that splits before `b`.
  pub insert-Returns :
      (e == null) ≡ false
      → IsChain h p (ys ++ (b ∷ zs))
      → Returns
          (λ _ g. IsChain g p (ys ++ (e ∷ b ∷ zs)) × SameOutside (e ∷ p ∷ (ys ++ (b ∷ zs))) h g)
          (list_insert b e h)
  insert-Returns ne c =
      rw (insert-run h e b b_not_null q_not_null ne b_ne_e, prev_b)
        (returns (insert-IsChain ne c, inserted-SameOutside))
    where
      prev_b : h.prev b ≡ last p ys
      prev_b = (Seg-right h p ys (b ∷ zs) c.linked).1

      b_not_null : (b == null) ≡ false
      b_not_null = ground (arith, has-append null (p ∷ ys) (b ∷ zs), c.not_null)

      q_not_null : (h.prev b == null) ≡ false
      q_not_null = rw prev_b (
          ne_of_has (last p ys) null (p ∷ ys) (has-last p ys)
            (ground (arith, has-append null (p ∷ ys) (b ∷ zs), c.not_null)))

      b_ne_e : (b == e) ≡ false
      b_ne_e = ground (arith, has-append e (p ∷ ys) (b ∷ zs))

-- list_insert puts `e` just before the part `zs` of a list `ys ++ zs`: before the first element of
-- `zs`, or before the tail where `zs` is empty. It writes to `e` and to nodes of the list only.
pub list_insert_lem :
    (h : Heap) (l e : Ptr) (ys zs : List Ptr)
    → IsList h l (ys ++ zs)
    → has e (nodes l (ys ++ zs)) ≡ false
    → (e == null) ≡ false
    → Returns
        (λ _ g. IsList g l (ys ++ (e ∷ zs)) × SameOutside (e ∷ nodes l (ys ++ zs)) h g)
        (list_insert (first_of l zs) e h)
list_insert_lem h l e ys zs c fresh ne =
    rw (inner-append l ys zs, inner-append l ys (e ∷ zs), inner-first l zs)
      (insert-Returns h (head_of l) (first_of l zs) e ys (rest_of l zs) c'.distinct
        (rw (inner-append l ys zs) at fresh) ne c')
  where
    c' : IsChain h (head_of l) (ys ++ (first_of l zs ∷ rest_of l zs))
    c' = rw (inner-append l ys zs) at c
