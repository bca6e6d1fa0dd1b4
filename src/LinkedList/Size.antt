-- ===== src/LinkedList/Size.antt =====
-- list_size of kernel/list.c: with fuel above the length it counts the elements.
use project.Base.{
  ℕ, zero, suc, ◌+◌, ◌%◌, ◌^◌, ◌<◌, ◌≡◌, ◌∙◌, ap, false, List, [], ◌∷◌, ◌++◌, arith, ◌==◌, ==-refl,
}
use project.Base.Lists.{has-append, Distinct-not_has_right, has-insert, length, ne_of_has}
use mathlib.Core.List.{append_assoc}
use project.LinkedList.{is_head, is_interior, list_next, size_loop, list_size}
use project.LinkedList.Memory.{Ptr, null, Heap, ok, head_of, tail_of, get_next}
use project.LinkedList.Seg.{
  Seg, last, Seg-right, has-last, IsChain, IsList, first_of, rest_of, inner-first, inner-append,
}
use project.LinkedList.Access.{list_begin-run, list_end-run}

module _ {h : Heap} {l : Ptr} where
  -- From an element list_next leads to the one behind it.
  pub list_next-run :
      (ys : List Ptr) (x : Ptr) (zs : List Ptr)
      → IsList h l (ys ++ (x ∷ zs))
      → list_next x h ≡ ok (first_of l zs) h
  unfolding list_next is_head is_interior get_next
  list_next-run ys x zs c = ground (arith, x_not_null, n_not_null, p_not_null, right.2.0)
    where
      ns : List Ptr
      ns = first_of l zs ∷ rest_of l zs

      c' : IsChain h (head_of l) (ys ++ (x ∷ ns))
      c' = rw (inner-append l ys (x ∷ zs), inner-first l zs) at c

      right : Seg h (last l ys) (x ∷ ns)
      right = Seg-right h l ys (x ∷ ns) c'.linked

      x_not_null : (x == null) ≡ false
      x_not_null = ground (arith, has-append null (l ∷ ys) (x ∷ ns), c'.not_null)

      n_not_null : (h.next x == null) ≡ false
      n_not_null = rw (right.2.0) (ground (arith, has-append null (l ∷ ys) (x ∷ ns), c'.not_null))

      p_not_null : (h.prev x == null) ≡ false
      p_not_null = rw (right.1) (
          ne_of_has (last l ys) null (l ∷ ys) (has-last l ys)
            (ground (arith, has-append null (l ∷ ys) (x ∷ ns), c'.not_null)))

  size_loop_lem :
      (fuel count : ℕ) (ys zs : List Ptr)
      → IsList h l (ys ++ zs)
      → length zs < fuel
      → count < 2 ^ 64
      → size_loop fuel l (first_of l zs) count h ≡ ok ((count + length zs) % 2 ^ 64) h
  unfolding size_loop
  size_loop_lem zero count ys zs c f small = absurd (omega arith)
  size_loop_lem (suc fuel) count ys [] c f small =
      rw (list_end-run (ys ++ []) c, ==-refl (tail_of l)) (ap (λ n. ok n h) (omega arith))
  size_loop_lem (suc fuel) count ys (z ∷ zs) c f small =
      rw (list_end-run (ys ++ (z ∷ zs)) c, z_ne_tail, list_next-run ys z zs c)
        (size_loop_lem fuel ((count + 1) % 2 ^ 64) (ys ++ (z ∷ [])) zs c' (omega arith)
            (omega arith)
          ∙ ap (λ n. ok n h) (omega arith))
    where
      c' : IsList h l ((ys ++ (z ∷ [])) ++ zs)
      c' = rw (append_assoc ys (z ∷ []) zs) c

      z_ne_tail : (z == tail_of l) ≡ false
      z_ne_tail = ground (
        arith,
        Distinct-not_has_right (ys ++ (z ∷ zs)) (tail_of l ∷ []) z c.distinct.1,
        has-insert z zs z ys,
      )

  -- list_size is the number of elements modulo 2^64, and changes nothing.
  pub list_size_lem :
      (fuel : ℕ) (xs : List Ptr)
      → IsList h l xs
      → length xs < fuel
      → list_size fuel l h ≡ ok (length xs % 2 ^ 64) h
  unfolding list_size
  list_size_lem fuel xs c f =
      rw (list_begin-run xs c)
        (size_loop_lem fuel 0 [] xs c f (omega arith) ∙ ap (λ n. ok n h) (omega arith))
