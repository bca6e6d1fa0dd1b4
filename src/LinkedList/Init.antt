-- ===== src/LinkedList/Init.antt =====
-- list_init of kernel/list.c.
use project.Base.{◌≡◌, refl, false, [], arith, ◌==◌}
use project.LinkedList.{list_init}
use project.LinkedList.Memory.{
  Ptr, null, Heap, ok, Returns, returns, update, head_of, tail_of, set_prev, set_next,
}
use project.LinkedList.Seg.{IsList, SameOutside, nodes}

-- The heap after list_init.
abbrev initial : Heap → Ptr → Heap
initial h l = record {
  prev = update (update h.prev (head_of l) null) (tail_of l) (head_of l);
  next = update (update h.next (head_of l) (tail_of l)) (tail_of l) null;
}

init-run : (h : Heap) (l : Ptr) → (l == null) ≡ false → list_init l h ≡ ok tt (initial h l)
unfolding list_init set_prev set_next
init-run h l ne = ground arith

-- list_init makes the empty list at any address but NULL, whatever the memory held, and writes to
-- the two header elements only.
pub list_init-Returns :
    (h : Heap) (l : Ptr)
    → (l == null) ≡ false
    → Returns (λ _ g. IsList g l [] × SameOutside (nodes l []) h g) (list_init l h)
list_init-Returns h l ne = rw (init-run h l ne) (
    returns (
      record {
        linked = (ground arith, ground arith, tt);
        front_end = ground arith;
        back_end = ground arith;
        distinct = (ground arith, (refl, tt));
        not_null = ground arith;
      },
      λ a out. (ground arith, ground arith),
    ))
