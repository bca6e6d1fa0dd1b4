-- ===== src/LinkedList.antt =====
-- The doubly linked lists of kernel/list.c (user/list.c is the same text): every function follows
-- the C line by line over the heap of `LinkedList.Memory`. A loop takes fuel, its first argument.
pub mod Memory
pub mod Seg
pub mod Insert
pub mod Remove
pub mod Access
pub mod Init
pub mod Size
pub mod Extreme
pub mod Splice
pub mod Ordered
mod Tests
use project.Base.{
  ℕ, zero, suc, ◌+◌, ◌%◌, ◌^◌, ◌≡◌, Bool, true, false, not, ◌&&◌, ◌||◌, ◌==◌, ◌!=◌, if◌then◌else◌,
}
use project.LinkedList.Memory.{
  Ptr, null, Heap, Cmd, out_of_fuel, pure, ◌>>=◌, ◌>>◌, check, get_prev, get_next, set_prev,
  set_next, head_of, tail_of,
}

unfoldable pub is_head : Ptr → Heap → Bool
is_head e h = e != null && h.prev e == null && h.next e != null

unfoldable pub is_interior : Ptr → Heap → Bool
is_interior e h = e != null && h.prev e != null && h.next e != null

unfoldable pub is_tail : Ptr → Heap → Bool
is_tail e h = e != null && h.prev e != null && h.next e == null

pub list_init : Ptr → Cmd (Unit {0})
list_init l = do
  check (λ _. l != null)
  set_prev (head_of l) null
  set_next (head_of l) (tail_of l)
  set_prev (tail_of l) (head_of l)
  set_next (tail_of l) null

unfoldable pub list_begin : Ptr → Cmd Ptr
list_begin l = do check (λ _. l != null); get_next (head_of l)

unfoldable pub list_next : Ptr → Cmd Ptr
list_next e = do check (λ h. is_head e h || is_interior e h); get_next e

unfoldable pub list_end : Ptr → Cmd Ptr
list_end l = do check (λ _. l != null); pure (tail_of l)

pub list_rbegin : Ptr → Cmd Ptr
list_rbegin l = do check (λ _. l != null); get_prev (tail_of l)

unfoldable pub list_prev : Ptr → Cmd Ptr
list_prev e = do check (λ h. is_interior e h || is_tail e h); get_prev e

pub list_rend : Ptr → Cmd Ptr
list_rend l = do check (λ _. l != null); pure (head_of l)

pub list_insert : (before elem : Ptr) → Cmd (Unit {0})
list_insert before elem = do
  check (λ h. is_interior before h || is_tail before h)
  check (λ _. elem != null)
  p ← get_prev before
  set_prev elem p
  set_next elem before
  q ← get_prev before
  set_next q elem
  set_prev before elem

pub list_push_front : Ptr → Ptr → Cmd (Unit {0})
list_push_front l e = do b ← list_begin l; list_insert b e

pub list_push_back : Ptr → Ptr → Cmd (Unit {0})
list_push_back l e = do b ← list_end l; list_insert b e

pub list_remove : Ptr → Cmd Ptr
list_remove e = do
  check (is_interior e)
  p ← get_prev e
  n ← get_next e
  set_next p n
  n' ← get_next e
  p' ← get_prev e
  set_prev n' p'
  get_next e

unfoldable pub list_empty : Ptr → Cmd Bool
list_empty l = do b ← list_begin l; e ← list_end l; pure (b == e)

unfoldable pub list_front : Ptr → Cmd Ptr
list_front l = do empty ← list_empty l; check (λ _. not empty); get_next (head_of l)

unfoldable pub list_back : Ptr → Cmd Ptr
list_back l = do empty ← list_empty l; check (λ _. not empty); get_prev (tail_of l)

pub list_pop_front : Ptr → Cmd Ptr
list_pop_front l = do front ← list_front l; list_remove front; pure front

pub list_pop_back : Ptr → Cmd Ptr
list_pop_back l = do back ← list_back l; list_remove back; pure back

-- `size_t` counts modulo 2^64.
size_loop : ℕ → Ptr → Ptr → ℕ → Cmd ℕ
size_loop zero l e count = λ _. out_of_fuel
size_loop (suc fuel) l e count = do
  last ← list_end l
  if e == last then pure count else do n ← list_next e; size_loop fuel l n ((count + 1) % 2 ^ 64)

pub list_size : ℕ → Ptr → Cmd ℕ
unfolding size_loop
list_size fuel l = do b ← list_begin l; size_loop fuel l b 0
