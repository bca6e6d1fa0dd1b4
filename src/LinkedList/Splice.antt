-- ===== src/LinkedList/Splice.antt =====
-- list_splice and list_insert_ordered of kernel/list.c. A loop takes fuel.
use project.Base.{ℕ, zero, suc, Bool, ◌||◌, ◌==◌, ◌!=◌, if◌then◌else◌}
use project.LinkedList.{
  is_interior, is_tail, list_begin, list_end, list_next, list_prev, list_insert,
}
use project.LinkedList.Memory.{
  Ptr, null, Cmd, out_of_fuel, pure, ◌>>=◌, ◌>>◌, check, get_prev, get_next, set_prev, set_next,
}

splice_links : (before first last : Ptr) → Cmd (Unit {0})
splice_links before first last = do
  check (is_interior first)
  check (is_interior last)
  p ← get_prev first
  n ← get_next last
  set_next p n
  n' ← get_next last
  p' ← get_prev first
  set_prev n' p'
  b ← get_prev before
  set_prev first b
  set_next last before
  b' ← get_prev before
  set_next b' first
  set_prev before last

pub list_splice : (before first last : Ptr) → Cmd (Unit {0})
list_splice before first last = do
  check (λ h. is_interior before h || is_tail before h)
  if first == last then pure tt else do last' ← list_prev last; splice_links before first last'

unfoldable pub insert_loop : (less : Ptr → Ptr → Bool) → ℕ → Ptr → (elem e : Ptr) → Cmd (Unit {0})
insert_loop less zero l elem e = λ _. out_of_fuel
insert_loop less (suc fuel) l elem e = do
  last ← list_end l
  if e == last || less elem e
      then list_insert e elem
      else do n ← list_next e; insert_loop less fuel l elem n

unfoldable pub list_insert_ordered : (less : Ptr → Ptr → Bool) → ℕ → (l elem : Ptr) → Cmd (Unit {0})
list_insert_ordered less fuel l elem = do
  check (λ _. l != null)
  check (λ _. elem != null)
  e ← list_begin l
  insert_loop less fuel l elem e
