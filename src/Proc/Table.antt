-- ===== src/Proc/Table.antt =====
-- Allocation and release of processes and containers: allocpid, allocproc, freeproc, alloccont and
-- freecont of kernel/proc.c. What other components answer (kalloc, proc_pagetable, namei) is an
-- argument.
use project.Base.{
  ℕ, ◌+◌, ◌%◌, ◌^◌, Bool, true, false, not, Option, none, some, List, [], ◌∷◌, if◌then◌else◌,
}
use project.Proc.State.{
  unused, used, Proc, Cont, unused_lock, cont_unused_lock, cont_run_lock, proc_lock, cont_lock, Cmd,
  ok, pure, ◌>>=◌, ◌>>◌, acquire, release, get_proc, set_proc, get_cont, set_cont, deref, push_back,
  removed,
}

abbrev pub is_nil : List ℕ → Bool
is_nil [] = true
is_nil (x ∷ xs) = false

-- The element at the front of a queue, taken out of it.
abbrev pub front : List ℕ → Option ℕ
front [] = none
front (x ∷ xs) = some x

abbrev pub behind : List ℕ → List ℕ
behind [] = []
behind (x ∷ xs) = xs

unfoldable pub allocpid : ℕ → Cmd ℕ
unfolding acquire release
allocpid contp = do
  acquire (cont_lock contp)
  c ← get_cont contp
  let pid = c.nextpid
  set_cont contp λ c. record c { nextpid = (c.nextpid + 1) % 2 ^ 32 }
  release (cont_lock contp)
  pure pid

abbrev pub reset_cont : Cont → Cont
reset_cont c = record c {
  state = unused;
  nextpid = 1;
  name = [];
  rootdir = none;
  max_mem_bytes = 0;
  max_disk_bytes = 0;
  used_mem_bytes = 0;
  used_disk_bytes = 0;
  nticks = 0;
}

unfoldable pub freecont : ℕ → Cmd (Unit {0})
freecont contp = set_cont contp reset_cont

-- The part of freeproc that runs when a container has lost its last process.
unfoldable pub retire_cont : ℕ → Cmd (Unit {0})
unfolding acquire release freecont
retire_cont contp = do
  acquire cont_run_lock
  rest ← λ k held. removed contp k.cont_run_list k held
  λ k held. ok tt (record k { cont_run_list = rest }) held
  release cont_run_lock
  freecont contp
  acquire cont_unused_lock
  λ k held. ok tt (record k { cont_unused_list = push_back contp k.cont_unused_list }) held
  release cont_unused_lock

abbrev pub cleared : Proc → Proc
cleared p = record p {
  trapframe = false;
  pagetable = false;
  sz = 0;
  pid = 0;
  parent = none;
  name = [];
  chan = 0;
  killed = 0;
  xstate = 0;
  state = unused;
}

unfoldable pub freeproc : ℕ → Cmd (Unit {0})
unfolding acquire release retire_cont
freeproc p = do
  set_proc p cleared
  acquire unused_lock
  λ k held. ok tt (record k { unused_list = push_back p k.unused_list }) held
  release unused_lock
  x ← get_proc p
  contp ← deref x.contp
  acquire (cont_lock contp)
  c ← get_cont contp
  rest ← removed p c.proc_list
  set_cont contp λ c. record c { proc_list = rest }
  release (cont_lock contp)
  if is_nil rest then retire_cont contp else pure tt
  set_proc p λ x. record x { contp = none }

-- The failure paths of allocproc.
unfoldable pub abandon : ℕ → Cmd (Option ℕ)
unfolding acquire release freeproc
abandon p = do freeproc p; release (proc_lock p); pure none

-- The success path: the process joins the container's `proc_list`.
unfoldable pub join_cont : ℕ → ℕ → Cmd (Option ℕ)
unfolding acquire release
join_cont contp p = do
  set_proc p λ x. record x { nsched = 0; nticks = 0; contp = some contp }
  acquire (cont_lock contp)
  set_cont contp λ c. record c { proc_list = push_back p c.proc_list }
  release (cont_lock contp)
  pure (some p)

unfoldable pub fill_slot : (trapframe_ok pagetable_ok : Bool) → ℕ → ℕ → Cmd (Option ℕ)
unfolding acquire release allocpid abandon join_cont
fill_slot trapframe_ok pagetable_ok contp p = do
  acquire (proc_lock p)
  pid ← allocpid contp
  set_proc p λ x. record x { pid = pid; state = used }
  set_proc p λ x. record x { trapframe = trapframe_ok }
  if not trapframe_ok then abandon p else do
    set_proc p λ x. record x { pagetable = pagetable_ok }
    if not pagetable_ok then abandon p else join_cont contp p

-- `trapframe_ok` and `pagetable_ok`: whether kalloc and proc_pagetable find memory.
-- The result is the slot, its lock held, or none.
unfoldable pub allocproc : (trapframe_ok pagetable_ok : Bool) → ℕ → Cmd (Option ℕ)
unfolding acquire release fill_slot
allocproc trapframe_ok pagetable_ok contp = do
  acquire unused_lock
  e ← λ k held. ok (front k.unused_list) (record k { unused_list = behind k.unused_list }) held
  release unused_lock
  elim e [ none ↦ pure none | some p ↦ fill_slot trapframe_ok pagetable_ok contp p ]
