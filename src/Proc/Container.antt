-- ===== src/Proc/Container.antt =====
-- alloccont of kernel/proc.c. What namei answers for the root directory is an argument.
use project.Base.{ℕ, ◌-◌, Bool, Option, none, some, List, [], ◌∷◌, if◌then◌else◌}
use project.Base.Lists.{take, same_prefix}
use project.Proc.State.{
  used, cont_unused_lock, cont_lock, Cmd, ok, pure, ◌>>=◌, ◌>>◌, acquire, release, set_cont,
}
use project.Proc.Table.{front, behind}

-- "root".
abbrev pub root_name : List ℕ
root_name = b'r' ∷ b'o' ∷ b'o' ∷ b't' ∷ []

abbrev pub is_root : List ℕ → Bool
is_root cname = same_prefix 4 root_name cname

-- The counters, and the end of alloccont.
unfoldable pub finish_cont : ℕ → ℕ → Cmd (Option ℕ)
unfolding release
finish_cont max_disk_bytes c = do
  set_cont c λ x. record x { max_disk_bytes = max_disk_bytes }
  set_cont c λ x. record x { used_mem_bytes = 0; used_disk_bytes = 0; nticks = 0 }
  release (cont_lock c)
  pure (some c)

-- The slot `c` is filled with its lock held. Where namei fails the code returns at once.
unfoldable pub fill_cont : (found : Option ℕ) → List ℕ → ℕ → List ℕ → ℕ → ℕ → Cmd (Option ℕ)
unfolding acquire finish_cont
fill_cont found cname max_mem_bytes crootdir max_disk_bytes c = do
  acquire (cont_lock c)
  set_cont c λ x. record x { state = used; nextpid = 1; proc_list = []; run_list = [] }
  set_cont c λ x. record x {
    name = take (16 - 1) cname;
    max_mem_bytes = max_mem_bytes;
    rootpath = take (128 - 1) crootdir;
  }
  if is_root cname then finish_cont max_disk_bytes c else do
    set_cont c λ x. record x { rootdir = found }
    elim found [ none ↦ pure none | some ip ↦ finish_cont max_disk_bytes c ]

unfoldable pub alloccont : (found : Option ℕ) → List ℕ → ℕ → List ℕ → ℕ → Cmd (Option ℕ)
unfolding acquire release fill_cont
alloccont found cname max_mem_bytes crootdir max_disk_bytes = do
  acquire cont_unused_lock
  e ← λ k held.
      ok (front k.cont_unused_list) (record k { cont_unused_list = behind k.cont_unused_list }) held
  release cont_unused_lock
  elim e [
    | none ↦ pure none
    | some c ↦ fill_cont found cname max_mem_bytes crootdir max_disk_bytes c
  ]
