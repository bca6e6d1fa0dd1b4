-- ===== src/File/Tests.antt =====
-- The file table of kernel/file.c from its start: all files are free.
use project.Base.{arith, refl, true, List, [], ◌∷◌}
use project.File.{File, fd_none, fd_inode}
use project.File.Handles.{
  alloc, open_as, dup, close, Op, Held, perform_all, Counted, Fine, perform_all-Fine,
}

abbrev free_file : File
free_file = record { type = fd_none; ref = 0; writable = true; pipe = 0; ip = 0 }

abbrev start : Held
start = record { table = record { file = λ i. free_file; calls = [] }; owned = λ i. 0 }

start-Counted : Counted start
start-Counted = record { count = λ i. refl; untyped = λ i z. refl }

abbrev inode_file : File
inode_file = record free_file { type = fd_inode; ip = 7 }

-- A file on inode 7 that is held twice, and closed twice.
abbrev session : List Op
session = alloc ∷ open_as 0 inode_file ∷ dup 0 ∷ alloc ∷ close 0 ∷ close 0 ∷ []

perform_all-Fine_example : Fine 6 start (perform_all session start)
perform_all-Fine_example = perform_all-Fine session start start-Counted (λ i. omega arith)
