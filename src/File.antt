-- ===== src/File.antt =====
-- The file table of kernel/file.c. The table's spinlock is held for the whole of each step on it;
-- a panic is `none`. A count of references is an int, as its 32-bit pattern.
pub mod Handles
mod Tests
use project.Base.{
  ℕ, zero, suc, ◌+◌, ◌-◌, ◌%◌, ◌^◌, Bool, true, false, not, Option, none, some, List, [], ◌∷◌, ◌++◌,
  ltb, ◌==◌, if◌then◌else◌,
}
use project.Fs.{put}
use project.Fs.Itable.{positive}

abbrev pub nfile : ℕ
nfile = 100

pub data FileType : Type 0 where
  fd_none : FileType
  fd_pipe : FileType
  fd_inode : FileType
  fd_device : FileType

-- struct file, less what reads and writes of it use.
pub record File : Type 0 where
  pub type : FileType
  pub ref : ℕ
  pub writable : Bool
  pub pipe : ℕ
  pub ip : ℕ

-- What fileclose calls behind the table: pipeclose, or iput inside a transaction.
pub data Call : Type 0 where
  pipeclose : (pipe : ℕ) → (writable : Bool) → Call
  iput : (ip : ℕ) → Call

-- The table, and the calls made, in order.
pub record Ftable : Type 0 where
  pub file : ℕ → File
  pub calls : List Call

abbrev pub set_file : ℕ → File → Ftable → Ftable
set_file i f t = record t { file = put t.file i f }

-- The loop of filealloc, with the files that are left.
abbrev pub first_free : (i left : ℕ) → (ℕ → File) → Option ℕ
first_free i zero file = none
first_free i (suc left) file =
    let rest = first_free (i + 1) left file in if (file i).ref == 0 then some i else rest

unfoldable pub filealloc : Ftable → Option ℕ × Ftable
filealloc t = elim (first_free 0 nfile t.file) [
  | none ↦ (none, t)
  | some i ↦ (some i, set_file i (record (t.file i) { ref = 1 }) t)
]

unfoldable pub filedup : ℕ → Ftable → Option Ftable
filedup i t =
    if not (positive (t.file i).ref)
    then none
    else some (set_file i (record (t.file i) { ref = ((t.file i).ref + 1) % 2 ^ 32 }) t)

abbrev pub closing : File → List Call
closing f = elim f.type [
  | fd_none ↦ []
  | fd_pipe ↦ pipeclose f.pipe f.writable ∷ []
  | fd_inode ↦ iput f.ip ∷ []
  | fd_device ↦ iput f.ip ∷ []
]

unfoldable pub fileclose : ℕ → Ftable → Option Ftable
fileclose i t =
    let left = ((t.file i).ref + (2 ^ 32 - 1)) % 2 ^ 32 in
    if not (positive (t.file i).ref)
    then none
    else (if positive left
        then some (set_file i (record (t.file i) { ref = left }) t)
        else some (record t {
          file = put t.file i (record (t.file i) { ref = 0; type = fd_none });
          calls = t.calls ++ closing (t.file i);
        }))
