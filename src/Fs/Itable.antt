-- ===== src/Fs/Itable.antt =====
-- The inode table of kernel/fs.c: references, locks and validity of the inodes in memory. The
-- table's spinlock is held for the whole of each step on it. A count of references is an int, as
-- its 32-bit pattern.
use project.Base.{
  ℕ, zero, suc, ◌+◌, ◌-◌, ◌%◌, ◌^◌, Bool, true, false, not, ◌&&◌, ◌||◌, Option, none, some, ltb,
  ◌==◌, if◌then◌else◌,
}
use project.Fs.{Superblock, Fs, Dinode, put}
use project.Fs.Inode.{itrunc, iupdate}

abbrev pub ninode : ℕ
ninode = 50

-- struct inode; `holder` is the process with the sleep lock, and `copy` the fields that are copied
-- from the disk.
pub record Inode : Type 0 where
  pub dev : ℕ
  pub inum : ℕ
  pub ref : ℕ
  pub valid : Bool
  pub holder : Option ℕ
  pub copy : Dinode

pub record Table : Type 0 where
  pub inode : ℕ → Inode
  pub fs : Fs

abbrev pub set_inode : ℕ → Inode → Table → Table
set_inode i ip t = record t { inode = put t.inode i ip }

-- An int above 0.
abbrev pub positive : ℕ → Bool
positive ref = ltb 0 ref && ltb ref (2 ^ 31)

abbrev pub is_for : (dev inum : ℕ) → Inode → Bool
is_for dev inum ip = positive ip.ref && (ip.dev == dev) && (ip.inum == inum)

-- The first entry from `i` on that passes the test.
abbrev pub first_entry : (Inode → Bool) → (ℕ → Inode) → ℕ → ℕ → Option ℕ
first_entry test inode i zero = none
first_entry test inode i (suc left) =
    let rest = first_entry test inode (i + 1) left in if test (inode i) then some i else rest

abbrev pub recycle : (dev inum : ℕ) → ℕ → Table → Table
recycle dev inum i t =
    set_inode i (record (t.inode i) { dev = dev; inum = inum; ref = 1; valid = false }) t

abbrev pub add_ref : ℕ → Table → Table
add_ref i t = set_inode i (record (t.inode i) { ref = ((t.inode i).ref + 1) % 2 ^ 32 }) t

abbrev pub drop_ref : ℕ → Table → Table
drop_ref i t =
    set_inode i (record (t.inode i) { ref = ((t.inode i).ref + (2 ^ 32 - 1)) % 2 ^ 32 }) t

-- iget: the entry in use for the inode, else the first free one; none is a panic.
unfoldable pub iget : (dev inum : ℕ) → Table → Option (ℕ × Table)
iget dev inum t = elim (first_entry (is_for dev inum) t.inode 0 ninode) [
  | some i ↦ some (i, add_ref i t)
  | none ↦ elim (first_entry (λ ip. ip.ref == 0) t.inode 0 ninode) [
    | some i ↦ some (i, recycle dev inum i t)
    | none ↦ none
  ]
]

unfoldable pub idup : ℕ → Table → ℕ × Table
idup i t = (i, add_ref i t)

-- A process `me` that finds the sleep lock free takes it; else it sleeps, which is `some none`.
unfoldable pub ilock : (me i : ℕ) → Table → Option (Option Table)
ilock me i t =
    let ip = t.inode i in
    if not (positive ip.ref) then none else elim ip.holder [
      | some p ↦ some none
      | none ↦
          if ip.valid
          then some (some (set_inode i (record ip { holder = some me }) t))
          else (if (t.fs.dinode ip.inum).type == 0
              then none
              else some (
                  some (
                    set_inode i
                      (record ip { holder = some me; valid = true; copy = t.fs.dinode ip.inum })
                      t)))
    ]

unfoldable pub iunlock : (me i : ℕ) → Table → Option Table
iunlock me i t = elim (t.inode i).holder [
  | none ↦ none
  | some p ↦
      if not (p == me) || not (positive (t.inode i).ref)
      then none
      else some (set_inode i (record (t.inode i) { holder = none }) t)
]

module _ (sb : Superblock) where
  -- The last reference to an inode without links: its content is freed and its type cleared.
  unfoldable pub free_inode : ℕ → Table → Option Table
  free_inode i t =
      let ip = t.inode i in
      elim (itrunc sb ip.inum ip.copy t.fs) [
        | none ↦ none
        | some (d, fs) ↦ elim (iupdate sb ip.inum (record d { type = 0 }) fs) [
          | none ↦ none
          | some (_, fs') ↦ some (record t {
            inode = put t.inode i (record ip { valid = false; copy = record d { type = 0 } });
            fs = fs';
          })
        ]
      ]

  -- The sleep lock of such an inode is free, and is free again after it.
  unfoldable pub iput : ℕ → Table → Option Table
  iput i t =
      let ip = t.inode i in
      if (ip.ref == 1) && ip.valid && (ip.copy.nlink == 0)
      then elim (free_inode i t) [ none ↦ none | some u ↦ some (drop_ref i u) ]
      else some (drop_ref i t)

  unfoldable pub iunlockput : (me i : ℕ) → Table → Option Table
  iunlockput me i t = elim (iunlock me i t) [ none ↦ none | some u ↦ iput i u ]
