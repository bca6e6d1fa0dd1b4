-- ===== src/Fs/Inode.antt =====
-- iupdate, bmap and itrunc of kernel/fs.c, on the blocks. `ip->addrs` is a function of the index.
use project.Base.{
  ℕ, zero, suc, ◌+◌, ◌-◌, ◌*◌, ◌/◌, ◌%◌, ◌^◌, true, false, none, some, ltb, ◌==◌, if◌then◌else◌,
}
use project.Fs.{
  Superblock, Dinode, Cmd, pure, ◌>>=◌, ◌>>◌, bsize, ndirect, nindirect, put, log_write, balloc,
  bfree,
}

-- Word `j` of a block: the C view of its bytes as uint, least significant first.
abbrev pub word : (ℕ → ℕ) → ℕ → ℕ
word bytes j =
    bytes (4 * j)
    + 2 ^ 8 * bytes (4 * j + 1)
    + 2 ^ 16 * bytes (4 * j + 2)
    + 2 ^ 24 * bytes (4 * j + 3)

abbrev pub put_word : (ℕ → ℕ) → ℕ → ℕ → ℕ → ℕ
put_word bytes j v =
    put
      (put (put (put bytes (4 * j) (v % 256)) (4 * j + 1) (v / 2 ^ 8 % 256)) (4 * j + 2)
        (v / 2 ^ 16 % 256))
      (4 * j + 3) (v / 2 ^ 24 % 256)

abbrev pub set_word : (b j v : ℕ) → Cmd (Unit {0})
set_word b j v s = some (tt, record s { block = put s.block b (put_word (s.block b) j v) })

-- Inodes per block: struct dinode has 64 bytes.
abbrev pub ipb : ℕ
ipb = bsize / 64

module _ (sb : Superblock) where
  abbrev pub iblock : ℕ → ℕ
  iblock i = i / ipb + sb.inodestart

  -- The inode `inum`, as `d`, to its block.
  unfoldable pub iupdate : ℕ → Dinode → Cmd (Unit {0})
  iupdate inum d s = log_write (iblock inum) (record s { dinode = put s.dinode inum d })

  -- The entry at `i` of addrs, allocated if it is 0; and addrs with it.
  unfoldable pub direct_entry : ℕ → (ℕ → ℕ) → Cmd (ℕ × (ℕ → ℕ))
  direct_entry i addrs =
      if addrs i == 0
      then (do r ← balloc sb; if r == 0 then pure (0, addrs) else pure (r, put addrs i r))
      else pure (addrs i, addrs)

  -- The entry `j` of the indirect block `ind`, allocated if it is 0.
  unfoldable pub indirect_entry : (ind j : ℕ) → Cmd ℕ
  indirect_entry ind j s =
      if word (s.block ind) j == 0
      then (do r ← balloc sb; if r == 0 then pure 0 else do set_word ind j r; log_write ind; pure r)
          s
      else some (word (s.block ind) j, s)

  -- bmap, with ip->addrs before and after.
  unfoldable pub bmap : (ℕ → ℕ) → ℕ → Cmd (ℕ × (ℕ → ℕ))
  bmap addrs bn =
      if ltb bn ndirect
      then direct_entry bn addrs
      else (if ltb (bn - ndirect) nindirect
          then (do
            (ind, addrs') ← direct_entry ndirect addrs
            if ind == 0
                then pure (0, addrs')
                else do r ← indirect_entry ind (bn - ndirect); pure (r, addrs'))
          else λ s. none)

  -- The loops of itrunc, with the entries that are left.
  unfoldable pub free_direct : (i left : ℕ) → (ℕ → ℕ) → Cmd (ℕ → ℕ)
  free_direct i zero addrs = pure addrs
  free_direct i (suc left) addrs = elim (addrs i == 0) [
    | true ↦ free_direct (i + 1) left addrs
    | false ↦ do bfree sb (addrs i); free_direct (i + 1) left (put addrs i 0)
  ]

  unfoldable pub free_indirect : (ind j left : ℕ) → Cmd (Unit {0})
  free_indirect ind j zero s = some (tt, s)
  free_indirect ind j (suc left) s = elim (word (s.block ind) j == 0) [
    | true ↦ free_indirect ind (j + 1) left s
    | false ↦ (do bfree sb (word (s.block ind) j); free_indirect ind (j + 1) left) s
  ]

  unfoldable pub itrunc : ℕ → Dinode → Cmd Dinode
  itrunc inum d = do
    addrs ← free_direct 0 ndirect d.addrs
    addrs' ← if addrs ndirect == 0 then pure addrs else do
      free_indirect (addrs ndirect) 0 nindirect
      bfree sb (addrs ndirect)
      pure (put addrs ndirect 0)
    let d' = record d { addrs = addrs'; size = 0 }
    iupdate inum d'
    pure d'
