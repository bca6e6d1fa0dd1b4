-- ===== src/Fs/IoTests.antt =====
-- The theorems on readi and writei of kernel/fs.c at a file of 4 bytes, of which byte 2 and more
-- are written.
use project.Base.{◌/◌, ℕ, ◌+◌, ◌≡◌, ◌≤◌, ◌<◌, refl, true, some, [], ◌∷◌, arith}
use project.Fs.{Superblock, Fs, Dinode, put}
use project.Fs.Inode.{iblock}
use project.Fs.Io.{Mem, paste, moves, readi, writei}
use project.Fs.Delivered.{ReadFrom}
use project.Fs.Readi.{readi-ReadFrom}
use project.Fs.Reread.{Reread, readi-writei}
use project.Fs.Tests.{small, disk, disk-BitmapSafe, file_addrs, file-Mapped, no_inode}

-- All addresses are mapped.
abbrev everywhere : ℕ → ℕ → ℕ
everywhere address m = m

abbrev memory : Mem
memory a = 7

abbrev file : Dinode
file = record no_inode { type = 2; nlink = 1; size = 4; addrs = file_addrs }

memory-lt : (a : ℕ) → memory a < 256
memory-lt a = omega arith

readi-ReadFrom_example :
    ReadFrom small everywhere disk file_addrs memory 100 1 3 0
      (readi small everywhere file memory 100 1 5 disk)
readi-ReadFrom_example =
    readi-ReadFrom small everywhere disk file memory 100 1 5
      (λ i il. let first : (1 + i) / 1024 ≡ 0 = omega arith in rw first refl) (omega arith)
      (omega arith) (omega arith)

-- The inode and the state after the write.
abbrev longer : Dinode
longer = record file { size = 5 }

abbrev written : Fs
written = record disk {
  block = put disk.block 7 (paste (disk.block 7) 2 3 (λ i. memory (100 + i)));
  dinode = put disk.dinode 5 longer;
  logged = 7 ∷ iblock small 5 ∷ [];
}

writei-file : writei small everywhere 5 file memory 100 2 3 disk ≡ some ((some 3, longer), written)
unfolding writei project.Fs.Io.writei_loop project.Fs.Inode.bmap project.Fs.Inode.direct_entry
    project.Fs.Inode.iupdate project.Fs.refuses
writei-file = refl

everywhere-moves : (c m : ℕ) → c + m ≤ 3 → moves small everywhere (200 + c) m ≡ true
everywhere-moves c m le = ground arith

readi-writei_example :
    Reread small everywhere memory memory-lt 100 200 3
      (readi small everywhere longer memory 200 2 3 written)
readi-writei_example =
    readi-writei small everywhere memory memory-lt 5 disk written file longer memory 100 200 2 3
      disk-BitmapSafe file-Mapped (omega arith) (omega arith) (omega arith) (omega arith)
      writei-file everywhere-moves
