-- ===== src/Fs/Tests.antt =====
-- The theorems on kernel/fs.c at a small file system: 24 blocks, a bitmap in block 3, and blocks 0
-- to 9 in use.
use project.Base.{
  ℕ, ◌+◌, ◌≡◌, ◌<◌, refl, Bool, true, false, Option, some, none, List, [], ◌∷◌, ltb, ◌==◌,
  if◌then◌else◌, arith, ◌∙◌, inl, inr, Bool-cases, eq_of_==, ==_sym,
}
use project.Fs.{Superblock, Fs, Dinode, balloc, bfree, put, bblock}
use project.Fs.Bitmap.{BitmapSafe, is_free}
use project.Fs.Mapped.{InUse, Mapped, lookup}
use project.Fs.Bmap.{Bmapped, bmap-Bmapped}
use project.Fs.Inode.{bmap}
use project.Fs.Alloc.{Allocated, balloc-Allocated}
use project.Fs.Free.{Released, bfree-Released, bfree-balloc}
use project.Fs.Itable.{Table, iget}
use project.Fs.Refs.{Unique, Got, iget-Got}
use project.Fs.Name.{names, namex}
use project.Fs.Walk.{inode_of, namex-follow}

abbrev pub small : Superblock
small = record { size = 24; ninodes = 16; inodestart = 2; bmapstart = 3 }

abbrev pub no_inode : Dinode
no_inode = record { type = 0; major = 0; minor = 0; nlink = 0; size = 0; addrs = λ i. 0 }

abbrev pub disk : Fs
disk = record {
  block = λ b i. if b == 3 then (if i == 0 then 255 else if i == 1 then 3 else 0) else 0;
  dinode = λ i. no_inode;
  logged = [];
  outstanding = 1;
  log_size = 30;
}

pub disk-BitmapSafe : BitmapSafe small disk
disk-BitmapSafe = record {
  bytes = λ b i. ground arith;
  boot_used = refl;
  map_used = λ c d cl dl free. elim (Bool-cases (c == 3)) [
    | inl e ↦ let used : is_free small disk 3 ≡ true = rw (eq_of_== c 3 e) at free in cc
    | inr e ↦ let row : bblock small d ≡ 3 = omega arith in rw row (==_sym 3 c ∙ e)
  ];
}

-- The first free block is block 10.
abbrev after_balloc : Fs
after_balloc = record disk {
  block = put (put disk.block 3 (put (disk.block 3) 1 7)) 10 (λ i. 0);
  logged = 3 ∷ 10 ∷ [];
}

balloc-disk : balloc small disk ≡ some (10, after_balloc)
unfolding balloc project.Fs.balloc_from project.Fs.take_block project.Fs.refuses
balloc-disk = refl

balloc-Allocated_example : Allocated small disk (balloc small disk)
balloc-Allocated_example = balloc-Allocated small disk disk-BitmapSafe

bfree-Released_example : Released small disk 7 (bfree small 7 disk)
bfree-Released_example =
    bfree-Released small 7 disk disk-BitmapSafe refl (omega arith)
      (λ d dl. let row : bblock small d ≡ 3 = omega arith in rw row refl)

bfree-balloc_example :
    (u : Fs) × (bfree small 10 after_balloc ≡ some (tt, u))
    × BitmapSafe small u
    × ((c : ℕ) → c < 24 → is_free small u c ≡ is_free small disk c)
bfree-balloc_example =
    bfree-balloc small disk after_balloc 10 disk-BitmapSafe balloc-disk (λ e. absurd (omega arith))
      (record { begun = omega arith; header = omega arith; on_disk = omega arith })

-- A table with inode 5 at entry 0.
abbrev one_inode : Table
one_inode = record {
  inode = λ i. record {
    dev = 1;
    inum = if i == 0 then 5 else 0;
    ref = if i == 0 then 1 else 0;
    valid = false;
    holder = none;
    copy = no_inode;
  };
  fs = disk;
}

one_inode-Unique : Unique one_inode
one_inode-Unique i k dev inum il kl fi fk =
    let a = fi.referred in let b = fk.referred in ground arith

iget-Got_example : Got 1 5 one_inode (iget 1 5 one_inode)
iget-Got_example = iget-Got 1 5 one_inode one_inode-Unique (λ j lt. ground arith)

abbrev a_slash_bb : List ℕ
a_slash_bb = 47 ∷ 97 ∷ 47 ∷ 47 ∷ 98 ∷ 98 ∷ []

names-a_slash_bb : names a_slash_bb ≡ (97 ∷ []) ∷ (98 ∷ 98 ∷ []) ∷ []
names-a_slash_bb = refl

abbrev all_dirs : ℕ → Bool
all_dirs ip = true

abbrev next_inode : ℕ → List ℕ → Option ℕ
next_inode ip name = some (ip + 1)

namex-follow_example :
    (inode_of (namex all_dirs next_inode false 1 9 a_slash_bb) ≡ some 3)
    × (namex all_dirs next_inode true 1 9 a_slash_bb ≡ some (2, 98 ∷ 98 ∷ []))
namex-follow_example = namex-follow all_dirs next_inode 1 9 a_slash_bb

-- A file with block 7, and block 8 as its indirect block.
abbrev pub file_addrs : ℕ → ℕ
file_addrs i = if i == 0 then 7 else if i == 12 then 8 else 0

only_block : (k : ℕ) → lookup disk file_addrs k ≡ (if k == 0 then 7 else 0)
only_block k = elim (Bool-cases (ltb k 12)) [
  | inl h ↦ let apart : (k == 12) ≡ false = ground arith in rw (h, apart) refl
  | inr h ↦ let apart : (k == 0) ≡ false = ground arith in rw (h, apart) refl
]

in_use : (b : ℕ) → b < 24 → (b == 3) ≡ false → is_free small disk b ≡ false → InUse small disk b
in_use b lt ne used = record {
  in_range = lt;
  used = used;
  apart = λ d dl. let row : bblock small d ≡ 3 = omega arith in rw row (==_sym 3 b ∙ ne);
}

pub file-Mapped : Mapped small disk file_addrs
file-Mapped = record {
  blocks = λ k kl ne. elim (Bool-cases (k == 0)) [
    | inl h ↦ rw (only_block k) (rw h (in_use 7 (omega arith) refl refl))
    | inr h ↦ absurd (ground (arith, only_block k))
  ];
  indirect = λ ne. in_use 8 (omega arith) refl refl;
  apart = λ k kl ne. ground (arith, only_block k);
  distinct = λ i k il kl ne e. ground (arith, only_block i, only_block k);
}

bmap-Bmapped_example : Bmapped small 5 disk file_addrs 13 (bmap small file_addrs 13 disk)
bmap-Bmapped_example =
    bmap-Bmapped small disk file_addrs 13 disk-BitmapSafe file-Mapped (omega arith) (omega arith)
