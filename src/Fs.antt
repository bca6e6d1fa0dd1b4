-- ===== src/Fs.antt =====
-- kernel/fs.c: the file system over the blocks that the buffer cache shows. A command runs inside
-- one transaction, with the locks that its caller holds; a panic of the kernel is `none`.
pub mod Room
pub mod Bits
pub mod Bitmap
pub mod Alloc
pub mod Free
pub mod Inode
pub mod Mapped
pub mod Grown
pub mod Bmap
pub mod Io
pub mod Content
pub mod Paste
pub mod Delivered
pub mod Readi
pub mod Written
pub mod Writei
pub mod Reread
pub mod Itable
pub mod Refs
pub mod Name
pub mod Walk
mod Tests
mod IoTests
use project.Base.{
  ℕ, zero, suc, ◌+◌, ◌-◌, ◌*◌, ◌/◌, ◌%◌, ◌^◌, Bool, true, false, Option, none, some, List, [], ◌∷◌,
  ◌++◌, ltb, leb, ◌||◌, ◌==◌, if◌then◌else◌,
}
use Prim.Native.Nat.{min, bit_and, bit_or}
use project.Base.Lists.{has, length}
use project.Log.{logsize}

abbrev pub bsize : ℕ
bsize = 1024

-- Bitmap bits per block.
abbrev pub bpb : ℕ
bpb = bsize * 8

abbrev pub ndirect : ℕ
ndirect = 12

abbrev pub nindirect : ℕ
nindirect = bsize / 4

abbrev pub maxfile : ℕ
maxfile = ndirect + nindirect

-- The fields of struct superblock that are used after fsinit.
pub record Superblock : Type 0 where
  pub size : ℕ
  pub ninodes : ℕ
  pub inodestart : ℕ
  pub bmapstart : ℕ

-- struct dinode. The inode blocks are seen as the inodes in them.
pub record Dinode : Type 0 where
  pub type : ℕ
  pub major : ℕ
  pub minor : ℕ
  pub nlink : ℕ
  pub size : ℕ
  pub addrs : ℕ → ℕ

-- The bytes of each block, the inodes, and of the log (kernel/log.c) the blocks in its header, in
-- order, the operations in progress and its size.
pub record Fs : Type 0 where
  pub block : ℕ → ℕ → ℕ
  pub dinode : ℕ → Dinode
  pub logged : List ℕ
  pub outstanding : ℕ
  pub log_size : ℕ

abbrev pub Cmd : Type 0 → Type 0
Cmd A = Fs → Option (A × Fs)

infixl 5 ◌>>=◌ ◌>>◌
abbrev pub ◌>>=◌ : {A B : Type 0} → Cmd A → (A → Cmd B) → Cmd B
◌>>=◌ m f s = elim (m s) [ none ↦ none | some (a, t) ↦ f a t ]

abbrev pub ◌>>◌ : {B : Type 0} → Cmd (Unit {0}) → Cmd B → Cmd B
m >> k = m >>= λ _. k

abbrev pub pure : {A : Type 0} → A → Cmd A
pure a s = some (a, s)

abbrev pub put {ℓ} : {A : Type ℓ} → (ℕ → A) → ℕ → A → ℕ → A
put f i v j = if j == i then v else f j

-- The two panics of log_write: too big a transaction, and none in progress.
unfoldable pub refuses : (logged : List ℕ) → (outstanding log_size : ℕ) → Bool
refuses logged outstanding log_size =
    (leb logsize (length logged) || leb (log_size - 1) (length logged)) || ltb outstanding 1

-- A block enters the header once.
abbrev pub enter : ℕ → List ℕ → List ℕ
enter b xs = if has b xs then xs else xs ++ (b ∷ [])

abbrev pub log_write : ℕ → Cmd (Unit {0})
log_write b s =
    if refuses s.logged s.outstanding s.log_size
    then none
    else some (tt, record s { logged = enter b s.logged })

abbrev pub set_byte : (b i v : ℕ) → Cmd (Unit {0})
set_byte b i v s = some (tt, record s { block = put s.block b (put (s.block b) i v) })

-- memset of the whole block to 0, and log_write.
abbrev pub bzero : ℕ → Cmd (Unit {0})
bzero b s = log_write b (record s { block = put s.block b (λ _. 0) })

-- (byte & (1 << (bi % 8))) == 0 in byte bi / 8 of a bitmap block.
abbrev pub bit_clear : (ℕ → ℕ) → ℕ → Bool
bit_clear bytes bi = bit_and (bytes (bi / 8)) (2 ^ (bi % 8)) == 0

-- The inner loop of balloc, with the bits that are left: the first clear one.
abbrev pub find_bit : (ℕ → ℕ) → ℕ → ℕ → Option ℕ
find_bit bytes bi zero = none
find_bit bytes bi (suc left) =
    let rest = find_bit bytes (bi + 1) left in if bit_clear bytes bi then some bi else rest

module _ (sb : Superblock) where
  abbrev pub bblock : ℕ → ℕ
  bblock b = b / bpb + sb.bmapstart

  -- Block `b + bi`, of which the bit is clear, is marked and zeroed.
  unfoldable pub take_block : (b bi : ℕ) → Cmd ℕ
  take_block b bi s =
      (do
        set_byte (bblock b) (bi / 8) (bit_or (s.block (bblock b) (bi / 8)) (2 ^ (bi % 8)))
        log_write (bblock b)
        bzero (b + bi)
        pure (b + bi))
        s

  -- The outer loop of balloc, with the bitmap blocks that are left.
  unfoldable pub balloc_from : (b left : ℕ) → Cmd ℕ
  balloc_from b zero s = some (0, s)
  balloc_from b (suc left) s = elim (find_bit (s.block (bblock b)) 0 (min bpb (sb.size - b))) [
    | none ↦ balloc_from (b + bpb) left s
    | some bi ↦ take_block b bi s
  ]

  unfoldable pub balloc : Cmd ℕ
  balloc = balloc_from 0 ((sb.size + bpb - 1) / bpb)

  unfoldable pub bfree : ℕ → Cmd (Unit {0})
  bfree b s =
      let bi = b % bpb in
      if bit_clear (s.block (bblock b)) bi
      then none
      else (do
        set_byte (bblock b) (bi / 8) (bit_and (s.block (bblock b) (bi / 8)) (255 - 2 ^ (bi % 8)))
        log_write (bblock b))
          s
