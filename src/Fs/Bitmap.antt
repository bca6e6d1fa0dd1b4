-- ===== src/Fs/Bitmap.antt =====
-- The bitmap of kernel/fs.c: which blocks are free.
use project.Base.{
  ℕ, ◌/◌, ◌%◌, ◌<◌, ◌≡◌, refl, inl, inr, Bool, true, false, not, ◌&&◌, ◌||◌, ◌==◌, arith,
  Bool-cases,
}
use project.Fs.Room.{Logs}
use project.Base.Lists.{has}
use project.Fs.{Superblock, Fs, bpb, put, bit_clear, bblock}

pub same_bit : (c r : ℕ) → c / bpb ≡ r / bpb → (c % bpb == r % bpb) ≡ (c == r)
same_bit c r h = ground arith

pub or_false : (b : Bool) → b ≡ (b || false)
or_false true = refl
or_false false = refl

pub or_left : (a b : Bool) → b ≡ false → (a || b) ≡ true → a ≡ true
or_left true b e h = refl
or_left false b e h = ground arith

pub and_false : (b : Bool) → (b && false) ≡ false
and_false true = refl
and_false false = refl

pub and_true : (b : Bool) → b ≡ (b && true)
and_true true = refl
and_true false = refl

pub put-byte :
    (block : ℕ → ℕ → ℕ) (b : ℕ) (x : ℕ → ℕ)
    → ((c i : ℕ) → block c i < 256)
    → ((i : ℕ) → x i < 256)
    → (c i : ℕ) → put block b x c i < 256
put-byte block b x h k c i = elim (Bool-cases (c == b)) [
  | inl e ↦ rw e (k i)
  | inr e ↦ rw e (h c i)
]

module _ (sb : Superblock) where
  -- Whether the bitmap says that a block is free.
  abbrev pub is_free : Fs → ℕ → Bool
  is_free s c = bit_clear (s.block (bblock sb c)) (c % bpb)

  -- Bytes are bytes, the boot block is in use, and no free block is a bitmap block.
  pub record BitmapSafe (s : Fs) : Type 0 where
    pub bytes : (b i : ℕ) → s.block b i < 256
    pub boot_used : is_free s 0 ≡ false
    pub map_used :
        (c d : ℕ) → c < sb.size → d < sb.size → is_free s c ≡ true → (bblock sb d == c) ≡ false

  -- Block `r` was the first free one, and is now in use and zeroed; nothing else has
  -- changed. The log has both blocks.
  pub record Took (s : Fs) (r : ℕ) (t : Fs) : Type 0 where
    pub in_range : r < sb.size
    pub was_free : is_free s r ≡ true
    pub first_free : (c : ℕ) → c < r → is_free s c ≡ false
    pub now_free : (c : ℕ) → c < sb.size → is_free t c ≡ (is_free s c && not (c == r))
    pub zeroed : (i : ℕ) → t.block r i ≡ 0
    pub same_rest : (b : ℕ) → (b == r) ≡ false → (b == bblock sb r) ≡ false → t.block b ≡ s.block b
    pub same_inodes : t.dinode ≡ s.dinode
    pub logs : Logs 2 s t
    pub in_log : (has r t.logged ≡ true) × (has (bblock sb r) t.logged ≡ true)
    pub byte_range : (b i : ℕ) → t.block b i < 256
