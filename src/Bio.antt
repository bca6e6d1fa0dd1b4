-- ===== src/Bio.antt =====
-- kernel/bio.c: the cache of disk blocks. The list holds the buffers from bcache.head.next on, the
-- most recently used first. A buffer that is in use is named by its device and block, which no
-- other buffer has; the spinlock of the cache is held for the whole of each step on it.
pub mod Buffers
pub mod Recycle
pub mod Cached
pub mod Release
pub mod Store
mod Tests
use project.Base.{
  ℕ, zero, suc, ◌+◌, ◌-◌, ◌%◌, ◌^◌, ◌==◌, Bool, true, false, ◌&&◌, Option, none, some, List, [],
  ◌∷◌, if◌then◌else◌,
}

-- struct buf, with the process that has its sleep lock.
pub record Buf : Type 0 where
  pub valid : Bool
  pub dev : ℕ
  pub blockno : ℕ
  pub refcnt : ℕ
  pub holder : Option ℕ
  pub bytes : ℕ → ℕ

-- The cache, and the bytes of each block of each disk.
pub record Bcache : Type 0 where
  pub bufs : List Buf
  pub disk : ℕ → ℕ → ℕ → ℕ

-- What a call comes to: it panics, sleeps for a lock, or returns.
pub data Outcome : Type 0 where
  panics : Outcome
  waits : Bcache → Outcome
  returns : Bcache → Outcome

-- uint counters.
abbrev pub inc : ℕ → ℕ
inc r = (r + 1) % 2 ^ 32

abbrev pub dec : ℕ → ℕ
dec r = (r + (2 ^ 32 - 1)) % 2 ^ 32

abbrev pub is_block : (dev blockno : ℕ) → Buf → Bool
is_block dev blockno b = (b.dev == dev) && (b.blockno == blockno)

-- The first loop of bget.
abbrev pub find : (dev blockno : ℕ) → List Buf → Option Buf
find dev blockno [] = none
find dev blockno (b ∷ bs) =
    let rest = find dev blockno bs in if is_block dev blockno b then some b else rest

-- A change of the buffer that find finds.
abbrev pub set_buf : (dev blockno : ℕ) → (Buf → Buf) → List Buf → List Buf
set_buf dev blockno f [] = []
set_buf dev blockno f (b ∷ bs) =
    let rest = set_buf dev blockno f bs in if is_block dev blockno b then f b ∷ bs else b ∷ rest

abbrev pub recycled : (dev blockno : ℕ) → Buf → Buf
recycled dev blockno b = record b { dev = dev; blockno = blockno; valid = false; refcnt = 1 }

-- The second loop of bget, from the back of the list.
abbrev pub recycle_last : (dev blockno : ℕ) → List Buf → Option (List Buf)
recycle_last dev blockno [] = none
recycle_last dev blockno (b ∷ bs) = elim (recycle_last dev blockno bs) [
  | some bs' ↦ some (b ∷ bs')
  | none ↦ if b.refcnt == 0 then some (recycled dev blockno b ∷ bs) else none
]

abbrev pub nbuf : ℕ
nbuf = 30

-- The buffers of the loop of binit; they start as zeros.
abbrev pub blank : Buf
blank = record { valid = false; dev = 0; blockno = 0; refcnt = 0; holder = none; bytes = λ i. 0 }

abbrev pub blanks : ℕ → List Buf
blanks zero = []
blanks (suc n) = blank ∷ blanks n

abbrev pub binit : (ℕ → ℕ → ℕ → ℕ) → Bcache
binit disk = record { bufs = blanks nbuf; disk = disk }

-- acquiresleep on the buffer.
unfoldable pub acquiresleep : (pid dev blockno : ℕ) → Bcache → Outcome
acquiresleep pid dev blockno s = elim (find dev blockno s.bufs) [
  | none ↦ panics
  | some b ↦ elim b.holder [
    | none ↦
        returns
          (record s { bufs = set_buf dev blockno (λ c. record c { holder = some pid }) s.bufs })
    | some q ↦ waits s
  ]
]

unfoldable pub bget : (pid dev blockno : ℕ) → Bcache → Outcome
bget pid dev blockno s = elim (find dev blockno s.bufs) [
  | some b ↦
      acquiresleep pid dev blockno
        (record s { bufs = set_buf dev blockno (λ c. record c { refcnt = inc c.refcnt }) s.bufs })
  | none ↦ elim (recycle_last dev blockno s.bufs) [
    | none ↦ panics
    | some bs ↦ acquiresleep pid dev blockno (record s { bufs = bs })
  ]
]

-- What bread does behind bget.
unfoldable pub load : (dev blockno : ℕ) → Bcache → Bcache
load dev blockno s = record s {
  bufs =
      set_buf dev blockno
        (λ c. if c.valid then c else record c { bytes = s.disk dev blockno; valid = true }) s.bufs;
}

unfoldable pub bread : (pid dev blockno : ℕ) → Bcache → Outcome
bread pid dev blockno s = elim (bget pid dev blockno s) [
  | panics ↦ panics
  | waits t ↦ waits t
  | returns t ↦ returns (load dev blockno t)
]

abbrev pub holdingsleep : ℕ → Buf → Bool
holdingsleep pid b = elim b.holder [ none ↦ false | some q ↦ q == pid ]

-- Bytes `x` as block `blockno` of device `dev`.
abbrev pub put_block : (ℕ → ℕ → ℕ → ℕ) → (dev blockno : ℕ) → (ℕ → ℕ) → ℕ → ℕ → ℕ → ℕ
put_block disk dev blockno x d k = if (dev == d) && (blockno == k) then x else disk d k

unfoldable pub bwrite : (pid dev blockno : ℕ) → Bcache → Outcome
bwrite pid dev blockno s = elim (find dev blockno s.bufs) [
  | none ↦ panics
  | some b ↦
      if holdingsleep pid b
      then returns (record s { disk = put_block s.disk dev blockno b.bytes })
      else panics
]

-- The list without the buffer.
abbrev pub without : (dev blockno : ℕ) → List Buf → List Buf
without dev blockno [] = []
without dev blockno (b ∷ bs) =
    let rest = without dev blockno bs in if is_block dev blockno b then bs else b ∷ rest

unfoldable pub brelse : (pid dev blockno : ℕ) → Bcache → Outcome
brelse pid dev blockno s = elim (find dev blockno s.bufs) [
  | none ↦ panics
  | some b ↦
      let b' = record b { holder = none; refcnt = dec b.refcnt } in
      if holdingsleep pid b
      then returns (record s {
        bufs =
            if b'.refcnt == 0
            then b' ∷ without dev blockno s.bufs
            else set_buf dev blockno (λ c. record c { holder = none; refcnt = dec c.refcnt })
                s.bufs;
      })
      else panics
]

abbrev pub set_refcnt : (ℕ → ℕ) → (dev blockno : ℕ) → Bcache → Bcache
set_refcnt f dev blockno s = record s {
  bufs = set_buf dev blockno (λ c. record c { refcnt = f c.refcnt }) s.bufs;
}

unfoldable pub bpin : (dev blockno : ℕ) → Bcache → Bcache
bpin = set_refcnt inc

unfoldable pub bunpin : (dev blockno : ℕ) → Bcache → Bcache
bunpin = set_refcnt dec
