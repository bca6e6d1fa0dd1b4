-- ===== src/Log.antt =====
-- kernel/log.c: the redo log of the file system, with the disk and the buffer cache under it. A
-- block is its 32-bit words, of which the header block uses word 0 for the count and the next ones
-- for the block numbers. `cache` is what bread shows of each block, and `disk` what a crash leaves.
-- The CPU crashes when `budget` writes to the disk are done. Counts read from a header block are
-- taken to be nonnegative ints.
pub mod Disk
pub mod Install
pub mod Recover
pub mod WriteLog
pub mod Commit
pub mod Ops
mod Tests
use project.Base.{
  ℕ, zero, suc, ◌+◌, ◌-◌, ◌*◌, ◌%◌, ◌^◌, Bool, true, false, not, ◌&&◌, ◌||◌, Option, none, some,
  ltb, leb, ◌==◌, if◌then◌else◌,
}

abbrev pub maxopblocks : ℕ
maxopblocks = 10

abbrev pub logsize : ℕ
logsize = maxopblocks * 3

abbrev pub Block : Type 0
Block = ℕ → ℕ

abbrev pub set_at {ℓ} : {A : Type ℓ} → (ℕ → A) → ℕ → A → ℕ → A
set_at f i v j = if j == i then v else f j

-- struct log, with the pins that bpin and bunpin count, the disk and the cache.
pub record Log : Type 0 where
  pub disk : ℕ → Block
  pub cache : ℕ → Block
  pub pins : ℕ → ℕ
  pub start : ℕ
  pub size : ℕ
  pub outstanding : ℕ
  pub committing : Bool
  pub n : ℕ
  pub block : ℕ → ℕ
  pub budget : ℕ

-- A run ends with a crash, which leaves the disk, with a panic, or in a state.
pub data Run : Type 0 where
  crashed : (disk : ℕ → Block) → Run
  panicked : Run
  done : (log : Log) → Run

abbrev pub and_then : Run → (Log → Run) → Run
and_then (crashed d) f = crashed d
and_then panicked f = panicked
and_then (done s) f = f s

-- bwrite of the buffer of block `b`.
abbrev pub bwrite : ℕ → Log → Run
bwrite b s = elim s.budget [
  | zero ↦ crashed s.disk
  | suc m ↦ done (record s { disk = set_at s.disk b (s.cache b); budget = m })
]

-- memmove from the buffer of one block to that of another.
abbrev pub copy_block : ℕ → ℕ → Log → Log
copy_block to from s = record s { cache = set_at s.cache to (s.cache from) }

abbrev pub bpin : ℕ → Log → Log
bpin b s = record s { pins = set_at s.pins b (s.pins b + 1) }

abbrev pub bunpin : ℕ → Log → Log
bunpin b s = record s { pins = set_at s.pins b (s.pins b - 1) }

-- The loop of install_trans from `tail` on, with the number of blocks that are left.
unfoldable pub install_from : Bool → ℕ → ℕ → Log → Run
install_from recovering tail zero s = done s
install_from recovering tail (suc left) s =
    and_then (bwrite (s.block tail) (copy_block (s.block tail) (s.start + tail + 1) s)) (λ t.
      install_from recovering (tail + 1) left (if recovering then t else bunpin (t.block tail) t))

unfoldable pub install_trans : Bool → Log → Run
install_trans recovering s = install_from recovering 0 s.n s

-- The loop of read_head copies the block numbers, entry by entry.
abbrev pub read_blocks : Block → ℕ → ℕ → (ℕ → ℕ) → ℕ → ℕ
read_blocks lh i zero block = block
read_blocks lh i (suc left) block = read_blocks lh (i + 1) left (set_at block i (lh (i + 1)))

unfoldable pub read_head : Log → Log
read_head s = record s {
  n = s.cache s.start 0;
  block = read_blocks (s.cache s.start) 0 (s.cache s.start 0) s.block;
}

-- The loop of write_head, in the header block.
abbrev pub write_blocks : (ℕ → ℕ) → ℕ → ℕ → Block → Block
write_blocks block i zero hb = hb
write_blocks block i (suc left) hb = write_blocks block (i + 1) left (set_at hb (i + 1) (block i))

unfoldable pub header : Log → Block
header s = write_blocks s.block 0 s.n (set_at (s.cache s.start) 0 s.n)

unfoldable pub write_head : Log → Run
write_head s = bwrite s.start (record s { cache = set_at s.cache s.start (header s) })

unfoldable pub recover_from_log : Log → Run
recover_from_log s =
    and_then (install_trans true (read_head s)) (λ t. write_head (record t { n = 0 }))

-- The memory after a reboot with a disk, before initlog.
abbrev pub reboot : ℕ → (ℕ → Block) → Log
reboot budget disk = record {
  disk = disk;
  cache = disk;
  pins = λ _. 0;
  start = 0;
  size = 0;
  outstanding = 0;
  committing = false;
  n = 0;
  block = λ _. 0;
  budget = budget;
}

unfoldable pub initlog : ℕ → ℕ → Log → Run
initlog logstart nlog s = recover_from_log (record s { start = logstart; size = nlog })

-- The loop of write_log from `tail` on.
unfoldable pub write_log_from : ℕ → ℕ → Log → Run
write_log_from tail zero s = done s
write_log_from tail (suc left) s =
    and_then (bwrite (s.start + tail + 1) (copy_block (s.start + tail + 1) (s.block tail) s))
      (λ t. write_log_from (tail + 1) left t)

unfoldable pub write_log : Log → Run
write_log s = write_log_from 0 s.n s

unfoldable pub commit : Log → Run
commit s =
    if ltb 0 s.n
    then and_then (write_log s) (λ t.
      and_then (write_head t)
        (λ u. and_then (install_trans false u) (λ v. write_head (record v { n = 0 }))))
    else done s

-- A pass of begin_op: the operation is admitted, or sleeps.
unfoldable pub begin_op : Log → Option Log
begin_op s =
    if s.committing
    then none
    else (if ltb logsize (s.n + (s.outstanding + 1) * maxopblocks)
        then none
        else some (record s { outstanding = s.outstanding + 1 }))

-- end_op: where this was the last operation, it commits.
unfoldable pub end_op : Log → Run
end_op s =
    let left = (s.outstanding + 2 ^ 32 - 1) % 2 ^ 32 in
    if s.committing
    then panicked
    else (if left == 0
        then and_then (commit (record s { outstanding = left; committing = true }))
            (λ t. done (record t { committing = false }))
        else done (record s { outstanding = left }))

-- The first index from `i` on that has block `b`, or the count.
abbrev pub find_block : (ℕ → ℕ) → ℕ → ℕ → ℕ → ℕ
find_block block b i zero = i
find_block block b i (suc left) =
    let rest = find_block block b (i + 1) left in if block i == b then i else rest

unfoldable pub log_write : ℕ → Log → Run
log_write b s =
    let i = find_block s.block b 0 s.n in
    if leb logsize s.n || leb (s.size - 1) s.n
    then panicked
    else (if ltb s.outstanding 1
        then panicked
        else (let t : Log = record s { block = set_at s.block i b } in
            if i == s.n then done (record (bpin b t) { n = s.n + 1 }) else done t))
