-- ===== src/Log/Recover.antt =====
-- recover_from_log of kernel/log.c: what it makes of a disk, also where it crashes.
use project.Base.{
  ℕ, zero, suc, ◌+◌, ◌≤◌, ◌<◌, ◌≡◌, ◌≢◌, sym, ap, ◌∙◌, true, ◌&&◌, arith, ltb, leb, if◌then◌else◌,
}
use project.Log.{
  Block, Log, set_at, install_trans, read_head, read_blocks, write_head, recover_from_log,
}
use project.Log.Disk.{outside, Logged, Represents, Installing, EndsIn, EndsIn-bind}
use project.Log.Install.{Installed, Cleared, install_from-EndsIn, clear-EndsIn}

read_blocks_lem :
    (lh : Block) (i left : ℕ) (block : ℕ → ℕ) (j : ℕ)
    → read_blocks lh i left block j ≡ (if leb i j && ltb j (i + left) then lh (j + 1) else block j)
read_blocks_lem lh i zero block j = ground arith
read_blocks_lem lh i (suc left) block j =
    ground (arith, read_blocks_lem lh (i + 1) left (set_at block i (lh (i + 1))) j)

module _ (s : Log) (h : Block) (head : s.cache s.start ≡ h) where
  read_count : s.cache s.start 0 ≡ h 0
  read_count = ap (λ g. g 0) head

  blocks_read :
      (i : ℕ)
      → i < s.cache s.start 0
      → read_blocks (s.cache s.start) 0 (s.cache s.start 0) s.block i ≡ h (i + 1)
  blocks_read i lt =
      read_blocks_lem (s.cache s.start) 0 (s.cache s.start 0) s.block i
      ∙ (let guard : (leb 0 i && ltb i (0 + s.cache s.start 0)) ≡ true = ground arith in
          rw guard (ap (λ g. g (i + 1)) head))

read_head-Installing :
    (s : Log) (h : Block) (v : ℕ → Block)
    → s.cache ≡ s.disk
    → Logged s.start h s.disk v
    → Installing 0 h v (read_head s)
unfolding read_head
read_head-Installing s h v same l =
    let head : s.cache s.start ≡ h = ap (λ f. f s.start) same ∙ l.head in
    let count = read_count s h head in
    let ahead : (b : ℕ)
        → outside s.start b ≡ true
        → ((i : ℕ)
            → 0 ≤ i
            → i < s.cache s.start 0
            → read_blocks (s.cache s.start) 0 (s.cache s.start 0) s.block i ≢ b)
        → s.disk b ≡ v b =
      λ b out none_left. l.rest b out (λ i lt e.
        none_left i (omega arith) (omega (arith, count))
          (blocks_read s h head i (omega (arith, count)) ∙ e)) in
    record {
      logged = l;
      same_count = count;
      same_blocks = blocks_read s h head;
      cached_slots = λ i lt.
          ap (λ f. f (s.start + i + 1)) same
          ∙ l.slots i (omega (arith, count))
          ∙ ap v (sym (blocks_read s h head i lt));
      disk_ahead = ahead;
      cache_ahead = λ b out none_left. ap (λ f. f b) same ∙ ahead b out none_left;
    }

-- recover_from_log in a memory whose cache is the disk, whatever number of writes to the disk comes
-- before a crash. Where it crashes, the disk still stands, once its log is installed, for the same
-- blocks outside of the log area. Otherwise these are on the disk and in the cache, and the log is
-- empty, on the disk and in memory.
pub recover_from_log-EndsIn :
    (start : ℕ) (v : ℕ → Block) (s : Log)
    → s.start ≡ start
    → s.cache ≡ s.disk
    → Represents start s.disk v
    → EndsIn (λ d. Represents start d v) (Cleared start v) (recover_from_log s)
unfolding recover_from_log install_trans read_head
recover_from_log-EndsIn start v s st same (h, l) =
    EndsIn-bind (λ d. Represents start d v) (Cleared start v) (Installed start h v)
      (install_trans true (read_head s)) (λ t. write_head (record t { n = 0 }))
      (install_from-EndsIn start h v true 0 (read_head s).n (read_head s) st
        (read_head-Installing s h v same (rw st l)) (omega arith))
      (λ t w. clear-EndsIn start h v t w)
