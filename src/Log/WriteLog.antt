-- ===== src/Log/WriteLog.antt =====
-- write_log and write_head of kernel/log.c: the log area and its header for the blocks of the
-- cache.
use project.Base.{
  ℕ, zero, suc, ◌+◌, ◌-◌, ◌≤◌, ◌<◌, ◌≡◌, ◌≢◌, refl, sym, ap, ◌∙◌, inl, inr, true, false, ◌&&◌,
  arith, ltb, leb, ◌==◌, if◌then◌else◌, Bool-cases, eq_of_==,
}
use project.Log.{Block, Log, set_at, logsize, copy_block, header, write_blocks}
use project.Log.Disk.{outside, Represents, Installing, set_at-other, set_at-same}

-- A state in which the entries before `tail` are in the log area, for the blocks `new` of the
-- cache; the disk stands for `old`, with the header block `h` that has no entries.
pub record Writing (tail start : ℕ) (h : Block) (old new : ℕ → Block) (s : Log) : Type 0 where
  pub same_start : s.start ≡ start
  pub count_bound : s.n ≤ logsize
  pub homes : (i : ℕ) → i < s.n → outside start (s.block i) ≡ true
  pub head : s.disk start ≡ h
  pub no_entries : h 0 ≡ 0
  pub disk_old : (b : ℕ) → outside start b ≡ true → s.disk b ≡ old b
  pub cache_new : (b : ℕ) → outside start b ≡ true → s.cache b ≡ new b
  pub unlogged :
      (b : ℕ) → outside start b ≡ true → ((i : ℕ) → i < s.n → s.block i ≢ b) → s.disk b ≡ new b
  pub disk_slots : (i : ℕ) → i < tail → s.disk (start + i + 1) ≡ new (s.block i)
  pub cache_slots : (i : ℕ) → i < tail → s.cache (start + i + 1) ≡ new (s.block i)

pub Writing-Represents :
    (tail start : ℕ) (h : Block) (old new : ℕ → Block) (s : Log)
    → Writing tail start h old new s
    → Represents start s.disk old
Writing-Represents tail start h old new s w = (
  h,
  record {
    head = w.head;
    count_bound = omega (arith, w.no_entries);
    slots = λ i lt. absurd (omega (arith, w.no_entries));
    homes = λ i lt. absurd (omega (arith, w.no_entries));
    rest = λ b out _. w.disk_old b out;
  },
)

slot-step :
    (d : ℕ → Block) (start tail : ℕ) (x : Block) (block : ℕ → ℕ) (new : ℕ → Block)
    → x ≡ new (block tail)
    → ((i : ℕ) → i < tail → d (start + i + 1) ≡ new (block i))
    → (i : ℕ) → i < tail + 1
    → set_at d (start + tail + 1) x (start + i + 1) ≡ new (block i)
slot-step d start tail x block new e before i lt = elim (Bool-cases (i == tail)) [
  | inl h ↦ rw (eq_of_== i tail h) (set_at-same d (start + tail + 1) x ∙ e)
  | inr h ↦
      set_at-other d (start + tail + 1) x (start + i + 1) (ground arith) ∙ before i (ground arith)
]

pub write_entry :
    (tail : ℕ) (h : Block) (old new : ℕ → Block) (s : Log) (m : ℕ)
    → Writing tail s.start h old new s
    → tail < s.n
    → Writing
        (tail + 1)
        s.start
        h
        old
        new
        (record (copy_block (s.start + tail + 1) (s.block tail) s) {
          disk =
              set_at s.disk
                (s.start + tail + 1)
                (set_at s.cache (s.start + tail + 1) (s.cache (s.block tail)) (s.start + tail + 1));
          budget = m;
        })
write_entry tail h old new s m w lt =
    let slot = s.start + tail + 1 in
    let x = set_at s.cache slot (s.cache (s.block tail)) slot in
    let got = w.cache_new (s.block tail) (w.homes tail lt) in
    let other : (b : ℕ) → outside s.start b ≡ true → (b == slot) ≡ false =
      λ b out. ground (arith, w.count_bound) in
    record {
      same_start = refl;
      count_bound = w.count_bound;
      homes = w.homes;
      head = set_at-other s.disk slot x s.start (ground arith) ∙ w.head;
      no_entries = w.no_entries;
      disk_old = λ b out. set_at-other s.disk slot x b (other b out) ∙ w.disk_old b out;
      cache_new = λ b out.
          set_at-other s.cache slot (s.cache (s.block tail)) b (other b out) ∙ w.cache_new b out;
      unlogged = λ b out none_left.
          set_at-other s.disk slot x b (other b out) ∙ w.unlogged b out none_left;
      disk_slots =
          slot-step s.disk s.start tail x s.block new
            (set_at-same s.cache slot (s.cache (s.block tail)) ∙ got) w.disk_slots;
      cache_slots =
          slot-step s.cache s.start tail (s.cache (s.block tail)) s.block new got w.cache_slots;
    }

write_blocks_lem :
    (block : ℕ → ℕ) (i left : ℕ) (hb : Block) (j : ℕ)
    → write_blocks block i left hb j
      ≡ (if leb (i + 1) j && ltb j (i + 1 + left) then block (j - 1) else hb j)
write_blocks_lem block i zero hb j = ground arith
write_blocks_lem block i (suc left) hb j =
    ground (arith, write_blocks_lem block (i + 1) left (set_at hb (i + 1) (block i)) j)

-- The header block names the entries.
header-count : (s : Log) → header s 0 ≡ s.n
unfolding header
header-count s = write_blocks_lem s.block 0 s.n (set_at (s.cache s.start) 0 s.n) 0

header-block : (s : Log) (i : ℕ) → i < s.n → header s (i + 1) ≡ s.block i
unfolding header
header-block s i lt =
    write_blocks_lem s.block 0 s.n (set_at (s.cache s.start) 0 s.n) (i + 1)
    ∙ (let guard : (leb 1 (i + 1) && ltb (i + 1) (1 + s.n)) ≡ true = ground arith in
        rw guard (ap s.block (omega arith)))

-- Once the header is on the disk, the disk stands for the new blocks.
pub seal :
    (h : Block) (old new : ℕ → Block) (s : Log) (m : ℕ) (x : Block)
    → x ≡ header s
    → Writing s.n s.start h old new s
    → Installing 0 x new (record s {
      cache = set_at s.cache s.start (header s);
      disk = set_at s.disk s.start x;
      budget = m;
    })
seal h old new s m x hx w =
    let count : x 0 ≡ s.n = ap (λ g. g 0) hx ∙ header-count s in
    let entry : (i : ℕ) → i < s.n → x (i + 1) ≡ s.block i =
      λ i lt. ap (λ g. g (i + 1)) hx ∙ header-block s i lt in
    record {
      logged = record {
        head = set_at-same s.disk s.start x;
        count_bound = omega (arith, w.count_bound);
        slots = λ i lt.
            set_at-other s.disk s.start x (s.start + i + 1) (ground arith)
            ∙ w.disk_slots i (omega (arith, count))
            ∙ ap new (sym (entry i (omega (arith, count))));
        homes = λ i lt.
            ap (outside s.start) (entry i (omega (arith, count)))
            ∙ w.homes i (omega (arith, count));
        rest = λ b out none_left.
            set_at-other s.disk s.start x b (ground arith)
            ∙ w.unlogged b out (λ i lt e. none_left i (omega (arith, count)) (entry i lt ∙ e));
      };
      same_count = sym count;
      same_blocks = λ i lt. sym (entry i lt);
      cached_slots = λ i lt.
          set_at-other s.cache s.start (header s) (s.start + i + 1) (ground arith)
          ∙ w.cache_slots i lt;
      disk_ahead = λ b out none_left.
          set_at-other s.disk s.start x b (ground arith)
          ∙ w.unlogged b out (λ i lt. none_left i (omega arith) lt);
      cache_ahead = λ b out none_left.
          set_at-other s.cache s.start (header s) b (ground arith) ∙ w.cache_new b out;
    }
