-- ===== src/Log/Install.antt =====
-- install_trans and recover_from_log of kernel/log.c: the disk that the log on it stands for, and
-- that installing and recovering keep it, also where they crash.
use project.Base.{
  ℕ, zero, suc, ◌+◌, ◌-◌, ◌<◌, ◌≡◌, refl, sym, ap, ◌∙◌, Bool, true, false, arith, if◌then◌else◌,
}
use project.Log.{Block, Log, set_at, bwrite, copy_block, bunpin, install_from, write_head, header}
use project.Log.Disk.{
  outside, Represents, set_at-other, set_at-same, Logged-home, Ahead-step, Installing, EndsIn,
  EndsIn-bind, bwrite-EndsIn,
}

-- One entry is installed.
install_entry :
    (tail : ℕ) (h : Block) (v : ℕ → Block) (s : Log) (m : ℕ) (pins : ℕ → ℕ)
    → Installing tail h v s
    → tail < s.n
    → Installing (tail + 1) h v (record (copy_block (s.block tail) (s.start + tail + 1) s) {
      disk =
          set_at s.disk
            (s.block tail)
            (set_at s.cache (s.block tail) (s.cache (s.start + tail + 1)) (s.block tail));
      budget = m;
      pins = pins;
    })
install_entry tail h v s m pins w lt =
    let e = w.cached_slots tail lt in
    let home : outside s.start (s.block tail) ≡ true =
      ap (outside s.start) (w.same_blocks tail lt)
      ∙ w.logged.homes tail (omega (arith, w.same_count)) in
    let x = set_at-same s.cache (s.block tail) (s.cache (s.start + tail + 1)) ∙ e in
    record {
      logged =
          Logged-home s.start (s.block tail) h s.disk v
            (set_at s.cache (s.block tail) (s.cache (s.start + tail + 1)) (s.block tail)) w.logged
            home x;
      same_count = w.same_count;
      same_blocks = w.same_blocks;
      cached_slots = λ i il.
          set_at-other s.cache (s.block tail) (s.cache (s.start + tail + 1)) (s.start + i + 1)
            (ground (arith, home, w.same_count, w.logged.count_bound))
          ∙ w.cached_slots i il;
      disk_ahead = Ahead-step s.start s.n s.block tail s.disk v _ x w.disk_ahead;
      cache_ahead =
          Ahead-step s.start s.n s.block tail s.cache v (s.cache (s.start + tail + 1)) e
            w.cache_ahead;
    }

-- Every entry is installed.
pub record Installed (start : ℕ) (h : Block) (v : ℕ → Block) (s : Log) : Type 0 where
  pub same_start : s.start ≡ start
  pub tail : ℕ
  pub last : tail ≡ s.n
  pub entries : Installing tail h v s

abbrev unpinned : Bool → ℕ → Log → Log
unpinned recovering tail t = if recovering then t else bunpin (t.block tail) t

-- The state after an entry of the loop.
abbrev Next : ℕ → Block → (ℕ → Block) → ℕ → ℕ → Log → Type 0
Next start h v tail left u =
    (u.start ≡ start) × Installing (tail + 1) h v u × (tail + 1 + left ≡ u.n)

Next-entry :
    (recovering : Bool) (tail left : ℕ) (start : ℕ) (h : Block) (v : ℕ → Block) (s : Log) (m : ℕ)
    → s.start ≡ start
    → Installing tail h v s
    → tail + suc left ≡ s.n
    → Next start h v tail left (
        unpinned recovering tail (record (copy_block (s.block tail) (s.start + tail + 1) s) {
          disk =
              set_at s.disk
                (s.block tail)
                (set_at s.cache (s.block tail) (s.cache (s.start + tail + 1)) (s.block tail));
          budget = m;
        }))
Next-entry true tail left start h v s m st w e =
    (st, install_entry tail h v s m s.pins w (omega (arith, e)), omega (arith, e))
Next-entry false tail left start h v s m st w e = (
  st,
  install_entry tail h v s m (set_at s.pins (s.block tail) (s.pins (s.block tail) - 1)) w
      (omega (arith, e)),
  omega (arith, e),
)

abbrev pub OutsideSame : ℕ → (ℕ → Block) → (ℕ → Block) → Type 0
OutsideSame start d v = (b : ℕ) → outside start b ≡ true → d b ≡ v b

-- A state whose log is empty, on the disk and in memory, with the blocks `v` on the disk.
pub record Cleared (start : ℕ) (v : ℕ → Block) (s : Log) : Type 0 where
  pub same_start : s.start ≡ start
  pub no_entries : s.n ≡ 0
  pub represents : Represents start s.disk v
  pub empty_header : s.disk start 0 ≡ 0
  pub cached : OutsideSame start s.cache v
  pub on_disk : OutsideSame start s.disk v

-- Writing the header block.
Cleared-write :
    (s : Log) (h x : Block) (v : ℕ → Block) (tail m : ℕ)
    → x 0 ≡ 0
    → tail ≡ s.n
    → Installing tail h v s
    → Cleared s.start v (record s {
      n = 0;
      cache = set_at s.cache s.start x;
      disk = set_at s.disk s.start (set_at s.cache s.start x s.start);
      budget = m;
    })
Cleared-write s h x v tail m zero_count last w =
    let H = set_at s.cache s.start x s.start in
    let hx : H ≡ x = set_at-same s.cache s.start x in
    let none_left : H 0 ≡ 0 = ap (λ g. g 0) hx ∙ zero_count in
    let disk_same : OutsideSame s.start (set_at s.disk s.start H) v = λ b out.
      set_at-other s.disk s.start H b (ground arith)
      ∙ w.disk_ahead b out (λ i le lt. absurd (omega (arith, last))) in
    record {
      same_start = refl;
      no_entries = refl;
      represents = (
        H,
        record {
          head = set_at-same s.disk s.start H;
          count_bound = omega (arith, none_left);
          slots = λ i lt. absurd (omega (arith, none_left));
          homes = λ i lt. absurd (omega (arith, none_left));
          rest = λ b out _. disk_same b out;
        },
      );
      empty_header = ap (λ g. g 0) (set_at-same s.disk s.start H) ∙ none_left;
      cached = λ b out.
          set_at-other s.cache s.start x b (ground arith)
          ∙ w.cache_ahead b out (λ i le lt. absurd (omega (arith, last)));
      on_disk = disk_same;
    }

module _ (start : ℕ) (h : Block) (v : ℕ → Block) where
  abbrev Disks : (ℕ → Block) → Type 0
  Disks d = Represents start d v

  pub install_from-EndsIn :
      (recovering : Bool) (tail left : ℕ) (s : Log)
      → s.start ≡ start
      → Installing tail h v s
      → tail + left ≡ s.n
      → EndsIn Disks (Installed start h v) (install_from recovering tail left s)
  unfolding install_from
  install_from-EndsIn recovering tail zero s st w e = record {
    same_start = st;
    tail = tail;
    last = omega (arith, e);
    entries = w;
  }
  install_from-EndsIn recovering tail (suc left) s st w e =
      let lt : tail < s.n = omega (arith, e) in
      EndsIn-bind Disks (Installed start h v)
        (λ t. Next start h v tail left (unpinned recovering tail t))
        (bwrite (s.block tail) (copy_block (s.block tail) (s.start + tail + 1) s))
        (λ t. install_from recovering (tail + 1) left (unpinned recovering tail t))
        (bwrite-EndsIn Disks _ (s.block tail) (copy_block (s.block tail) (s.start + tail + 1) s)
          (rw (sym st) (h, w.logged)) (λ m. Next-entry recovering tail left start h v s m st w e))
        (λ t i.
          install_from-EndsIn recovering (tail + 1) left (unpinned recovering tail t) i.0 i.1 i.2)

  -- Where all entries are installed, the header with no entries is written.
  pub clear-EndsIn :
      (s : Log)
      → Installed start h v s
      → EndsIn Disks (Cleared start v) (write_head (record s { n = 0 }))
  unfolding write_head header
  clear-EndsIn s w =
      bwrite-EndsIn Disks _ s.start
        (record s { n = 0; cache = set_at s.cache s.start (set_at (s.cache s.start) 0 0) })
        (rw (sym w.same_start) (h, w.entries.logged))
        (λ m.
          rw (sym w.same_start)
            (Cleared-write s h (set_at (s.cache s.start) 0 0) v w.tail m refl w.last w.entries))
