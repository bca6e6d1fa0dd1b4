-- ===== src/Log/Ops.antt =====
-- begin_op, log_write and end_op of kernel/log.c: what they keep for the commit.
use project.Base.{
  ℕ, zero, suc, ◌+◌, ◌-◌, ◌≤◌, ◌<◌, ◌≡◌, ◌≢◌, sym, ◌∙◌, ap, ==-ne, inl, inr, true, false, ◌||◌,
  arith, ltb, leb, ◌==◌, Bool-cases, eq_of_==,
}
use project.Log.{Log, set_at, logsize, find_block, log_write}
use project.Log.Disk.{outside, EndsIn, set_at-other, set_at-same}
use project.Log.Commit.{Ready}

module _ (block : ℕ → ℕ) (b : ℕ) where
  find_block-bounds :
      (i left : ℕ) → (i ≤ find_block block b i left) × (find_block block b i left ≤ i + left)
  find_block-bounds i zero = (omega arith, omega arith)
  find_block-bounds i (suc left) =
      let next = find_block-bounds (i + 1) left in (ground (arith, next.0), ground (arith, next.1))

  find_block-at :
      (i left : ℕ)
      → find_block block b i left < i + left
      → (block (find_block block b i left) == b) ≡ true
  find_block-at i zero lt = absurd (omega arith)
  find_block-at i (suc left) lt = elim (Bool-cases (block i == b)) [
    | inl h ↦ rw h h
    | inr h ↦ rw h (find_block-at (i + 1) left (ground arith))
  ]

-- A state that is ready for commit, except that the cache may also differ from the disk in block
-- `b`.
pub record Touched (b : ℕ) (s : Log) : Type 0 where
  pub empty_header : s.disk s.start 0 ≡ 0
  pub homes : (i : ℕ) → i < s.n → outside s.start (s.block i) ≡ true
  pub unlogged :
      (c : ℕ)
      → outside s.start c ≡ true
      → (c == b) ≡ false
      → ((i : ℕ) → i < s.n → s.block i ≢ c)
      → s.disk c ≡ s.cache c

-- An entry for `b` at `i`, in a log with `n'` entries.
logged-Ready :
    (b i n' : ℕ) (pins : ℕ → ℕ) (s : Log)
    → Touched b s
    → outside s.start b ≡ true
    → i < n'
    → n' ≤ logsize
    → s.n ≤ n'
    → ((j : ℕ) → j < n' → (j == i) ≡ false → j < s.n)
    → (i < s.n → (s.block i == b) ≡ true)
    → Ready (record s { block = set_at s.block i b; pins = pins; n = n' })
logged-Ready b i n' pins s t out lt bound grows old at = record {
  empty_header = t.empty_header;
  count_bound = bound;
  homes = λ j jl. elim (Bool-cases (j == i)) [
    | inl h ↦ rw h out
    | inr h ↦ rw h (t.homes j (old j jl h))
  ];
  unlogged = λ c oc none_left.
      t.unlogged c oc (==-ne c b (λ e. none_left i lt (set_at-same s.block i b ∙ sym e))) (λ j jl e.
        elim (Bool-cases (j == i)) [
          | inl h ↦
              let same = eq_of_== j i h in
              absurd (
                none_left i lt (
                  set_at-same s.block i b
                  ∙ sym (eq_of_== (s.block i) b (at (omega arith)))
                  ∙ ap s.block (sym same)
                  ∙ e))
          | inr h ↦ none_left j (omega arith) (set_at-other s.block i b j h ∙ e)
        ]);
}

-- log_write of a block outside of the log area, inside an operation and with room in the log: it
-- does not panic; the block is then one of the entries, of which there is at most one more, and the
-- state is ready for commit if before it was, but for that block.
pub log_write-Ready :
    (b : ℕ) (s : Log)
    → Touched b s
    → outside s.start b ≡ true
    → s.n < logsize
    → s.n < s.size - 1
    → 1 ≤ s.outstanding
    → EndsIn
        (λ _. ⊥)
        (λ t. Ready t × ((i : ℕ) × (i < t.n) × (t.block i ≡ b)) × (t.n ≤ s.n + 1))
        (log_write b s)
unfolding log_write
log_write-Ready b s t out room fits inside =
    let i = find_block s.block b 0 s.n in
    let bounds = find_block-bounds s.block b 0 s.n in
    let guard : (leb logsize s.n || leb (s.size - 1) s.n) ≡ false = ground arith in
    let admitted : ltb s.outstanding 1 ≡ false = ground arith in
    rw guard (
      rw admitted (elim (Bool-cases (i == s.n)) [
        | inl h ↦ rw h (
          logged-Ready b i (s.n + 1) (set_at s.pins b (s.pins b + 1)) s t out (ground arith)
              (omega arith) (omega arith) (λ j jl ne. ground (arith, eq_of_== i s.n h))
              (λ lt. absurd (omega (arith, eq_of_== i s.n h))),
          (i, ground arith, set_at-same s.block i b),
          omega arith,
        )
        | inr h ↦ rw h (
          logged-Ready b i s.n s.pins s t out (ground arith) (omega arith) (omega arith)
              (λ j jl ne. jl) (λ lt. find_block-at s.block b 0 s.n (omega arith)),
          (i, ground arith, set_at-same s.block i b),
          omega arith,
        )
      ]))
