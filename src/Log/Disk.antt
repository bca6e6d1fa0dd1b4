-- ===== src/Log/Disk.antt =====
-- The disk that the log of kernel/log.c stands for, and what a run that may crash ends with.
use project.Base.{
  ℕ, zero, suc, ◌+◌, ◌≤◌, ◌<◌, ◌≡◌, ◌≢◌, refl, sym, ap, ◌∙◌, Bool, true, false, ◌||◌, arith, ltb,
  ◌==◌, ==-refl, Bool-cases, eq_of_==, ◌⊎◌, inl, inr,
}
use project.Log.{Block, Log, set_at, logsize, Run, crashed, panicked, done, bwrite, and_then}

-- The block is not in the log area: the header block and the 30 blocks after it.
abbrev pub outside : ℕ → ℕ → Bool
outside start b = ltb b start || ltb (start + logsize) b

-- The disk `d` has the header block `h`, and with its log installed, it has the blocks `v` outside
-- of the log area.
pub record Logged (start : ℕ) (h : Block) (d v : ℕ → Block) : Type 0 where
  pub head : d start ≡ h
  pub count_bound : h 0 ≤ logsize
  pub slots : (i : ℕ) → i < h 0 → d (start + i + 1) ≡ v (h (i + 1))
  pub homes : (i : ℕ) → i < h 0 → outside start (h (i + 1)) ≡ true
  pub rest : (b : ℕ) → outside start b ≡ true → ((i : ℕ) → i < h 0 → h (i + 1) ≢ b) → d b ≡ v b

-- The disk stands for the blocks `v`.
abbrev pub Represents : ℕ → (ℕ → Block) → (ℕ → Block) → Type 0
Represents start d v = (h : Block) × Logged start h d v

pub set_at-other :
    {A : Type 0} (f : ℕ → A) (b : ℕ) (x : A) (c : ℕ) → (c == b) ≡ false → set_at f b x c ≡ f c
set_at-other f b x c h = rw h refl

pub set_at-same : {A : Type 0} (f : ℕ → A) (b : ℕ) (x : A) → set_at f b x b ≡ x
set_at-same f b x = rw (==-refl b) refl

set_at-home :
    (d v : ℕ → Block) (b : ℕ) (x : Block) (c : ℕ)
    → x ≡ v b
    → ((c == b) ≡ false → d c ≡ v c)
    → set_at d b x c ≡ v c
set_at-home d v b x c e other = elim (Bool-cases (c == b)) [
  | inl h ↦ rw h (e ∙ ap v (sym (eq_of_== c b h)))
  | inr h ↦ set_at-other d b x c h ∙ other h
]

-- Writing a block of `v` home.
pub Logged-home :
    (start b : ℕ) (h : Block) (d v : ℕ → Block) (x : Block)
    → Logged start h d v
    → outside start b ≡ true
    → x ≡ v b
    → Logged start h (set_at d b x) v
Logged-home start b h d v x r out e = record {
  head = set_at-other d b x start (ground arith) ∙ r.head;
  count_bound = r.count_bound;
  slots = λ i lt. set_at-other d b x (start + i + 1) (ground (arith, r.count_bound)) ∙ r.slots i lt;
  homes = r.homes;
  rest = λ c oc none_left. set_at-home d v b x c e (λ _. r.rest c oc none_left);
}

-- Blocks that the disk, or the cache, does not yet have are those of the entries from `tail` on.
abbrev pub Ahead : ℕ → ℕ → (ℕ → ℕ) → ℕ → (ℕ → Block) → (ℕ → Block) → Type 0
Ahead start n block tail d v =
    (b : ℕ) → outside start b ≡ true → ((i : ℕ) → tail ≤ i → i < n → block i ≢ b) → d b ≡ v b

pub Ahead-step :
    (start n : ℕ) (block : ℕ → ℕ) (tail : ℕ) (d v : ℕ → Block) (x : Block)
    → x ≡ v (block tail)
    → Ahead start n block tail d v
    → Ahead start n block (tail + 1) (set_at d (block tail) x) v
Ahead-step start n block tail d v x e a b out none_left = set_at-home d v (block tail) x b e (λ h.
    a b out (λ i le lt. elim (Bool-cases (i == tail)) [
      | inl same ↦ λ eq. absurd (ground (arith, eq, h, eq_of_== i tail same))
      | inr other ↦ none_left i (ground arith) lt
    ]))

-- A state in which the entries before `tail` are installed; the log in memory is that of the header
-- `h`.
pub record Installing (tail : ℕ) (h : Block) (v : ℕ → Block) (s : Log) : Type 0 where
  pub logged : Logged s.start h s.disk v
  pub same_count : s.n ≡ h 0
  pub same_blocks : (i : ℕ) → i < s.n → s.block i ≡ h (i + 1)
  pub cached_slots : (i : ℕ) → i < s.n → s.cache (s.start + i + 1) ≡ v (s.block i)
  pub disk_ahead : Ahead s.start s.n s.block tail s.disk v
  pub cache_ahead : Ahead s.start s.n s.block tail s.cache v

-- What a run ends with: a disk that stands for `v` where it crashes, else a state with `P`.
abbrev pub EndsIn : ((ℕ → Block) → Type 0) → (Log → Type 0) → Run → Type 0
EndsIn D P (crashed d) = D d
EndsIn D P panicked = ⊥
EndsIn D P (done s) = P s

ℕ-cases : (n : ℕ) → (n ≡ 0) ⊎ ((m : ℕ) × (n ≡ suc m))
ℕ-cases zero = inl refl
ℕ-cases (suc n) = inr (n, refl)

module _ (D : (ℕ → Block) → Type 0) (P : Log → Type 0) where
  pub EndsIn-bind :
      (Q : Log → Type 0) (r : Run) (f : Log → Run)
      → EndsIn D Q r
      → ((s : Log) → Q s → EndsIn D P (f s))
      → EndsIn D P (and_then r f)
  EndsIn-bind Q (crashed d) f e g = e
  EndsIn-bind Q panicked f e g = e
  EndsIn-bind Q (done s) f e g = g s e

  pub bwrite-EndsIn :
      (b : ℕ) (s : Log)
      → D s.disk
      → ((m : ℕ) → P (record s { disk = set_at s.disk b (s.cache b); budget = m }))
      → EndsIn D P (bwrite b s)
  bwrite-EndsIn b s crash written = elim (ℕ-cases s.budget) [
    | inl e ↦ rw e crash
    | inr (m, e) ↦ rw e (written m)
  ]
