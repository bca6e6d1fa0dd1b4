-- ===== src/Fs/Room.antt =====
-- Room in the log for the calls of log_write that a function of kernel/fs.c makes.
use project.Base.{
  ==-refl, ℕ, ◌+◌, ◌-◌, ◌*◌, ◌/◌, ◌%◌, ◌==◌, ◌≤◌, ◌≡◌, refl, ◌∙◌, ap, none, some, inl, inr, true,
  false, List, [], ◌∷◌, arith, leb, ltb, if◌then◌else◌, Bool-cases,
}
use project.Base.Lists.{has, has-append, length, length-append}
use project.Log.{logsize}
use Prim.Native.Nat.{min}
use project.Fs.{bsize, Fs, Cmd, ◌>>=◌, log_write, refuses, enter}

-- An operation is in progress, and `k` more blocks fit the log.
pub record Room (k : ℕ) (s : Fs) : Type 0 where
  pub begun : 1 ≤ s.outstanding
  pub header : length s.logged + k ≤ logsize
  pub on_disk : length s.logged + k ≤ s.log_size - 1

-- At most `k` blocks have been logged in addition, and no block has left the log.
pub record Logs (k : ℕ) (s t : Fs) : Type 0 where
  pub same_op : t.outstanding ≡ s.outstanding
  pub same_size : t.log_size ≡ s.log_size
  pub more : length t.logged ≤ length s.logged + k
  pub keeps : (b : ℕ) → has b s.logged ≡ true → has b t.logged ≡ true

pub Room-less : (k j : ℕ) (s : Fs) → j ≤ k → Room k s → Room j s
Room-less k j s le r = record {
  begun = r.begun;
  header = omega (arith, r.header);
  on_disk = omega (arith, r.on_disk);
}

pub Room-after : (k j : ℕ) (s t : Fs) → Logs k s t → Room (k + j) s → Room j t
Room-after k j s t l r = record {
  begun = omega (arith, r.begun, l.same_op);
  header = omega (arith, r.header, l.more);
  on_disk = omega (arith, r.on_disk, l.more, l.same_size);
}

pub Logs-trans : (k j : ℕ) (s t u : Fs) → Logs k s t → Logs j t u → Logs (k + j) s u
Logs-trans k j s t u p q = record {
  same_op = q.same_op ∙ p.same_op;
  same_size = q.same_size ∙ p.same_size;
  more = omega (arith, p.more, q.more);
  keeps = λ b h. q.keeps b (p.keeps b h);
}

pub Logs-less : (k j : ℕ) (s t : Fs) → j ≤ k → Logs j s t → Logs k s t
Logs-less k j s t le l = record {
  same_op = l.same_op;
  same_size = l.same_size;
  more = omega (arith, l.more);
  keeps = l.keeps;
}

pub length-enter : (b : ℕ) (xs : List ℕ) → length (enter b xs) ≤ length xs + 1
length-enter b xs = elim (Bool-cases (has b xs)) [
  | inl h ↦ rw h (omega arith)
  | inr h ↦ rw (h, length-append xs (b ∷ [])) (omega arith)
]

-- log_write enters the block and takes none out.
pub has-enter : (a b : ℕ) (xs : List ℕ) → has b xs ≡ true → has b (enter a xs) ≡ true
has-enter a b xs m = elim (Bool-cases (has a xs)) [
  | inl h ↦ rw h m
  | inr h ↦ rw (h, has-append b xs (a ∷ []), m) refl
]

pub enter-has : (a : ℕ) (xs : List ℕ) → has a (enter a xs) ≡ true
enter-has a xs = elim (Bool-cases (has a xs)) [
  | inl h ↦ rw h h
  | inr h ↦ rw (h, has-append a xs (a ∷ []), h, ==-refl a) refl
]

-- log_write panics only without room for a block.
pub refuses_lem : (s : Fs) → refuses s.logged s.outstanding s.log_size ≡ true → Room 1 s → ⊥
unfolding refuses
refuses_lem s h r =
    let a : leb logsize (length s.logged) ≡ false = ground (arith, r.header) in
    let b : leb (s.log_size - 1) (length s.logged) ≡ false = ground (arith, r.on_disk) in
    let c : ltb s.outstanding 1 ≡ false = ground (arith, r.begun) in
    let no : refuses s.logged s.outstanding s.log_size ≡ false = rw (a, b, c) refl in ground arith

-- A command whose first part panics, or answers `a`.
pub bind_none :
    {A B : Type 0} (m : Cmd A) (k : A → Cmd B) (s : Fs) → m s ≡ none → (m >>= k) s ≡ none
bind_none m k s e = ap (λ o. elim o [ none ↦ none | some (a, t) ↦ k a t ]) e

pub bind_some :
    {A B : Type 0} (m : Cmd A) (k : A → Cmd B) (s t : Fs) (a : A)
    → m s ≡ some (a, t)
    → (m >>= k) s ≡ k a t
bind_some m k s t a e = ap (λ o. elim o [ none ↦ none | some (a, t) ↦ k a t ]) e

pub log_write-none :
    (b : ℕ) (s : Fs) → refuses s.logged s.outstanding s.log_size ≡ true → log_write b s ≡ none
log_write-none b s h = rw h refl

pub log_write-some :
    (b : ℕ) (s : Fs)
    → refuses s.logged s.outstanding s.log_size ≡ false
    → log_write b s ≡ some (tt, record s { logged = enter b s.logged })
log_write-some b s h = rw h refl

-- How many blocks a range of bytes touches.
abbrev pub blocks : (off left : ℕ) → ℕ
blocks off left = if left == 0 then 0 else (off + left - 1) / bsize - off / bsize + 1

pub blocks_step :
    (off left m : ℕ)
    → (left == 0) ≡ false
    → m ≡ min left (bsize - off % bsize)
    → 6 + 6 * blocks (off + m) (left - m) ≤ 6 * blocks off left
blocks_step off left m more e = elim (Bool-cases (left - m == 0)) [
  | inl z ↦ rw (more, z) (omega arith)
  | inr rest ↦ rw (more, rest) (ground arith)
]
