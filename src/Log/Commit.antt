-- ===== src/Log/Commit.antt =====
-- commit of kernel/log.c: a crash at any write to the disk leaves the blocks as they were before,
-- or all as they are after.
use project.Base.{
  ℕ, zero, suc, ◌+◌, ◌≤◌, ◌<◌, ◌≡◌, ◌≢◌, refl, sym, ◌⊎◌, inl, inr, true, false, arith, ltb,
  Bool-cases,
}
use mathlib.Core.Path.{subst}
use project.Log.{
  Block, Log, set_at, logsize, Run, crashed, panicked, done, bwrite, and_then, copy_block,
  install_trans, write_head, header, write_log, write_log_from, commit, reboot, initlog,
}
use project.Log.Disk.{
  outside, Represents, Installing, EndsIn, EndsIn-bind, bwrite-EndsIn, set_at-same,
}
use project.Log.Install.{Installed, Cleared, install_from-EndsIn, clear-EndsIn}
use project.Log.Recover.{recover_from_log-EndsIn}
use project.Log.WriteLog.{Writing, Writing-Represents, write_entry, seal}

module _ (start : ℕ) (h : Block) (old new : ℕ → Block) where
  -- The disk stands for the old blocks or for the new ones.
  abbrev pub Either : (ℕ → Block) → Type 0
  Either d = Represents start d old ⊎ Represents start d new

  at_start :
      (tail : ℕ) (s : Log) → Writing tail start h old new s → Writing tail s.start h old new s
  at_start tail s w = subst (λ a. Writing tail a h old new s) (sym w.same_start) w

  write_log_from-EndsIn :
      (tail left : ℕ) (s : Log)
      → Writing tail start h old new s
      → tail + left ≡ s.n
      → EndsIn Either (λ t. Writing t.n start h old new t) (write_log_from tail left s)
  unfolding write_log_from
  write_log_from-EndsIn tail zero s w e =
      let last : tail ≡ s.n = omega (arith, e) in subst (λ k. Writing k start h old new s) last w
  write_log_from-EndsIn tail (suc left) s w e =
      EndsIn-bind Either (λ t. Writing t.n start h old new t)
        (λ t. Writing (tail + 1) start h old new t × (tail + 1 + left ≡ t.n))
        (bwrite (s.start + tail + 1) (copy_block (s.start + tail + 1) (s.block tail) s))
        (λ t. write_log_from (tail + 1) left t)
        (bwrite-EndsIn Either _ (s.start + tail + 1)
          (copy_block (s.start + tail + 1) (s.block tail) s)
          (inl (Writing-Represents tail start h old new s w))
          (λ m. (
            rw (sym w.same_start)
                (write_entry tail h old new s m (at_start tail s w) (omega (arith, e))),
            omega (arith, e),
          )))
        (λ t i. write_log_from-EndsIn (tail + 1) left t i.0 i.1)

  EndsIn-new :
      (P : Log → Type 0) (r : Run) → EndsIn (λ d. Represents start d new) P r → EndsIn Either P r
  EndsIn-new P (crashed d) e = inr e
  EndsIn-new P panicked e = e
  EndsIn-new P (done s) e = e

  write_head-EndsIn :
      (s : Log)
      → Writing s.n start h old new s
      → EndsIn Either (λ u. (u.start ≡ start) × ((x : Block) × Installing 0 x new u)) (write_head s)
  unfolding write_head
  write_head-EndsIn s w =
      bwrite-EndsIn Either _ s.start (record s { cache = set_at s.cache s.start (header s) })
        (inl (Writing-Represents s.n start h old new s w))
        (λ m.
          let x = set_at s.cache s.start (header s) s.start in
          (
            w.same_start,
            (x, seal h old new s m x (set_at-same s.cache s.start (header s)) (at_start s.n s w)),
          ))

  -- The entries are installed and the header is cleared.
  finish_commit :
      (u : Log)
      → (u.start ≡ start) × ((x : Block) × Installing 0 x new u)
      → EndsIn Either
          (Cleared start new)
          (and_then (install_trans false u) (λ v. write_head (record v { n = 0 })))
  unfolding install_trans
  finish_commit u (st, (x, i)) =
      EndsIn-new (Cleared start new)
        (and_then (install_trans false u) (λ v. write_head (record v { n = 0 })))
        (EndsIn-bind (λ d. Represents start d new) (Cleared start new) (Installed start x new)
          (install_trans false u) (λ v. write_head (record v { n = 0 }))
          (install_from-EndsIn start x new false 0 u.n u st i (omega arith))
          (λ t w. clear-EndsIn start x new t w))

  run_commit :
      (s : Log)
      → Writing 0 start h old new s
      → EndsIn Either (Cleared start new) (
          and_then (write_log s) (λ t.
            and_then
              (write_head t)
              (λ u. and_then (install_trans false u) (λ v. write_head (record v { n = 0 })))))
  unfolding write_log
  run_commit s w =
      EndsIn-bind Either (Cleared start new) (λ t. Writing t.n start h old new t) (write_log s)
        (λ t.
          and_then (write_head t)
            (λ u. and_then (install_trans false u) (λ v. write_head (record v { n = 0 }))))
        (write_log_from-EndsIn 0 s.n s w (omega arith))
        (λ t wt.
          EndsIn-bind Either (Cleared start new)
            (λ u. (u.start ≡ start) × ((x : Block) × Installing 0 x new u)) (write_head t)
            (λ u. and_then (install_trans false u) (λ v. write_head (record v { n = 0 })))
            (write_head-EndsIn t wt) finish_commit)

-- What commit relies on: the log on the disk is empty, at most 30 entries in memory name blocks
-- outside of the log area, and the cache differs from the disk, outside of the log area, in those
-- blocks only.
pub record Ready (s : Log) : Type 0 where
  pub empty_header : s.disk s.start 0 ≡ 0
  pub count_bound : s.n ≤ logsize
  pub homes : (i : ℕ) → i < s.n → outside s.start (s.block i) ≡ true
  pub unlogged :
      (b : ℕ)
      → outside s.start b ≡ true
      → ((i : ℕ) → i < s.n → s.block i ≢ b)
      → s.disk b ≡ s.cache b

Ready-Writing : (s : Log) → Ready s → Writing 0 s.start (s.disk s.start) s.disk s.cache s
Ready-Writing s r = record {
  same_start = refl;
  count_bound = r.count_bound;
  homes = r.homes;
  head = refl;
  no_entries = r.empty_header;
  disk_old = λ b out. refl;
  cache_new = λ b out. refl;
  unlogged = r.unlogged;
  disk_slots = λ i lt. absurd (omega arith);
  cache_slots = λ i lt. absurd (omega arith);
}

nothing-Cleared : (s : Log) → Ready s → s.n ≡ 0 → Cleared s.start s.cache s
nothing-Cleared s r none_left =
    let same : (b : ℕ) → outside s.start b ≡ true → s.disk b ≡ s.cache b =
      λ b out. r.unlogged b out (λ i lt. absurd (omega (arith, none_left))) in
    record {
      same_start = refl;
      no_entries = none_left;
      represents = (
        s.disk s.start,
        record {
          head = refl;
          count_bound = omega (arith, r.empty_header);
          slots = λ i lt. absurd (omega (arith, r.empty_header));
          homes = λ i lt. absurd (omega (arith, r.empty_header));
          rest = λ b out _. same b out;
        },
      );
      empty_header = r.empty_header;
      cached = λ b out. refl;
      on_disk = same;
    }

-- commit of such a state, whatever number of writes to the disk comes before a crash. Where it
-- crashes, the disk stands, once its log is installed, for the blocks that were on the disk before,
-- or for those of the cache. Otherwise the blocks of the cache are on the disk outside of the log
-- area, and the log is empty, on the disk and in memory.
pub commit-EndsIn :
    (s : Log)
    → Ready s
    → EndsIn (Either s.start (s.disk s.start) s.disk s.cache) (Cleared s.start s.cache) (commit s)
unfolding commit
commit-EndsIn s r = elim (Bool-cases (ltb 0 s.n)) [
  | inr h ↦ rw h (nothing-Cleared s r (ground arith))
  | inl h ↦ rw h (run_commit s.start (s.disk s.start) s.disk s.cache s (Ready-Writing s r))
]

-- A crash in commit, and a reboot that may crash again: after the reboot, initlog leaves, outside
-- of the log area, either every block that was on the disk before the commit or every block of the
-- cache, and where it crashes, the disk still stands for the same blocks.
pub crash-initlog :
    (s : Log) (d : ℕ → Block) (budget nlog : ℕ)
    → Ready s
    → commit s ≡ crashed d
    → EndsIn
        (λ d'. Represents s.start d' s.disk)
        (Cleared s.start s.disk)
        (initlog s.start nlog (reboot budget d))
      ⊎ EndsIn
          (λ d'. Represents s.start d' s.cache)
          (Cleared s.start s.cache)
          (initlog s.start nlog (reboot budget d))
unfolding initlog
crash-initlog s d budget nlog r e =
    elim (subst (EndsIn (Either s.start (s.disk s.start) s.disk s.cache) (Cleared s.start s.cache))
      e (commit-EndsIn s r)) [
        | inl old ↦ inl (
            recover_from_log-EndsIn s.start s.disk
              (record (reboot budget d) { start = s.start; size = nlog }) refl refl old)
        | inr new ↦ inr (
            recover_from_log-EndsIn s.start s.cache
              (record (reboot budget d) { start = s.start; size = nlog }) refl refl new)
      ]
