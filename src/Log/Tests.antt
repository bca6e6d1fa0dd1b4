-- ===== src/Log/Tests.antt =====
-- The theorems on kernel/log.c at a small disk: the log area starts at block 2, and block 40 was
-- changed in the cache.
use project.Base.{ℕ, ◌+◌, ◌<◌, ◌≤◌, ◌≡◌, ◌⊎◌, refl, false, arith, ◌==◌, ==-ne, sym}
use project.Log.{
  Block, Log, set_at, Run, crashed, done, commit, log_write, reboot, initlog, recover_from_log,
}
use project.Log.Disk.{Represents, EndsIn}
use project.Log.Install.{Cleared}
use project.Log.Commit.{Ready, Either, commit-EndsIn, crash-initlog}
use project.Log.Ops.{Touched, log_write-Ready}

abbrev empty_disk : ℕ → Block
empty_disk b w = 0

abbrev changed : Log
changed = record {
  disk = empty_disk;
  cache = set_at empty_disk 40 (λ w. 5);
  pins = λ b. 0;
  start = 2;
  size = 31;
  outstanding = 1;
  committing = false;
  n = 0;
  block = λ i. 0;
  budget = 1;
}

abbrev logged : Log
logged = record changed {
  pins = set_at changed.pins 40 1;
  n = 1;
  block = set_at changed.block 0 40;
}

changed-Touched : Touched 40 changed
changed-Touched = record {
  empty_header = refl;
  homes = λ i lt. absurd (omega arith);
  unlogged = λ c out ne none_left. rw ne refl;
}

logged-Ready : Ready logged
logged-Ready = record {
  empty_header = refl;
  count_bound = omega arith;
  homes = λ i lt. ground arith;
  unlogged = λ b out none_left.
      let ne : (b == 40) ≡ false = ==-ne b 40 (λ e. none_left 0 (omega arith) (sym e)) in
      rw ne refl;
}

log_write-logged : log_write 40 changed ≡ done logged
unfolding log_write
log_write-logged = refl

log_write-Ready_example :
    EndsIn
      (λ _. ⊥)
      (λ t. Ready t × ((i : ℕ) × (i < t.n) × (t.block i ≡ 40)) × (t.n ≤ 0 + 1))
      (log_write 40 changed)
log_write-Ready_example =
    log_write-Ready 40 changed changed-Touched refl (omega arith) (omega arith) (omega arith)

commit-EndsIn_example :
    EndsIn
      (Either 2 (empty_disk 2) empty_disk logged.cache)
      (Cleared 2 logged.cache)
      (commit logged)
commit-EndsIn_example = commit-EndsIn logged logged-Ready

-- The disk after the one write that the budget allows: the log area has the block, but no header.
abbrev after_crash : ℕ → Block
after_crash = set_at empty_disk 3 (λ w. 5)

commit-crash : commit logged ≡ crashed after_crash
unfolding commit project.Log.write_log project.Log.write_log_from project.Log.write_head
    project.Log.header
commit-crash = refl

crash-initlog_example :
    EndsIn
      (λ d. Represents 2 d empty_disk)
      (Cleared 2 empty_disk)
      (initlog 2 31 (reboot 9 after_crash))
    ⊎ EndsIn
        (λ d. Represents 2 d logged.cache)
        (Cleared 2 logged.cache)
        (initlog 2 31 (reboot 9 after_crash))
crash-initlog_example = crash-initlog logged after_crash 9 31 logged-Ready commit-crash

-- A disk with a committed entry that is not installed yet.
abbrev committed : ℕ → Block
committed = set_at after_crash 2 (set_at (set_at (empty_disk 2) 0 1) 1 40)

committed-Represents : Represents 2 committed logged.cache
committed-Represents = (
  committed 2,
  record {
    head = refl;
    count_bound = omega arith;
    slots = λ i lt. let first : i ≡ 0 = omega arith in rw first refl;
    homes = λ i lt. let first : i ≡ 0 = omega arith in rw first refl;
    rest = λ b out none_left.
        let ne : (b == 40) ≡ false = ==-ne b 40 (λ e. none_left 0 (omega arith) (sym e)) in
        let no_header : (b == 2) ≡ false = ground arith in
        let no_slot : (b == 3) ≡ false = ground arith in rw ne (rw no_header (rw no_slot refl));
  },
)
