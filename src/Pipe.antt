-- ===== src/Pipe.antt =====
-- kernel/pipe.c: the pipe buffer, and its operations as one CPU runs them between two sleeps. The
-- free-running counters nread and nwrite are 32-bit unsigned numbers, and wrap. What copyin finds
-- at a user address, whether copyout may write to one, and what killed answers are arguments.
pub mod Contents
pub mod Write
pub mod Read
mod Tests
use project.Base.{
  ℕ, zero, suc, ◌+◌, ◌-◌, ◌%◌, ◌^◌, Bool, true, false, not, ◌&&◌, ◌||◌, Option, none, some, List,
  [], ◌∷◌, ◌++◌, ltb, ◌==◌, if◌then◌else◌,
}

abbrev pub pipesize : ℕ
pipesize = 512

-- The channels &pi->nread and &pi->nwrite.
pub data Channel : Type 0 where
  readers : Channel
  writers : Channel

-- struct pipe, with the wakeups that were sent, in order.
pub record Pipe : Type 0 where
  pub bytes : ℕ → ℕ
  pub nread : ℕ
  pub nwrite : ℕ
  pub readopen : Bool
  pub writeopen : Bool
  pub locked : Bool
  pub woken : List Channel

-- How a call leaves the CPU: it returned a number, it returned -1, or it sleeps with `i` bytes
-- done. `copied` has the addresses and bytes that copyout wrote.
pub data Outcome : Type 0 where
  returned : (i : ℕ) (copied : List (ℕ × ℕ)) (pi : Pipe) → Outcome
  failed : (pi : Pipe) → Outcome
  asleep : (i : ℕ) (pi : Pipe) → Outcome

abbrev pub acquire_pipe : Pipe → Pipe
acquire_pipe pi = record pi { locked = true }

abbrev pub release_pipe : Pipe → Pipe
release_pipe pi = record pi { locked = false }

abbrev pub wakeup_pipe : Channel → Pipe → Pipe
wakeup_pipe c pi = record pi { woken = pi.woken ++ (c ∷ []) }

abbrev pub store : (ℕ → ℕ) → ℕ → ℕ → ℕ → ℕ
store d a x b = if b == a then x else d b

-- The number of passes of a loop from 0 to the int `n`.
abbrev pub count : ℕ → ℕ
count n = if ltb n (2 ^ 31) then n else 0

abbrev pub full : Pipe → Bool
full pi = pi.nwrite == ((pi.nread + pipesize) % 2 ^ 32)

abbrev pub empty : Pipe → Bool
empty pi = pi.nread == pi.nwrite

-- pi->data[pi->nwrite++ % PIPESIZE] = ch
abbrev pub put : ℕ → Pipe → Pipe
put ch pi = record pi {
  bytes = store pi.bytes (pi.nwrite % pipesize) ch;
  nwrite = (pi.nwrite + 1) % 2 ^ 32;
}

-- ch = pi->data[pi->nread++ % PIPESIZE]
abbrev pub next_byte : Pipe → ℕ
next_byte pi = pi.bytes (pi.nread % pipesize)

abbrev pub drop_byte : Pipe → Pipe
drop_byte pi = record pi { nread = (pi.nread + 1) % 2 ^ 32 }

abbrev pub finish : Channel → Pipe → Pipe
finish c pi = release_pipe (wakeup_pipe c pi)

-- addr + i, a 64-bit address.
abbrev pub user_at : ℕ → ℕ → ℕ
user_at addr i = (addr + i) % 2 ^ 64

module _ (copyin : ℕ → Option ℕ) (killed : ℕ → Bool) (addr : ℕ) where
  -- The loop of pipewrite from byte `i` on, with the number of passes that are left.
  unfoldable pub write_loop : ℕ → ℕ → Pipe → Outcome
  write_loop i zero pi = returned i [] (finish readers pi)
  write_loop i (suc left) pi =
      if not pi.readopen || killed i
      then failed (release_pipe pi)
      else (if full pi then asleep i (finish readers pi) else elim (copyin (user_at addr i)) [
        | none ↦ returned i [] (finish readers pi)
        | some ch ↦ write_loop (i + 1) left (put ch pi)
      ])

  -- pipewrite from its start, and after it slept with `i` bytes written.
  unfoldable pub write_again : ℕ → ℕ → Pipe → Outcome
  write_again n i pi = write_loop i (count n - i) (acquire_pipe pi)

  unfoldable pub pipewrite : ℕ → Pipe → Outcome
  pipewrite n pi = write_again n 0 pi

module _ (copyout : ℕ → Bool) (killed : Bool) (addr : ℕ) where
  -- The copying loop of piperead, with the bytes copied so far.
  unfoldable pub read_loop : ℕ → List (ℕ × ℕ) → ℕ → Pipe → Outcome
  read_loop i copied zero pi = returned i copied (finish writers pi)
  read_loop i copied (suc left) pi =
      let rest =
        read_loop (i + 1) (copied ++ ((user_at addr i, next_byte pi) ∷ [])) left (drop_byte pi) in
      if empty pi
      then returned i copied (finish writers pi)
      else (if copyout (user_at addr i)
          then rest
          else returned i copied (finish writers (drop_byte pi)))

  -- piperead from its start, and each time that it wakes up.
  unfoldable pub piperead : ℕ → Pipe → Outcome
  piperead n pi =
      if empty pi && pi.writeopen
      then (if killed
          then failed (release_pipe (acquire_pipe pi))
          else asleep 0 (release_pipe (acquire_pipe pi)))
      else read_loop 0 [] (count n) (acquire_pipe pi)

-- pipeclose, and whether it frees the pipe.
unfoldable pub pipeclose : Bool → Pipe → Bool × Pipe
pipeclose writable pi =
    let closed =
      if writable
      then wakeup_pipe readers (record (acquire_pipe pi) { writeopen = false })
      else wakeup_pipe writers (record (acquire_pipe pi) { readopen = false }) in
    (not closed.readopen && not closed.writeopen, release_pipe closed)

abbrev pub pipecount : Pipe → ℕ
pipecount pi = pi.nread
