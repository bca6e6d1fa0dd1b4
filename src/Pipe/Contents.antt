-- ===== src/Pipe/Contents.antt =====
-- What the counters of kernel/pipe.c stand for: the bytes that are in the buffer, oldest first.
use project.Base.{
  ℕ, zero, suc, ◌+◌, ◌-◌, ◌%◌, ◌^◌, ◌≤◌, ◌<◌, ◌≡◌, refl, ◌∙◌, ap, false, List, [], ◌∷◌, ◌++◌, arith,
  ◌==◌, ==-refl,
}
use project.Base.Lists.{length}
use project.Pipe.{Pipe, pipesize, store, put, next_byte, drop_byte, full, empty}

-- The number of bytes in the buffer.
abbrev pub size : Pipe → ℕ
size pi = (pi.nwrite + 2 ^ 32 - pi.nread) % 2 ^ 32

-- The `n` bytes from the free-running index `r` on.
abbrev pub queued : (ℕ → ℕ) → ℕ → ℕ → List ℕ
queued d r zero = []
queued d r (suc n) = d (r % pipesize) ∷ queued d (r + 1) n

abbrev pub contents : Pipe → List ℕ
contents pi = queued pi.bytes pi.nread (size pi)

-- The counters are 32-bit numbers, at most the buffer's size apart.
pub record Bounded (pi : Pipe) : Type 0 where
  pub nread_bound : pi.nread < 2 ^ 32
  pub nwrite_bound : pi.nwrite < 2 ^ 32
  pub size_bound : size pi ≤ pipesize

pub length-queued : (d : ℕ → ℕ) (r n : ℕ) → length (queued d r n) ≡ n
length-queued d r zero = refl
length-queued d r (suc n) = ap suc (length-queued d (r + 1) n)

pub queued_congr :
    (d : ℕ → ℕ) (r s n : ℕ) → r % pipesize ≡ s % pipesize → queued d r n ≡ queued d s n
queued_congr d r s zero h = refl
queued_congr d r s (suc n) h =
    rw h (ap (λ l. d (s % pipesize) ∷ l) (queued_congr d (r + 1) (s + 1) n (omega arith)))

queued-store :
    (d : ℕ → ℕ) (r n w x : ℕ)
    → r + n ≤ w
    → w < r + pipesize
    → queued (store d (w % pipesize) x) r n ≡ queued d r n
queued-store d r zero w x h b = refl
queued-store d r (suc n) w x h b =
    ground (arith, queued-store d (r + 1) n w x (omega arith) (omega arith))

-- One byte more at the end.
queued_snoc :
    (d : ℕ → ℕ) (r n : ℕ) → queued d r (suc n) ≡ queued d r n ++ (d ((r + n) % pipesize) ∷ [])
queued_snoc d r zero = let h : r ≡ r + 0 = omega arith in ap (λ a. d (a % pipesize) ∷ []) h
queued_snoc d r (suc n) = ground (arith, queued_snoc d (r + 1) n)

pub full_iff : (pi : Pipe) → Bounded pi → full pi ≡ (size pi == pipesize)
full_iff pi b = ground (arith, b.nread_bound, b.nwrite_bound, b.size_bound)

pub empty_iff : (pi : Pipe) → Bounded pi → empty pi ≡ (size pi == 0)
empty_iff pi b = ground (arith, b.nread_bound, b.nwrite_bound)

queued-put :
    (d : ℕ → ℕ) (r n w x : ℕ)
    → n < pipesize
    → w % pipesize ≡ (r + n) % pipesize
    → queued (store d (w % pipesize) x) r (suc n) ≡ queued d r n ++ (x ∷ [])
queued-put d r n w x b h =
    queued_snoc (store d (w % pipesize) x) r n
    ∙ rw h (rw (queued-store d r n (r + n) x (omega arith) (omega arith)) (simp ==-refl))

-- Bytes go in at the end and come out at the front.
size-put : (ch : ℕ) (pi : Pipe) → Bounded pi → full pi ≡ false → size (put ch pi) ≡ suc (size pi)
size-put ch pi b room = ground (arith, b.nread_bound, b.nwrite_bound, b.size_bound, full_iff pi b)

size-drop_byte : (pi : Pipe) → Bounded pi → empty pi ≡ false → size pi ≡ suc (size (drop_byte pi))
size-drop_byte pi b some_byte = ground (arith, b.nread_bound, b.nwrite_bound, empty_iff pi b)

pub contents-put :
    (ch : ℕ) (pi : Pipe)
    → Bounded pi
    → full pi ≡ false
    → Bounded (put ch pi) × (contents (put ch pi) ≡ contents pi ++ (ch ∷ []))
contents-put ch pi b room = (
  record {
    nread_bound = b.nread_bound;
    nwrite_bound = omega arith;
    size_bound = ground (arith, size-put ch pi b room, b.size_bound, full_iff pi b);
  },
  rw (size-put ch pi b room) (
      queued-put pi.bytes pi.nread (size pi) pi.nwrite ch
        (ground (arith, full_iff pi b, b.size_bound))
        (omega (arith, b.nread_bound, b.nwrite_bound))),
)

pub contents-drop_byte :
    (pi : Pipe)
    → Bounded pi
    → empty pi ≡ false
    → Bounded (drop_byte pi) × (contents pi ≡ next_byte pi ∷ contents (drop_byte pi))
contents-drop_byte pi b some_byte = (
  record {
    nread_bound = omega arith;
    nwrite_bound = b.nwrite_bound;
    size_bound = omega (arith, size-drop_byte pi b some_byte, b.size_bound);
  },
  rw (size-drop_byte pi b some_byte) (
      ap (λ l. next_byte pi ∷ l)
        (queued_congr pi.bytes (pi.nread + 1) ((pi.nread + 1) % 2 ^ 32) (size (drop_byte pi))
          (omega arith))),
)

-- The bounds depend on the counters only.
pub Bounded-same :
    (pi pi' : Pipe) → pi'.nread ≡ pi.nread → pi'.nwrite ≡ pi.nwrite → Bounded pi → Bounded pi'
Bounded-same pi pi' r w b = record {
  nread_bound = omega (arith, b.nread_bound);
  nwrite_bound = omega (arith, b.nwrite_bound);
  size_bound = rw r (rw w b.size_bound);
}
