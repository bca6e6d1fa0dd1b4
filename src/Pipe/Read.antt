-- ===== src/Pipe/Read.antt =====
-- piperead of kernel/pipe.c: which bytes it delivers, and which it loses.
use project.Base.{
  ℕ, zero, suc, ◌+◌, ◌≡◌, refl, sym, ◌∙◌, ap, ◌⊎◌, inl, inr, Bool, true, false, ◌&&◌, List, [], ◌∷◌,
  ◌++◌, arith, Bool-cases, eq_of_==,
}
use mathlib.Core.List.{append_assoc, append-nil}
use project.Base.Lists.{length}
use project.Pipe.{
  Pipe, writers, Outcome, returned, failed, asleep, acquire_pipe, release_pipe, finish, count,
  empty, user_at, next_byte, drop_byte, read_loop, piperead,
}
use project.Pipe.Contents.{Bounded, contents, size, contents-drop_byte, empty_iff, Bounded-same}

-- What copyout writes for the bytes `xs` from `addr + i` on.
abbrev pub stores : ℕ → ℕ → List ℕ → List (ℕ × ℕ)
stores addr i [] = []
stores addr i (x ∷ xs) = (user_at addr i, x) ∷ stores addr (i + 1) xs

module _ (copyout : ℕ → Bool) (addr : ℕ) where
  -- The bytes `xs` went from the pipe `pi` to the user, from `i` up to `j`, and `lost` went
  -- nowhere.
  pub record Delivered (i : ℕ) (pi : Pipe) (j : ℕ) (xs lost : List ℕ) (pi' : Pipe) : Type 0 where
    pub bounded : Bounded pi'
    pub up_to : j ≡ i + length xs
    pub queue : contents pi ≡ xs ++ (lost ++ contents pi')
    pub same_nwrite : pi'.nwrite ≡ pi.nwrite
    pub same_readopen : pi'.readopen ≡ pi.readopen
    pub same_writeopen : pi'.writeopen ≡ pi.writeopen
    pub woken_writers : pi'.woken ≡ pi.woken ++ (writers ∷ [])
    pub unlocked : pi'.locked ≡ false

  -- Why the copying ends: enough bytes, or no more bytes, with none lost; or copyout fails, and the
  -- byte that it was for is lost.
  abbrev pub Stopped : ℕ → ℕ → ℕ → List ℕ → Pipe → Type 0
  Stopped i left j lost pi' =
      ((lost ≡ []) × ((j ≡ i + left) ⊎ (contents pi' ≡ [])))
      ⊎ ((x : ℕ) × (lost ≡ x ∷ []) × (copyout (user_at addr j) ≡ false))

  abbrev pub Copied : ℕ → ℕ → Pipe → List (ℕ × ℕ) → Outcome → Type 0
  Copied i left pi before (returned j copied pi') =
      (xs : List ℕ) × (lost : List ℕ) × Delivered i pi j xs lost pi'
      × (copied ≡ before ++ stores addr i xs)
      × Stopped i left j lost pi'
  Copied i left pi before (failed pi') = ⊥
  Copied i left pi before (asleep j pi') = ⊥

  Copied-drop :
      (i left : ℕ) (pi : Pipe) (before : List (ℕ × ℕ)) (o : Outcome)
      → Bounded pi
      → empty pi ≡ false
      → Copied (i + 1) left (drop_byte pi) (before ++ ((user_at addr i, next_byte pi) ∷ [])) o
      → Copied i (suc left) pi before o
  Copied-drop i left pi before (returned j copied pi') b some_byte (xs, lost, d, c, e) = (
    next_byte pi ∷ xs,
    lost,
    record {
      bounded = d.bounded;
      up_to = omega (arith, d.up_to);
      queue = (contents-drop_byte pi b some_byte).1 ∙ ap (λ l. next_byte pi ∷ l) d.queue;
      same_nwrite = d.same_nwrite;
      same_readopen = d.same_readopen;
      same_writeopen = d.same_writeopen;
      woken_writers = d.woken_writers;
      unlocked = d.unlocked;
    },
    c ∙ append_assoc before ((user_at addr i, next_byte pi) ∷ []) (stores addr (i + 1) xs),
    elim e [
      | inl (n, inl h) ↦ inl (n, inl (omega arith))
      | inl (n, inr h) ↦ inl (n, inr h)
      | inr h ↦ inr h
    ],
  )
  Copied-drop i left pi before (failed pi') b some_byte d = d
  Copied-drop i left pi before (asleep j pi') b some_byte d = d

  contents-empty : (pi : Pipe) → Bounded pi → empty pi ≡ true → contents pi ≡ []
  contents-empty pi b e = rw (eq_of_== (size pi) 0 (sym (empty_iff pi b) ∙ e)) refl

  no_bytes : (i : ℕ) (pi : Pipe) → Bounded pi → Delivered i pi i [] [] (finish writers pi)
  no_bytes i pi b = record {
    bounded = Bounded-same pi (finish writers pi) refl refl b;
    up_to = omega arith;
    queue = refl;
    same_nwrite = refl;
    same_readopen = refl;
    same_writeopen = refl;
    woken_writers = refl;
    unlocked = refl;
  }

  one_lost :
      (i : ℕ) (pi : Pipe)
      → Bounded pi
      → empty pi ≡ false
      → Delivered i pi i [] (next_byte pi ∷ []) (finish writers (drop_byte pi))
  one_lost i pi b some_byte = record {
    bounded =
        Bounded-same (drop_byte pi) (finish writers (drop_byte pi)) refl refl
          (contents-drop_byte pi b some_byte).0;
    up_to = omega arith;
    queue = (contents-drop_byte pi b some_byte).1;
    same_nwrite = refl;
    same_readopen = refl;
    same_writeopen = refl;
    woken_writers = refl;
    unlocked = refl;
  }

  pub read_loop-Copied :
      (killed : Bool) (i left : ℕ) (pi : Pipe) (before : List (ℕ × ℕ))
      → Bounded pi
      → Copied i left pi before (read_loop copyout killed addr i before left pi)
  unfolding read_loop
  read_loop-Copied killed i zero pi before b =
      ([], [], no_bytes i pi b, sym (append-nil before), inl (refl, inl (omega arith)))
  read_loop-Copied killed i (suc left) pi before b = elim (Bool-cases (empty pi)) [
    | inl h ↦
        rw h (
          [],
          [],
          no_bytes i pi b,
          sym (append-nil before),
          inl (refl, inr (contents-empty pi b h)),
        )
    | inr h ↦ elim (Bool-cases (copyout (user_at addr i))) [
      | inl c ↦ rw h (
          rw c (
            Copied-drop i left pi before
              (read_loop copyout killed addr (i + 1)
                (before ++ ((user_at addr i, next_byte pi) ∷ [])) left (drop_byte pi))
              b h
              (read_loop-Copied killed (i + 1) left (drop_byte pi)
                (before ++ ((user_at addr i, next_byte pi) ∷ [])) (contents-drop_byte pi b h).0)))
      | inr c ↦ rw h (
          rw c (
            [],
            next_byte pi ∷ [],
            one_lost i pi b h,
            sym (append-nil before),
            inr (next_byte pi, refl, c),
          ))
    ]
  ]

  -- The outcome of piperead.
  abbrev pub Answered : Bool → ℕ → Pipe → Outcome → Type 0
  Answered killed n pi (returned j copied pi') = Copied 0 (count n) pi [] (returned j copied pi')
  Answered killed n pi (failed pi') =
      (contents pi ≡ []) × (pi.writeopen ≡ true) × (killed ≡ true) × (pi' ≡ release_pipe pi)
  Answered killed n pi (asleep j pi') =
      (contents pi ≡ []) × (pi.writeopen ≡ true) × (killed ≡ false) × (pi' ≡ release_pipe pi)

  Answered_of_Copied :
      (killed : Bool) (n : ℕ) (pi : Pipe) (o : Outcome)
      → Copied 0 (count n) pi [] o
      → Answered killed n pi o
  Answered_of_Copied killed n pi (returned j copied pi') c = c
  Answered_of_Copied killed n pi (failed pi') c = absurd c
  Answered_of_Copied killed n pi (asleep j pi') c = absurd c

  copied :
      (killed : Bool) (n : ℕ) (pi : Pipe)
      → Bounded pi
      → Answered killed n
          (acquire_pipe pi)
          (read_loop copyout killed addr 0 [] (count n) (acquire_pipe pi))
  copied killed n pi b =
      Answered_of_Copied killed n (acquire_pipe pi)
        (read_loop copyout killed addr 0 [] (count n) (acquire_pipe pi))
        (read_loop-Copied killed 0 (count n) (acquire_pipe pi) []
          (Bounded-same pi (acquire_pipe pi) refl refl b))

  -- piperead of a pipe within its bounds. It sleeps or fails only on an empty pipe whose write end
  -- is open, and changes nothing. Otherwise the bytes that it copies out, to consecutive addresses,
  -- are the first of the pipe in their order, the pipe keeps the others, and it stops at the number
  -- asked for, at the end of the pipe, or where copyout fails; then, and only then, one byte is
  -- lost. The lock is released and the writers are woken.
  pub piperead-Answered :
      (killed : Bool) (n : ℕ) (pi : Pipe)
      → Bounded pi
      → Answered killed n (acquire_pipe pi) (piperead copyout killed addr n pi)
  unfolding piperead
  piperead-Answered killed n pi b = elim (Bool-cases (empty pi && pi.writeopen)) [
    | inl h ↦ elim (Bool-cases killed) [
      | inl k ↦ rw h (rw k (contents-empty pi b (ground arith), ground arith, refl, refl))
      | inr k ↦ rw h (rw k (contents-empty pi b (ground arith), ground arith, refl, refl))
    ]
    | inr h ↦ rw h (copied killed n pi b)
  ]
