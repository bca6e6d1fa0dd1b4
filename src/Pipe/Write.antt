-- ===== src/Pipe/Write.antt =====
-- pipewrite of kernel/pipe.c: what it puts into the buffer, and how it ends.
use project.Base.{
  ℕ, zero, suc, ◌+◌, ◌-◌, ◌≤◌, ◌<◌, ◌≡◌, refl, sym, ◌∙◌, ap, ◌⊎◌, inl, inr, Bool, true, false, not,
  ◌||◌, Option, none, some, List, [], ◌∷◌, ◌++◌, arith, Bool-cases, Option-cases, eq_of_==,
}
use mathlib.Core.List.{append_assoc, append-nil}
use project.Base.Lists.{length}
use project.Pipe.{
  Pipe, Channel, readers, Outcome, returned, failed, asleep, acquire_pipe, count, full, put,
  user_at, pipesize, write_loop, write_again,
}
use project.Pipe.Contents.{
  Bounded, contents, size, contents-put, length-queued, full_iff, Bounded-same,
}

stopped : (a b : Bool) → (not a || b) ≡ true → (a ≡ false) ⊎ (b ≡ true)
stopped true b h = inr h
stopped false b h = inl refl

module _ (copyin : ℕ → Option ℕ) (killed : ℕ → Bool) (addr : ℕ) where
  -- The bytes at the user addresses from `addr + i` on.
  abbrev pub Copies : ℕ → List ℕ → Type 0
  Copies i [] = Unit
  Copies i (x ∷ xs) = (copyin (user_at addr i) ≡ some x) × Copies (i + 1) xs

  -- The bytes `xs` were put into the pipe `pi`, which is then `pi'`; they go from `i` up to `j`.
  pub record Progress (i left : ℕ) (pi : Pipe) (j : ℕ) (xs : List ℕ) (pi' : Pipe) : Type 0 where
    pub bounded : Bounded pi'
    pub copies : Copies i xs
    pub up_to : j ≡ i + length xs
    pub at_most : length xs ≤ left
    pub queue : contents pi' ≡ contents pi ++ xs
    pub same_nread : pi'.nread ≡ pi.nread
    pub same_readopen : pi'.readopen ≡ pi.readopen
    pub same_writeopen : pi'.writeopen ≡ pi.writeopen
    pub unlocked : pi'.locked ≡ false

  -- How the loop ends: all bytes are in or copyin fails at the next; the read end is closed or the
  -- process killed; or the buffer is full and bytes are left.
  abbrev pub Written : ℕ → ℕ → Pipe → Outcome → Type 0
  Written i left pi (returned j copied pi') =
      ((xs : List ℕ) × Progress i left pi j xs pi')
      × (copied ≡ [])
      × (pi'.woken ≡ pi.woken ++ (readers ∷ []))
      × ((j ≡ i + left) ⊎ (copyin (user_at addr j) ≡ none))
  Written i left pi (failed pi') =
      (j : ℕ) × ((xs : List ℕ) × Progress i left pi j xs pi')
      × ((pi.readopen ≡ false) ⊎ (killed j ≡ true))
      × (pi'.woken ≡ pi.woken)
  Written i left pi (asleep j pi') =
      ((xs : List ℕ) × Progress i left pi j xs pi')
      × (length (contents pi') ≡ pipesize)
      × (j < i + left)
      × (pi'.woken ≡ pi.woken ++ (readers ∷ []))

  Progress-none :
      (i left : ℕ) (pi pi' : Pipe)
      → Bounded pi'
      → contents pi' ≡ contents pi
      → pi'.nread ≡ pi.nread
      → pi'.readopen ≡ pi.readopen
      → pi'.writeopen ≡ pi.writeopen
      → pi'.locked ≡ false
      → Progress i left pi i [] pi'
  Progress-none i left pi pi' b same r o w l = record {
    bounded = b;
    copies = tt;
    up_to = omega arith;
    at_most = omega arith;
    queue = same ∙ sym (append-nil (contents pi));
    same_nread = r;
    same_readopen = o;
    same_writeopen = w;
    unlocked = l;
  }

  Progress-put :
      (i left : ℕ) (pi : Pipe) (ch j : ℕ) (xs : List ℕ) (pi' : Pipe)
      → Bounded pi
      → full pi ≡ false
      → copyin (user_at addr i) ≡ some ch
      → Progress (i + 1) left (put ch pi) j xs pi'
      → Progress i (suc left) pi j (ch ∷ xs) pi'
  Progress-put i left pi ch j xs pi' b room got p = record {
    bounded = p.bounded;
    copies = (got, p.copies);
    up_to = omega (arith, p.up_to);
    at_most = omega (arith, p.at_most);
    queue =
        p.queue
        ∙ ap (λ l. l ++ xs) (contents-put ch pi b room).1
        ∙ append_assoc (contents pi) (ch ∷ []) xs;
    same_nread = p.same_nread;
    same_readopen = p.same_readopen;
    same_writeopen = p.same_writeopen;
    unlocked = p.unlocked;
  }

  Written-put :
      (i left : ℕ) (pi : Pipe) (ch : ℕ) (o : Outcome)
      → Bounded pi
      → full pi ≡ false
      → copyin (user_at addr i) ≡ some ch
      → Written (i + 1) left (put ch pi) o
      → Written i (suc left) pi o
  Written-put i left pi ch (returned j copied pi') b room got ((xs, p), c, w, e) = (
    (ch ∷ xs, Progress-put i left pi ch j xs pi' b room got p),
    c,
    w,
    elim e [ inl d ↦ inl (omega arith) | inr d ↦ inr d ],
  )
  Written-put i left pi ch (failed pi') b room got (j, (xs, p), e, w) =
      (j, (ch ∷ xs, Progress-put i left pi ch j xs pi' b room got p), e, w)
  Written-put i left pi ch (asleep j pi') b room got ((xs, p), e, l, w) =
      ((ch ∷ xs, Progress-put i left pi ch j xs pi' b room got p), e, omega arith, w)

  -- Nothing is put, and only the lock and the wakeups change.
  untouched :
      (i left : ℕ) (pi : Pipe) (w : List Channel)
      → Bounded pi
      → Progress i left pi i [] (record pi { locked = false; woken = w })
  untouched i left pi w b =
      Progress-none i left pi (record pi { locked = false; woken = w })
        (Bounded-same pi (record pi { locked = false; woken = w }) refl refl b) refl refl refl refl
        refl

  pub write_loop-Written :
      (i left : ℕ) (pi : Pipe)
      → Bounded pi
      → Written i left pi (write_loop copyin killed addr i left pi)
  unfolding write_loop
  write_loop-Written i zero pi b =
      (([], untouched i zero pi (pi.woken ++ (readers ∷ [])) b), refl, refl, inl (omega arith))
  write_loop-Written i (suc left) pi b = elim (Bool-cases (not pi.readopen || killed i)) [
    | inl h ↦
        rw h (i, ([], untouched i (suc left) pi pi.woken b), stopped pi.readopen (killed i) h, refl)
    | inr h ↦ elim (Bool-cases (full pi)) [
      | inl f ↦ rw h (
          rw f (
            ([], untouched i (suc left) pi (pi.woken ++ (readers ∷ [])) b),
            length-queued pi.bytes pi.nread (size pi)
                ∙ eq_of_== (size pi) pipesize (sym (full_iff pi b) ∙ f),
            omega arith,
            refl,
          ))
      | inr f ↦ elim (Option-cases (copyin (user_at addr i))) [
        | inl e ↦ rw h (
            rw f (
              rw e (
                ([], untouched i (suc left) pi (pi.woken ++ (readers ∷ [])) b),
                refl,
                refl,
                inr e,
              )))
        | inr (ch, e) ↦ rw h (
            rw f (
              rw e (
                Written-put i left pi ch (write_loop copyin killed addr (i + 1) left (put ch pi)) b
                  f e (write_loop-Written (i + 1) left (put ch pi) (contents-put ch pi b f).0))))
      ]
    ]
  ]

  -- pipewrite of a pipe within its bounds, from its start or from where it woke up, `i` bytes done.
  -- The bytes that it puts in come from consecutive addresses after the first `i`, and follow in
  -- their order what the pipe has; nothing else in the queue changes. It returns only when all `n`
  -- are in or copyin fails at the next; it fails only where the read end is closed or the process
  -- is killed; it sleeps only with bytes left and exactly 512 in the pipe. The lock is released,
  -- and the readers are woken but where it fails.
  pub write_again-Written :
      (n i : ℕ) (pi : Pipe)
      → Bounded pi
      → Written i (count n - i) (acquire_pipe pi) (write_again copyin killed addr n i pi)
  unfolding write_again
  write_again-Written n i pi b =
      write_loop-Written i (count n - i) (acquire_pipe pi)
        (Bounded-same pi (acquire_pipe pi) refl refl b)
