-- ===== src/Fs/Delivered.antt =====
-- What the loop of readi of kernel/fs.c has delivered, round by round, where the file has a block
-- for each byte.
use project.Base.{
  ℕ, ◌+◌, ◌-◌, ◌/◌, ◌%◌, ◌≤◌, ◌<◌, ◌≡◌, refl, sym, ◌∙◌, inl, inr, true, false, ◌==◌, ltb, arith,
  Bool-cases, some, none, Option, ap,
}
use Prim.Native.Nat.{min}
use project.Fs.Room.{bind_some}
use project.Fs.{pure, Superblock, Fs, bsize, ndirect, nindirect, maxfile}
use project.Fs.Mapped.{lookup}
use project.Fs.Inode.{word, direct_entry, indirect_entry, bmap}
use project.Fs.Io.{Mem, paste, moves, chunk, move_out}
use project.Fs.Content.{content, paste_out, paste-paste, chunk_place}

module _ (sb : Superblock) where
  -- bmap of a block that the file has logs nothing and changes nothing.
  pub bmap-there :
      (s : Fs) (addrs : ℕ → ℕ) (bn : ℕ)
      → bn < maxfile
      → (lookup s addrs bn == 0) ≡ false
      → bmap sb addrs bn s ≡ some ((lookup s addrs bn, addrs), s)
  unfolding bmap direct_entry indirect_entry
  bmap-there s addrs bn lt there = elim (Bool-cases (ltb bn ndirect)) [
    | inl h ↦ let ne : (addrs bn == 0) ≡ false = rw h at there in rw (h, ne) refl
    | inr h ↦
        let inside : ltb (bn - ndirect) nindirect ≡ true = ground arith in
        elim (Bool-cases (addrs ndirect == 0)) [
          | inl z ↦ absurd (ground arith)
          | inr ne ↦
              let at : (word (s.block (addrs ndirect)) (bn - ndirect) == 0) ≡ false =
                rw (h, ne) at there in
              rw (h, inside, ne)
                (rw ne (
                  bind_some (indirect_entry sb (addrs ndirect) (bn - ndirect))
                    (λ r. pure (r, addrs)) s s (word (s.block (addrs ndirect)) (bn - ndirect))
                    (rw at refl)))
        ]
  ]

  module _ (reach : ℕ → ℕ → ℕ) where
    -- The file has a block for each of `n` bytes from `off` on.
    abbrev pub Present : Fs → (ℕ → ℕ) → (off n : ℕ) → Type 0
    Present s addrs off n = (i : ℕ) → i < n → (lookup s addrs ((off + i) / bsize) == 0) ≡ false

    -- Some addresses among `n` from `dst` on cannot be moved to or from.
    abbrev pub Unreachable : (dst n : ℕ) → Type 0
    Unreachable dst n = (c : ℕ) × (m : ℕ) × (c + m ≤ n) × (moves sb reach (dst + c) m ≡ false)

    -- The loop of readi that has delivered `tot` of `n` bytes changes nothing of the file system.
    -- It delivers all that are left, and changes no other memory, or answers -1 where it cannot
    -- move bytes to some address.
    abbrev pub ReadFrom :
        Fs → (ℕ → ℕ) → Mem → (dst off n tot : ℕ) → Option ((Option ℕ × (ℕ → ℕ) × Mem) × Fs) → Type 0
    ReadFrom s addrs mem dst off n tot none = ⊥
    ReadFrom s addrs mem dst off n tot (some ((none, addrs', mem'), t)) =
        (t ≡ s) × (addrs' ≡ addrs) × Unreachable dst (n - tot)
    ReadFrom s addrs mem dst off n tot (some ((some r, addrs', mem'), t)) =
        (t ≡ s)
        × (addrs' ≡ addrs)
        × (r ≡ n)
        × ((a : ℕ) → mem' a ≡ paste mem dst (n - tot) (λ i. content s addrs (off + i)) a)

    pub done-ReadFrom :
        (s : Fs) (addrs : ℕ → ℕ) (mem : Mem) (dst off n tot : ℕ)
        → tot ≡ n
        → ReadFrom s addrs mem dst off n tot (some ((some tot, addrs, mem), s))
    done-ReadFrom s addrs mem dst off n tot e = (
      refl,
      refl,
      e,
      λ a. sym (paste_out mem dst (n - tot) (λ i. content s addrs (off + i)) a (λ le. omega arith)),
    )

    -- A round of the loop.
    module _ (s : Fs) (addrs : ℕ → ℕ) (mem : Mem) (dst off n tot : ℕ) (more : tot < n)
        (present : Present s addrs off (n - tot)) where
      abbrev m : ℕ
      m = chunk sb reach off (n - tot)

      abbrev here : ℕ → ℕ
      here i = s.block (lookup s addrs (off / bsize)) (off % bsize + i)

      -- The memory after the round.
      abbrev moved : Mem
      moved = move_out sb reach mem dst here m

      round_bytes : (i : ℕ) → i < m → here i ≡ content s addrs (off + i)
      round_bytes i il =
          let p = chunk_place off (n - tot) i il in
          let ne : (lookup s addrs (off / bsize) == 0) ≡ false =
            rw (p.0) at (present i (omega arith)) in
          rw (p.0, p.1, ne) refl

      moved_bytes : moves sb reach dst m ≡ true → moved ≡ paste mem dst m here
      moved_bytes ok = let full : min m (reach dst m) ≡ m = ground arith in rw full refl

      pub Present-rest : Present s addrs (off + m) (n - (tot + m))
      Present-rest i il =
          let e : off + m + i ≡ off + (m + i) = omega arith in rw e (present (m + i) (omega arith))

      -- The rounds that follow deliver behind what this one does.
      pub round-ReadFrom :
          (o : Option ((Option ℕ × (ℕ → ℕ) × Mem) × Fs))
          → moves sb reach dst m ≡ true
          → ReadFrom s addrs moved (dst + m) (off + m) n (tot + m) o
          → ReadFrom s addrs mem dst off n tot o
      round-ReadFrom none ok d = d
      round-ReadFrom (some ((none, addrs', mem'), v)) ok (same, file, (c, k, le, miss)) =
          let place : dst + m + c ≡ dst + (m + c) = omega arith in
          (same, file, (m + c, k, omega arith, (rw place at miss)))
      round-ReadFrom (some ((some r, addrs', mem'), v)) ok (same, file, all, memory) = (
        same,
        file,
        all,
        λ a.
            memory a
            ∙ ap (λ f. paste f (dst + m) (n - (tot + m)) (λ i. content s addrs (off + m + i)) a)
                (moved_bytes ok)
            ∙ paste-paste mem dst m (n - (tot + m)) here (λ i. content s addrs (off + m + i))
                (λ i. content s addrs (off + i)) (n - tot) a (omega arith) round_bytes
                (λ i il.
                  let e : off + m + i ≡ off + (m + i) = omega arith in ap (content s addrs) e),
      )
