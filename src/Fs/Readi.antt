-- ===== src/Fs/Readi.antt =====
-- readi of kernel/fs.c: the bytes that it delivers.
use project.Base.{
  ℕ, zero, suc, ◌+◌, ◌-◌, ◌*◌, ◌/◌, ◌%◌, ◌^◌, ◌≤◌, ◌<◌, ◌≡◌, refl, inl, inr, false, ltb, leb, ◌==◌,
  if◌then◌else◌, arith, Bool-cases,
}
use Prim.Native.Nat.{min}
use project.Fs.{Superblock, Fs, Dinode, bsize, maxfile}
use project.Fs.Mapped.{lookup}
use project.Fs.Io.{Mem, moves, chunk, readi_loop, readi}
use project.Fs.Delivered.{
  bmap-there, Present, ReadFrom, done-ReadFrom, Present-rest, round-ReadFrom,
}

module _ (sb : Superblock) (reach : ℕ → ℕ → ℕ) where
  readi_loop-ReadFrom :
      (fuel : ℕ) (s : Fs) (addrs : ℕ → ℕ) (mem : Mem) (dst off n tot : ℕ)
      → off + (n - tot) ≤ maxfile * bsize
      → Present sb reach s addrs off (n - tot)
      → tot ≤ n
      → n - tot < fuel
      → ReadFrom sb reach s addrs mem dst off n tot
          (readi_loop sb reach fuel addrs mem dst off n tot s)
  unfolding readi_loop
  readi_loop-ReadFrom zero s addrs mem dst off n tot inside present le enough = absurd (omega arith)
  readi_loop-ReadFrom (suc fuel) s addrs mem dst off n tot inside present le enough =
      elim (Bool-cases (ltb tot n)) [
        | inr done ↦
            rw (done, ReadFrom) (done-ReadFrom sb reach s addrs mem dst off n tot (ground arith))
        | inl more ↦
            let lt : tot < n = ground arith in
            let base : off + 0 ≡ off = omega arith in
            let ne : (lookup s addrs (off / bsize) == 0) ≡ false =
              rw base at (present 0 (omega arith)) in
            let run = bmap-there sb s addrs (off / bsize) (ground arith) ne in
            let m : ℕ = chunk sb reach off (n - tot) in
            elim (Bool-cases (moves sb reach dst m)) [
              | inr miss ↦
                  let place : dst + 0 ≡ dst = omega arith in
                  rw (more, run, ne, miss, ReadFrom)
                    (refl, refl, (0, m, omega arith, (rw place miss)))
              | inl ok ↦
                  rw (more, run, ne, ok, ReadFrom)
                    (round-ReadFrom sb reach s addrs mem dst off n tot lt present _ ok (
                      readi_loop-ReadFrom fuel s addrs _ (dst + m) (off + m) n (tot + m)
                        (ground arith) (Present-rest sb reach s addrs mem dst off n tot lt present)
                        (ground arith) (ground arith)))
            ]
      ]

  -- The bytes that readi is to deliver: `n`, less those beyond the end of the file.
  abbrev pub wanted : Dinode → (off n : ℕ) → ℕ
  wanted d off n = if leb (2 ^ 32) (off + n) then 0 else min n (d.size - off)

  -- readi of a file of at most MAXFILE blocks that has a block for each byte asked for: it does not
  -- panic and changes nothing of the file system, also outside of an operation of the log. It
  -- delivers the bytes of the file from `off` on, as many of the `n` as are there, to the memory
  -- from `dst` on, changes no other memory and answers their number; or it answers -1, and only if
  -- it cannot move bytes to some address among them.
  pub readi-ReadFrom :
      (s : Fs) (d : Dinode) (mem : Mem) (dst off n : ℕ)
      → Present sb reach s d.addrs off (wanted d off n)
      → d.size ≤ maxfile * bsize
      → off < 2 ^ 32
      → n < 2 ^ 32
      → ReadFrom sb reach s d.addrs mem dst off
          (wanted d off n)
          0
          (readi sb reach d mem dst off n s)
  unfolding readi
  readi-ReadFrom s d mem dst off n present fits ol nl = elim (Bool-cases (ltb d.size off)) [
    | inl past ↦
        rw (past, ReadFrom)
          (done-ReadFrom sb reach s d.addrs mem dst off (wanted d off n) 0 (ground arith))
    | inr within ↦ elim (Bool-cases (ltb ((off + n) % 2 ^ 32) off)) [
      | inl wraps ↦
          rw (within, wraps, ReadFrom)
            (done-ReadFrom sb reach s d.addrs mem dst off (wanted d off n) 0 (ground arith))
      | inr plain ↦
          let sum : (off + n) % 2 ^ 32 ≡ off + n = ground arith in
          let same : (if ltb d.size (off + n) then d.size - off else n) ≡ wanted d off n =
            ground arith in
          rw (within, plain, sum)
            (rw same (
              readi_loop-ReadFrom (wanted d off n + 1) s d.addrs mem dst off (wanted d off n) 0
                (ground arith) (λ i il. present i (omega arith)) (omega arith) (omega arith)))
    ]
  ]
