-- ===== src/Fs/Io.antt =====
-- readi and writei of kernel/fs.c. What either_copyout and either_copyin of kernel/proc.c can move
-- is a parameter, the number of bytes that they move before an address that is not mapped; Vm has
-- copyout and copyin themselves. Addresses are not wrapped at 2 ^ 64.
use project.Base.{
  ℕ, zero, suc, ◌+◌, ◌-◌, ◌*◌, ◌/◌, ◌%◌, ◌^◌, Bool, true, false, ◌&&◌, Option, none, some, ltb, leb,
  ◌==◌, if◌then◌else◌,
}
use Prim.Native.Nat.{min}
use project.Fs.{Superblock, Dinode, Fs, Cmd, bsize, log_write, maxfile, put, pure, ◌>>=◌, ◌>>◌}
use project.Fs.Inode.{bmap, iupdate}

-- The memory of the process or the kernel.
abbrev pub Mem : Type 0
Mem = ℕ → ℕ

-- Bytes `at`, ..., `at + m - 1` of `f` are those of `g`, from its first one.
abbrev pub paste : (f : ℕ → ℕ) (at m : ℕ) (g : ℕ → ℕ) → ℕ → ℕ
paste f at m g i = if leb at i && ltb i (at + m) then g (i - at) else f i

-- How many of `m` bytes from an address on can be moved before an address that is not mapped.
module _ (sb : Superblock) (reach : (address m : ℕ) → ℕ) where
  -- Whether either_copyout and either_copyin answer 0, and the bytes that they move.
  abbrev pub moves : (address m : ℕ) → Bool
  moves address m = leb m (reach address m)

  abbrev pub move_out : Mem → (dst : ℕ) → (ℕ → ℕ) → (m : ℕ) → Mem
  move_out mem dst bytes m = paste mem dst (min m (reach dst m)) bytes

  abbrev pub move_in : (b at : ℕ) → Mem → (src m : ℕ) → Fs → Fs
  move_in b at mem src m s = record s {
    block = put s.block b (paste (s.block b) at (min m (reach src m)) (λ i. mem (src + i)));
  }

  -- The bytes of a round that starts at `off` with `left` bytes to go.
  abbrev pub chunk : (off left : ℕ) → ℕ
  chunk off left = min left (bsize - off % bsize)

  -- The loop of readi; the answer -1 is `none`. Also what it leaves of ip->addrs and of the memory.
  unfoldable pub readi_loop :
      (fuel : ℕ) → (ℕ → ℕ) → Mem → (dst off n tot : ℕ) → Cmd (Option ℕ × (ℕ → ℕ) × Mem)
  readi_loop zero addrs mem dst off n tot s = none
  readi_loop (suc fuel) addrs mem dst off n tot s = elim (ltb tot n) [
    | false ↦ some ((some tot, addrs, mem), s)
    | true ↦ elim (bmap sb addrs (off / bsize) s) [
      | none ↦ none
      | some ((addr, addrs'), t) ↦ elim (addr == 0) [
        | true ↦ some ((some tot, addrs', mem), t)
        | false ↦
            let m = chunk off (n - tot) in
            let mem' = move_out mem dst (λ i. t.block addr (off % bsize + i)) m in
            elim (moves dst m) [
              | true ↦ readi_loop fuel addrs' mem' (dst + m) (off + m) n (tot + m) t
              | false ↦ some ((none, addrs', mem'), t)
            ]
      ]
    ]
  ]

  unfoldable pub readi : Dinode → Mem → (dst off n : ℕ) → Cmd (Option ℕ × (ℕ → ℕ) × Mem)
  readi d mem dst off n =
      if ltb d.size off
      then pure (some 0, d.addrs, mem)
      else (if ltb ((off + n) % 2 ^ 32) off
          then pure (some 0, d.addrs, mem)
          else (let m = if ltb d.size ((off + n) % 2 ^ 32) then d.size - off else n in
              readi_loop (m + 1) d.addrs mem dst off m 0))

  -- The loop of writei.
  unfoldable pub writei_loop : (fuel : ℕ) → (ℕ → ℕ) → Mem → (src off n tot : ℕ) → Cmd (ℕ × (ℕ → ℕ))
  writei_loop zero addrs mem src off n tot s = none
  writei_loop (suc fuel) addrs mem src off n tot s = elim (ltb tot n) [
    | false ↦ some ((tot, addrs), s)
    | true ↦ elim (bmap sb addrs (off / bsize) s) [
      | none ↦ none
      | some ((addr, addrs'), t) ↦ elim (addr == 0) [
        | true ↦ some ((tot, addrs'), t)
        | false ↦
            let m = chunk off (n - tot) in
            let u = move_in addr (off % bsize) mem src m t in
            elim (moves src m) [
              | true ↦ elim (log_write addr u) [
                | none ↦ none
                | some (_, w) ↦ writei_loop fuel addrs' mem (src + m) (off + m) n (tot + m) w
              ]
              | false ↦ some ((tot, addrs'), u)
            ]
      ]
    ]
  ]

  -- writei of the inode `inum`; the answer -1 is `none`. Also the inode that it leaves.
  unfoldable pub writei : (inum : ℕ) → Dinode → Mem → (src off n : ℕ) → Cmd (Option ℕ × Dinode)
  writei inum d mem src off n =
      if ltb d.size off
      then pure (none, d)
      else (if ltb ((off + n) % 2 ^ 32) off
          then pure (none, d)
          else (if ltb (maxfile * bsize) ((off + n) % 2 ^ 32) then pure (none, d) else (do
            (tot, addrs') ← writei_loop (n + 1) d.addrs mem src off n 0
            let d' = record d {
              addrs = addrs';
              size = if ltb d.size (off + tot) then off + tot else d.size;
            }
            iupdate sb inum d'
            pure (some tot, d'))))
