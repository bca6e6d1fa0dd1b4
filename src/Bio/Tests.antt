-- ===== src/Bio/Tests.antt =====
-- The theorems on kernel/bio.c at a cache that is new, and at one with a buffer in use.
use project.Base.{
  ℕ, zero, suc, ◌≤◌, ◌≡◌, refl, true, false, some, [], ◌∷◌, ◌==◌, arith, inl, inr, Bool-cases,
}
use project.Bio.{Buf, Bcache, blank, blanks, binit, is_block, bread, bwrite, brelse}
use project.Bio.Buffers.{count, Clean, Sound}
use project.Bio.Cached.{Cached, bread-Cached}
use project.Bio.Release.{Released, brelse-Released}
use project.Bio.Store.{Stored, bwrite-Stored}

count-blanks : (d k n : ℕ) → (d == 0) ≡ false → count d k (blanks n) ≤ 0
count-blanks d k zero ne = omega arith
count-blanks d k (suc n) ne =
    let other : is_block d k blank ≡ false = ground arith in rw other (count-blanks d k n ne)

Clean-blanks : (disk : ℕ → ℕ → ℕ → ℕ) (n : ℕ) → Clean disk (blanks n)
Clean-blanks disk zero = tt
Clean-blanks disk (suc n) = ((λ z valid. absurd (ground arith)), Clean-blanks disk n)

binit-Sound : (disk : ℕ → ℕ → ℕ → ℕ) → Sound (binit disk)
binit-Sound disk = record {
  single = λ d k ne. omega (arith, count-blanks d k 30 ne);
  clean = Clean-blanks disk 30;
}

abbrev numbers : ℕ → ℕ → ℕ → ℕ
numbers d k i = k

bread-Cached_example : Cached 1 9 4 (binit numbers) (bread 4 1 9 (binit numbers))
bread-Cached_example =
    bread-Cached 1 9 4 (binit numbers) refl (binit-Sound numbers) (λ b e. absurd (ground arith))

-- Block 9 with bytes that are not on the disk.
abbrev changed : Buf
changed = record { valid = true; dev = 1; blockno = 9; refcnt = 2; holder = some 4; bytes = λ i. 6 }

abbrev in_use : Bcache
in_use = record { bufs = blank ∷ changed ∷ []; disk = numbers }

in_use-Sound : Sound in_use
in_use-Sound = record {
  single = λ d k ne.
      let other : is_block d k blank ≡ false = ground arith in
      elim (Bool-cases (is_block d k changed)) [
        | inl h ↦ rw (other, h) (omega arith)
        | inr h ↦ rw (other, h) (omega arith)
      ];
  clean = ((λ z valid. absurd (ground arith)), ((λ z valid. absurd (omega (arith, z))), tt));
}

bwrite-Stored_example : Stored 1 9 changed in_use (bwrite 4 1 9 in_use)
bwrite-Stored_example = bwrite-Stored 1 9 changed 4 in_use refl in_use-Sound refl refl refl

brelse-Released_example : Released 1 9 changed in_use (brelse 4 1 9 in_use)
brelse-Released_example =
    brelse-Released 1 9 changed 4 in_use in_use-Sound refl refl (λ z valid. absurd (ground arith))
