-- ===== src/Fs/Paste.antt =====
-- Bytes written into a block of a file of kernel/fs.c, as writei does in each of its rounds.
use project.Base.{
  ℕ, ◌+◌, ◌-◌, ◌*◌, ◌/◌, ◌%◌, ◌≤◌, ◌<◌, ◌≡◌, refl, sym, ◌∙◌, inl, inr, true, false, ltb, leb, ◌==◌,
  ==-refl, ==_sym, arith, Bool-cases, eq_of_==, ap, List,
}
use project.Fs.{Superblock, Fs, bsize, ndirect, maxfile, put}
use project.Fs.Bitmap.{is_free, BitmapSafe, put-byte}
use project.Fs.Mapped.{lookup, InUse, Mapped}
use project.Fs.Io.{paste}
use project.Fs.Content.{content, Kept, paste_out}

paste-lt :
    (f : ℕ → ℕ) (at m : ℕ) (g : ℕ → ℕ)
    → ((i : ℕ) → f i < 256)
    → ((i : ℕ) → g i < 256)
    → (i : ℕ) → paste f at m g i < 256
paste-lt f at m g hf hg i = ground (arith, hf i, hg (i - at))

-- A position in a block of the file is one in the file.
paste_place :
    (f h : ℕ → ℕ) (k at m o : ℕ) (g : ℕ → ℕ)
    → o / bsize ≡ k
    → f (o % bsize) ≡ h o
    → paste f at m g (o % bsize) ≡ paste h (k * bsize + at) m g o
paste_place f h k at m o g e same =
    let base : o ≡ k * bsize + o % bsize = omega arith in
    elim (Bool-cases (leb at (o % bsize))) [
      | inr l ↦ let l' : leb (k * bsize + at) o ≡ false = ground arith in rw (l, l') same
      | inl l ↦
          let l' : leb (k * bsize + at) o ≡ true = ground arith in
          elim (Bool-cases (ltb (o % bsize) (at + m))) [
            | inr u ↦
                let u' : ltb o (k * bsize + at + m) ≡ false = ground arith in rw (l, l', u, u') same
            | inl u ↦
                let u' : ltb o (k * bsize + at + m) ≡ true = ground arith in
                let p : o % bsize - at ≡ o - (k * bsize + at) = omega arith in
                rw (l, l', u, u') (ap g p)
          ]
    ]

module _ (sb : Superblock) (s : Fs) (addrs : ℕ → ℕ) (v : BitmapSafe sb s)
    (mapped : Mapped sb s addrs) (k at m : ℕ) (g : ℕ → ℕ) (kl : k < maxfile)
    (ne : (lookup s addrs k == 0) ≡ false) (fits : at + m ≤ bsize) (bytes : (i : ℕ) → g i < 256)
    (l : List ℕ) where
  -- The block of the file.
  abbrev b : ℕ
  b = lookup s addrs k

  -- The state with the bytes in it.
  abbrev pub pasted : Fs
  pasted = record s { block = put s.block b (paste (s.block b) at m g); logged = l }

  pub lookup-pasted : (j : ℕ) → lookup pasted addrs j ≡ lookup s addrs j
  lookup-pasted j =
      let other : (addrs ndirect == b) ≡ false = ==_sym (addrs ndirect) b ∙ mapped.apart k kl ne in
      rw other refl

  same_free : (c : ℕ) → c < sb.size → is_free sb pasted c ≡ is_free sb s c
  same_free c cl = rw ((mapped.blocks k kl ne).apart c cl) refl

  InUse-pasted : (c : ℕ) → InUse sb s c → InUse sb pasted c
  InUse-pasted c u = record {
    in_range = u.in_range;
    used = same_free c u.in_range ∙ u.used;
    apart = u.apart;
  }

  pasted-Mapped : Mapped sb pasted addrs
  pasted-Mapped = record {
    blocks = λ j jl n.
        rw (lookup-pasted j)
          (InUse-pasted (lookup s addrs j) (mapped.blocks j jl (rw (lookup-pasted j) at n)));
    indirect = λ n. InUse-pasted (addrs ndirect) (mapped.indirect n);
    apart = λ j jl n. rw (lookup-pasted j) (mapped.apart j jl (rw (lookup-pasted j) at n));
    distinct = λ i j il jl n e.
        mapped.distinct i j il jl (rw (lookup-pasted i) at n)
          (sym (lookup-pasted i) ∙ e ∙ lookup-pasted j);
  }

  pasted-BitmapSafe : BitmapSafe sb pasted
  pasted-BitmapSafe = record {
    bytes =
        put-byte s.block b (paste (s.block b) at m g) v.bytes
          (paste-lt (s.block b) at m g (v.bytes b) bytes);
    boot_used = same_free 0 (omega (arith, (mapped.blocks k kl ne).in_range)) ∙ v.boot_used;
    map_used = λ c d cl dl free. v.map_used c d cl dl (sym (same_free c cl) ∙ free);
  }

  pub pasted-Kept : Kept sb s addrs pasted addrs
  pasted-Kept = record {
    safe = pasted-BitmapSafe;
    mapped = pasted-Mapped;
    stay = λ j jl n. lookup-pasted j;
  }

  -- The file has the bytes where they were written, and its other bytes are as before.
  pub content-pasted :
      (o : ℕ)
      → o < maxfile * bsize
      → content pasted addrs o ≡ paste (content s addrs) (k * bsize + at) m g o
  content-pasted o ol = elim (Bool-cases (o / bsize == k)) [
    | inl e ↦
        let here = eq_of_== (o / bsize) k e in
        let at_b : lookup pasted addrs (o / bsize) ≡ b = lookup-pasted (o / bsize) ∙ rw here refl in
        rw (at_b, ne, ==-refl b)
          (paste_place (s.block b) (content s addrs) k at m o g here (rw (here, ne) refl))
    | inr e ↦
        let out = paste_out (content s addrs) (k * bsize + at) m g o (λ le. ground arith) in
        elim (Bool-cases (lookup s addrs (o / bsize) == 0)) [
          | inl z ↦ rw (lookup-pasted (o / bsize), z) (rw z at (sym out))
          | inr n ↦ elim (Bool-cases (lookup s addrs (o / bsize) == b)) [
            | inl same ↦
                let clash : o / bsize ≡ k =
                  mapped.distinct (o / bsize) k (omega arith) kl n
                    (eq_of_== (lookup s addrs (o / bsize)) b same) in
                absurd (ground arith)
            | inr other ↦ rw (lookup-pasted (o / bsize), n, other) (rw n at (sym out))
          ]
        ]
  ]
