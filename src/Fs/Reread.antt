-- ===== src/Fs/Reread.antt =====
-- readi of kernel/fs.c behind writei.
use project.Base.{
  sym, ℕ, ◌+◌, ◌-◌, ◌*◌, ◌^◌, ◌≤◌, ◌<◌, ◌≡◌, ◌∙◌, true, ltb, if◌then◌else◌, arith, some, none,
  Option, ap,
}
use mathlib.Core.Path.{subst}
use project.Fs.{Superblock, Fs, Dinode, bsize, maxfile}
use project.Fs.Bitmap.{BitmapSafe}
use project.Fs.Mapped.{Mapped}
use project.Fs.Io.{Mem, moves, readi, writei}
use project.Fs.Content.{content, in-paste}
use project.Fs.Delivered.{ReadFrom, Present}
use project.Fs.Readi.{wanted, readi-ReadFrom}
use project.Fs.Written.{DidWrite}
use project.Fs.Writei.{Wrote, writei-Wrote}

module _ (sb : Superblock) (reach : ℕ → ℕ → ℕ) (mem : Mem) (mem_bytes : (a : ℕ) → mem a < 256) where
  -- The bytes at `dst` are those that were written from `src`.
  abbrev pub Reread : (src dst n : ℕ) → Option ((Option ℕ × (ℕ → ℕ) × Mem) × Fs) → Type 0
  Reread src dst n none = ⊥
  Reread src dst n (some ((r, addrs, mem'), u)) =
      (r ≡ some n) × ((i : ℕ) → i < n → mem' (dst + i) ≡ mem (src + i))

  module _ (s t : Fs) (d : Dinode) (addrs : ℕ → ℕ) (mem2 : Mem) (src dst off n : ℕ) (spent : ℕ)
      (w : DidWrite sb reach mem mem_bytes spent s d.addrs src off n 0 n t addrs)
      (fits : off + n ≤ maxfile * bsize)
      (mapped : (c m : ℕ) → c + m ≤ n → moves sb reach (dst + c) m ≡ true) where
    written-Present : Present sb reach t addrs off n
    written-Present i il = w.there i (omega arith)

    ReadFrom-Reread :
        (o : Option ((Option ℕ × (ℕ → ℕ) × Mem) × Fs))
        → ReadFrom sb reach t addrs mem2 dst off n 0 o
        → Reread src dst n o
    ReadFrom-Reread none g = g
    ReadFrom-Reread (some ((none, addrs', mem'), u)) (same, file, (c, m, le, miss)) =
        let hit = mapped c m (omega arith) in absurd (ground arith)
    ReadFrom-Reread (some ((some r, addrs', mem'), u)) (same, file, e, memory) = (
      ap some e,
      λ i il.
          memory (dst + i)
          ∙ in-paste mem2 (λ j. content t addrs (off + j)) dst (n - 0) (dst + i) (omega arith)
              (omega arith)
          ∙ (let place : off + (dst + i - dst) ≡ off + i = omega arith in
              ap (content t addrs) place)
          ∙ w.written i (omega arith),
    )

  -- Where writei has written all `n` bytes, readi of the same range delivers `n` bytes, and they
  -- are the ones written; the memory that it delivers to has to be mapped.
  pub readi-writei :
      (inum : ℕ) (s t : Fs) (d d' : Dinode) (mem2 : Mem) (src dst off n : ℕ)
      → BitmapSafe sb s
      → Mapped sb s d.addrs
      → sb.size ≤ 2 ^ 32
      → off < 2 ^ 32
      → n < 2 ^ 32
      → d.size ≤ maxfile * bsize
      → writei sb reach inum d mem src off n s ≡ some ((some n, d'), t)
      → ((c m : ℕ) → c + m ≤ n → moves sb reach (dst + c) m ≡ true)
      → Reread src dst n (readi sb reach d' mem2 dst off n t)
  readi-writei inum s t d d' mem2 src dst off n v m small ol nl fits run mapped =
      let w : Wrote sb reach mem mem_bytes inum s d src off n (some ((some n, d'), t)) =
        subst (Wrote sb reach mem mem_bytes inum s d src off n) run
          (writei-Wrote sb reach mem mem_bytes inum s d src off n v m small ol nl fits) in
      let size : d'.size ≡ (if ltb d.size (off + n) then off + n else d.size) =
        ap (λ x. x.size) w.3 in
      let ok = w.0 in
      let short : off + n ≤ maxfile * bsize = ground arith in
      let all : wanted sb reach d' off n ≡ n = ground arith in
      let there : Present sb reach t d'.addrs off (wanted sb reach d' off n) =
        subst (Present sb reach t d'.addrs off) (sym all)
          (written-Present s t d d'.addrs mem2 src dst off n _ w.1 short mapped) in
      let r = readi-ReadFrom sb reach t d' mem2 dst off n there (ground arith) ol nl in
      ReadFrom-Reread s t d d'.addrs mem2 src dst off n _ w.1 short mapped _ (
        subst
          (λ k. ReadFrom sb reach t d'.addrs mem2 dst off k 0 (readi sb reach d' mem2 dst off n t))
          all r)
