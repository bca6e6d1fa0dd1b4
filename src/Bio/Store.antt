-- ===== src/Bio/Store.antt =====
-- bwrite of kernel/bio.c against what the cache shows of each block.
use project.Base.{
  ℕ, ◌≤◌, ◌≡◌, refl, sym, ◌∙◌, ap, inl, inr, ◌==◌, ==-refl, true, false, ◌&&◌, some, List, [], ◌∷◌,
  arith, Bool-cases,
}
use mathlib.Core.Path.{subst}
use project.Bio.{Buf, Bcache, Outcome, panics, waits, returns, is_block, find, put_block, bwrite}
use project.Bio.Buffers.{view, shown, count, Clean, Sound, some_inj, shown-find}
use project.Bio.Cached.{Same}

module _ (dev blockno : ℕ) (b : Buf) where
  -- The bytes of the buffer on the disk change nothing that is shown.
  abbrev stored : (ℕ → ℕ → ℕ → ℕ) → ℕ → ℕ → ℕ → ℕ
  stored disk = put_block disk dev blockno b.bytes

  -- At other blocks, and for a list without the block.
  Clean-stored :
      (disk : ℕ → ℕ → ℕ → ℕ) (bs : List Buf)
      → count dev blockno bs ≤ 0
      → Clean disk bs
      → Clean (stored disk) bs
  Clean-stored disk [] none_here c = tt
  Clean-stored disk (x ∷ bs) none_here (c, cs) = elim (Bool-cases (is_block dev blockno x)) [
    | inl h ↦ absurd (omega (arith, (rw h at none_here)))
    | inr h ↦
        let away : ((dev == x.dev) && (blockno == x.blockno)) ≡ false = ground arith in
        ((λ z valid. rw away (c z valid)), Clean-stored disk bs (rw h at none_here) cs)
  ]

  Clean-bwrite :
      (disk : ℕ → ℕ → ℕ → ℕ) (bs : List Buf)
      → count dev blockno bs ≤ 1
      → find dev blockno bs ≡ some b
      → Clean disk bs
      → Clean (stored disk) bs
  Clean-bwrite disk [] le e c = tt
  Clean-bwrite disk (x ∷ bs) le e (c, cs) = elim (Bool-cases (is_block dev blockno x)) [
    | inl h ↦
        let same : x ≡ b = some_inj x b (rw h at e) in
        let at : ((dev == x.dev) && (blockno == x.blockno)) ≡ true = ground arith in
        (
          (λ z valid. rw at (ap (λ y. y.bytes) same)),
          Clean-stored disk bs (omega (arith, (rw h at le))) cs,
        )
    | inr h ↦
        let away : ((dev == x.dev) && (blockno == x.blockno)) ≡ false = ground arith in
        ((λ z valid. rw away (c z valid)), Clean-bwrite disk bs (rw h at le) (rw h at e) cs)
  ]

  shown-stored :
      (disk : ℕ → ℕ → ℕ → ℕ) (d k : ℕ) (bs : List Buf)
      → ((dev == d) && (blockno == k)) ≡ false
      → shown (stored disk) d k bs ≡ shown disk d k bs
  shown-stored disk d k [] away = rw away refl
  shown-stored disk d k (x ∷ bs) away = elim (Bool-cases (is_block d k x)) [
    | inl h ↦ rw (h, away) refl
    | inr h ↦ rw h (shown-stored disk d k bs away)
  ]

  abbrev pub Stored : Bcache → Outcome → Type 0
  Stored s panics = ⊥
  Stored s (waits t) = ⊥
  Stored s (returns t) = Same s t × (t.bufs ≡ s.bufs) × (t.disk dev blockno ≡ view s dev blockno)

  -- bwrite by the process that holds the buffer of the block, which is valid: the disk has the
  -- bytes that the cache shows of the block; the buffers are as before and all blocks show the same
  -- bytes as before.
  pub bwrite-Stored :
      (pid : ℕ) (s : Bcache)
      → (dev == 0) ≡ false
      → Sound s
      → find dev blockno s.bufs ≡ some b
      → b.holder ≡ some pid
      → b.valid ≡ true
      → Stored s (bwrite pid dev blockno s)
  unfolding bwrite
  bwrite-Stored pid s ne v e held valid =
      let known : (disk : ℕ → ℕ → ℕ → ℕ) → shown disk dev blockno s.bufs ≡ b.bytes =
        λ disk. shown-find disk dev blockno b s.bufs e ∙ rw valid refl in
      rw (e, held, ==-refl pid, Stored)
        (
          record {
            sound = record {
              single = v.single;
              clean = Clean-bwrite s.disk s.bufs (v.single dev blockno ne) e v.clean;
            };
            shows = λ d k n. elim (Bool-cases ((dev == d) && (blockno == k))) [
              | inr away ↦ shown-stored s.disk d k s.bufs away
              | inl here ↦
                  let dd : dev ≡ d = ground arith in
                  let kk : blockno ≡ k = ground arith in
                  subst (λ d'. shown (stored s.disk) d' k s.bufs ≡ shown s.disk d' k s.bufs) dd
                    (subst (λ k'. shown (stored s.disk) dev k' s.bufs ≡ shown s.disk dev k' s.bufs)
                      kk (known (stored s.disk) ∙ sym (known s.disk)))
            ];
          },
          refl,
          rw (==-refl dev, ==-refl blockno) (sym (known s.disk)),
        )
