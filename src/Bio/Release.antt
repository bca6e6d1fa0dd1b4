-- ===== src/Bio/Release.antt =====
-- brelse of kernel/bio.c against what the cache shows of each block.
use project.Base.{
  ℕ, ◌+◌, ◌≡◌, refl, sym, ◌∙◌, ap, inl, inr, ◌==◌, ==-refl, true, false, none, some, List, [], ◌∷◌,
  if◌then◌else◌, arith, Bool-cases,
}
use mathlib.Core.Path.{subst}
use project.Bio.{Buf, Bcache, Outcome, panics, waits, returns, dec, is_block, find, without, brelse}
use project.Bio.Buffers.{
  shown, count, UnusedClean, Clean, Sound, is_block_eq, some_inj, find-block, find-set_buf,
  shown-find,
}
use project.Bio.Cached.{Same, set_buf-Same}

module _ (dev blockno : ℕ) (b : Buf) where
  -- The list with the buffer of the block at its front, as `c`.
  module _ (c : Buf) (same_key : (d k : ℕ) → is_block d k c ≡ is_block d k b) where
    count-front :
        (d k : ℕ) (bs : List Buf)
        → find dev blockno bs ≡ some b
        → count d k (c ∷ without dev blockno bs) ≡ count d k bs
    count-front d k [] e = absurd (ground arith)
    count-front d k (x ∷ bs) e = elim (Bool-cases (is_block dev blockno x)) [
      | inl h ↦
          let same : x ≡ b = some_inj x b (rw h at e) in
          rw (h, same_key d k)
            (ap (λ y. if is_block d k y then count d k bs + 1 else count d k bs) (sym same))
      | inr h ↦
          let rest = count-front d k bs (rw h at e) in
          elim (Bool-cases (is_block d k c)) [
            | inl here ↦
                let rest' : count d k (without dev blockno bs) + 1 ≡ count d k bs =
                  rw here at rest in
                elim (Bool-cases (is_block d k x)) [
                  | inl there ↦ rw (h, here, there) (omega arith)
                  | inr other ↦ rw (h, here, other) rest'
                ]
            | inr away ↦
                let rest' : count d k (without dev blockno bs) ≡ count d k bs = rw away at rest in
                elim (Bool-cases (is_block d k x)) [
                  | inl there ↦ rw (h, away, there) (omega arith)
                  | inr other ↦ rw (h, away, other) rest'
                ]
          ]
    ]

  -- Another block is shown alike without the buffer.
  shown-without :
      (disk : ℕ → ℕ → ℕ → ℕ) (d k : ℕ) (bs : List Buf)
      → find dev blockno bs ≡ some b
      → is_block d k b ≡ false
      → shown disk d k (without dev blockno bs) ≡ shown disk d k bs
  shown-without disk d k [] e other = refl
  shown-without disk d k (x ∷ bs) e other = elim (Bool-cases (is_block dev blockno x)) [
    | inl h ↦
        let same : x ≡ b = some_inj x b (rw h at e) in
        let away : is_block d k x ≡ false = ap (is_block d k) same ∙ other in rw (h, away) refl
    | inr h ↦ elim (Bool-cases (is_block d k x)) [
      | inl here ↦ rw (h, here) refl
      | inr away ↦ rw (h, away) (shown-without disk d k bs (rw h at e) other)
    ]
  ]

  Clean-without :
      (disk : ℕ → ℕ → ℕ → ℕ) (bs : List Buf) → Clean disk bs → Clean disk (without dev blockno bs)
  Clean-without disk [] c = tt
  Clean-without disk (x ∷ bs) (c, cs) = elim (Bool-cases (is_block dev blockno x)) [
    | inl h ↦ rw h cs
    | inr h ↦ rw h (c, Clean-without disk bs cs)
  ]

  -- The buffer without its lock and with a reference less.
  abbrev dropped : Buf
  dropped = record b { holder = none; refcnt = dec b.refcnt }

  -- What brelse leaves: the same blocks, and a buffer without references at the front.
  abbrev pub Released : Bcache → Outcome → Type 0
  Released s panics = ⊥
  Released s (waits t) = ⊥
  Released s (returns t) =
      Same s t
      × (t.disk ≡ s.disk)
      × (find dev blockno t.bufs ≡ some dropped)
      × (dec b.refcnt ≡ 0 → t.bufs ≡ dropped ∷ without dev blockno s.bufs)

  module _ (s : Bcache) (v : Sound s) (e : find dev blockno s.bufs ≡ some b)
      (clean : dec b.refcnt ≡ 0 → b.valid ≡ true → b.bytes ≡ s.disk dev blockno) where
    key : (b.dev ≡ dev) × (b.blockno ≡ blockno)
    key = is_block_eq dev blockno b (find-block dev blockno b s.bufs e)

    found_front : (bs : List Buf) → find dev blockno (dropped ∷ bs) ≡ some dropped
    found_front bs = rw (find-block dev blockno b s.bufs e) refl

    dropped_clean : UnusedClean s.disk dropped
    dropped_clean z valid = rw (key.0, key.1) (clean z valid)

    front-Same : Same s (record s { bufs = dropped ∷ without dev blockno s.bufs })
    front-Same = record {
      sound = record {
        single = λ d k ne. rw (count-front dropped (λ d k. refl) d k s.bufs e) (v.single d k ne);
        clean = (dropped_clean, Clean-without s.disk s.bufs v.clean);
      };
      shows = λ d k ne. elim (Bool-cases (is_block d k b)) [
        | inr other ↦ rw other (shown-without s.disk d k s.bufs e other)
        | inl here ↦
            let this = is_block_eq d k b here in
            let dd : dev ≡ d = sym (key.0) ∙ this.0 in
            let kk : blockno ≡ k = sym (key.1) ∙ this.1 in
            let found : find d k s.bufs ≡ some b =
              subst (λ d'. find d' k s.bufs ≡ some b) dd
                (subst (λ k'. find dev k' s.bufs ≡ some b) kk e) in
            rw here (sym (shown-find s.disk d k b s.bufs found))
      ];
    }

  -- brelse by the process that holds the buffer, where the disk has its bytes if this is the last
  -- reference: all blocks show the same bytes as before; the buffer is no longer held and has a
  -- reference less; without references it becomes the most recently used one, and the order of the
  -- others stays.
  pub brelse-Released :
      (pid : ℕ) (s : Bcache)
      → Sound s
      → find dev blockno s.bufs ≡ some b
      → b.holder ≡ some pid
      → (dec b.refcnt ≡ 0 → b.valid ≡ true → b.bytes ≡ s.disk dev blockno)
      → Released s (brelse pid dev blockno s)
  unfolding brelse
  brelse-Released pid s v e held clean = elim (Bool-cases (dec b.refcnt == 0)) [
    | inl last ↦
        rw (e, held, ==-refl pid, last, Released)
          (
            front-Same s v e clean,
            refl,
            found_front s v e clean (without dev blockno s.bufs),
            λ z. refl,
          )
    | inr more ↦
        let f : Buf → Buf = λ c. record c { holder = none; refcnt = dec c.refcnt } in
        rw (e, held, ==-refl pid, more, Released)
          (
            set_buf-Same dev blockno f s v (λ c. (refl, refl)) (λ c h. refl)
                (λ c h u z valid.
                  let same : c ≡ b = some_inj c b (sym h ∙ e) in
                  let zero : dec b.refcnt ≡ 0 = ap (λ x. dec x.refcnt) (sym same) ∙ z in
                  absurd (ground arith)),
            refl,
            find-set_buf f dev blockno b s.bufs (λ c. (refl, refl)) e,
            λ z. absurd (ground arith),
          )
  ]
