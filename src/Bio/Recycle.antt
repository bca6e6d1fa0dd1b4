-- ===== src/Bio/Recycle.antt =====
-- bget of kernel/bio.c for a block that is not cached: the buffer that it recycles.
use project.Base.{
  ℕ, ◌+◌, ◌≤◌, ◌≡◌, refl, sym, ◌∙◌, inl, inr, ◌==◌, ==-refl, eq_of_==, Bool, true, false, ◌&&◌,
  Option, none, some, List, [], ◌∷◌, if◌then◌else◌, arith, Bool-cases,
}
use mathlib.Core.Path.{subst}
use project.Bio.{Buf, is_block, find, recycle_last, recycled}
use project.Bio.Buffers.{shown, count, UnusedClean, Clean, is_block_eq, shown-absent}

abbrev pub AllUsed : List Buf → Type 0
AllUsed [] = Unit
AllUsed (b ∷ bs) = ((b.refcnt == 0) ≡ false) × AllUsed bs

module _ (disk : ℕ → ℕ → ℕ → ℕ) (dev blockno : ℕ) where
  -- Whether block `k` of device `d` is the one that is looked for.
  abbrev pub sought : (d k : ℕ) → Bool
  sought d k = (dev == d) && (blockno == k)

  -- The list in which an unused buffer has become one of the block, not yet valid.
  pub record Recycled (bs bs' : List Buf) : Type 0 where
    pub found : (b : Buf) × (find dev blockno bs' ≡ some b) × (b.valid ≡ false)
    pub counts : (d k : ℕ) → count d k bs' ≤ count d k bs + (if sought d k then 1 else 0)
    pub same : (d k : ℕ) → count d k bs ≤ 1 → shown disk d k bs' ≡ shown disk d k bs
    pub clean : Clean disk bs'

  abbrev pub Recycles : List Buf → Option (List Buf) → Type 0
  Recycles bs none = AllUsed bs
  Recycles bs (some bs') = Recycled bs bs'

  Recycled-behind :
      (b : Buf) (bs bs' : List Buf)
      → is_block dev blockno b ≡ false
      → UnusedClean disk b
      → Recycled bs bs'
      → Recycled (b ∷ bs) (b ∷ bs')
  Recycled-behind b bs bs' other c r = record {
    found = (r.found.0, rw other r.found.1, r.found.2);
    counts = λ d k. elim (Bool-cases (is_block d k b)) [
      | inl h ↦ rw h (omega (arith, r.counts d k))
      | inr h ↦ rw h (r.counts d k)
    ];
    same = λ d k le. elim (Bool-cases (is_block d k b)) [
      | inl h ↦ rw h refl
      | inr h ↦ rw h (r.same d k (rw h at le))
    ];
    clean = (c, r.clean);
  }

  Recycled-here :
      (b : Buf) (bs : List Buf)
      → (b.refcnt == 0) ≡ true
      → UnusedClean disk b
      → Clean disk bs
      → count dev blockno (b ∷ bs) ≤ 0
      → Recycled (b ∷ bs) (recycled dev blockno b ∷ bs)
  Recycled-here b bs unused c cs absent = record {
    found = (recycled dev blockno b, rw (==-refl dev, ==-refl blockno) refl, refl);
    counts = λ d k. elim (Bool-cases (sought d k)) [
      | inl h ↦ elim (Bool-cases (is_block d k b)) [
        | inl here ↦ rw (h, here) (omega arith)
        | inr other ↦ rw (h, other) (omega arith)
      ]
      | inr h ↦ elim (Bool-cases (is_block d k b)) [
        | inl here ↦ rw (h, here) (omega arith)
        | inr other ↦ rw (h, other) (omega arith)
      ]
    ];
    same = λ d k le. elim (Bool-cases (sought d k)) [
      | inl h ↦
          let dd : dev ≡ d = ground arith in
          let kk : blockno ≡ k = ground arith in
          let gone : count d k (b ∷ bs) ≤ 0 =
            subst (λ d'. count d' k (b ∷ bs) ≤ 0) dd
              (subst (λ k'. count dev k' (b ∷ bs) ≤ 0) kk absent) in
          rw h (sym (shown-absent disk d k (b ∷ bs) gone))
      | inr h ↦ elim (Bool-cases (is_block d k b)) [
        | inl here ↦
            let key = is_block_eq d k b here in
            let rest : count d k bs ≤ 0 = omega (arith, (rw here at le)) in
            let at_disk : disk b.dev b.blockno ≡ disk d k = rw (key.0, key.1) refl in
            rw (h, here, shown-absent disk d k bs rest)
              (elim (Bool-cases b.valid) [
                | inl valid ↦ rw valid (sym (c (eq_of_== b.refcnt 0 unused) valid ∙ at_disk))
                | inr fresh ↦ rw fresh refl
              ])
        | inr other ↦ rw (h, other) refl
      ]
    ];
    clean = ((λ r v. absurd (omega (arith, r))), cs);
  }

  recycle_round :
      (b : Buf) (bs : List Buf) (o : Option (List Buf))
      → UnusedClean disk b
      → Clean disk bs
      → count dev blockno (b ∷ bs) ≤ 0
      → Recycles bs o
      → Recycles (b ∷ bs) (elim o [
        | some bs' ↦ some (b ∷ bs')
        | none ↦ if b.refcnt == 0 then some (recycled dev blockno b ∷ bs) else none
      ])
  recycle_round b bs (some bs') c cs absent r = elim (Bool-cases (is_block dev blockno b)) [
    | inl h ↦ absurd (omega (arith, (rw h at absent)))
    | inr h ↦ Recycled-behind b bs bs' h c r
  ]
  recycle_round b bs none c cs absent r = elim (Bool-cases (b.refcnt == 0)) [
    | inl h ↦ rw h (Recycled-here b bs h c cs absent)
    | inr h ↦ rw h (h, r)
  ]

  pub recycle_last-Recycles :
      (bs : List Buf)
      → Clean disk bs
      → count dev blockno bs ≤ 0
      → Recycles bs (recycle_last dev blockno bs)
  recycle_last-Recycles [] c absent = tt
  recycle_last-Recycles (b ∷ bs) (c, cs) absent =
      recycle_round b bs (recycle_last dev blockno bs) c cs absent (
        recycle_last-Recycles bs cs (elim (Bool-cases (is_block dev blockno b)) [
          | inl h ↦ absurd (omega (arith, (rw h at absent)))
          | inr h ↦ rw h at absent
        ]))
