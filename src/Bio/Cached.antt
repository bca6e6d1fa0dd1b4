-- ===== src/Bio/Cached.antt =====
-- bread of kernel/bio.c against what the cache shows of each block.
use project.Base.{
  ℕ, ◌+◌, ◌^◌, ◌≤◌, ◌<◌, ◌≡◌, ◌≢◌, refl, sym, ◌∙◌, inl, inr, ◌==◌, true, false, Option, none, some,
  List, if◌then◌else◌, arith, Bool-cases, Option-cases,
}
use mathlib.Core.Path.{subst}
use project.Bio.{
  Buf, Bcache, Outcome, panics, waits, returns, inc, is_block, find, set_buf, recycle_last,
  acquiresleep, bget, load, bread,
}
use project.Bio.Buffers.{
  view, count, UnusedClean, Sound, KeepsBlock, is_block_eq, count-set_buf, find-set_buf, find-block,
  shown-find, shown-set_buf, Clean-set_buf, count-absent,
}
use project.Bio.Recycle.{AllUsed, Recycles, sought, recycle_last-Recycles}

-- All blocks show the same bytes as before.
pub record Same (s t : Bcache) : Type 0 where
  pub sound : Sound t
  pub shows : (d k : ℕ) → (d == 0) ≡ false → view t d k ≡ view s d k

pub Same-trans : (s t u : Bcache) → Same s t → Same t u → Same s u
Same-trans s t u p q = record { sound = q.sound; shows = λ d k ne. q.shows d k ne ∙ p.shows d k ne }

module _ (dev blockno : ℕ) where
  -- A change of the buffer of the block that keeps its bytes.
  pub set_buf-Same :
      (f : Buf → Buf) (s : Bcache)
      → Sound s
      → KeepsBlock f
      → ((b : Buf)
          → is_block dev blockno b ≡ true
          → (if (f b).valid then (f b).bytes else s.disk b.dev b.blockno)
            ≡ (if b.valid then b.bytes else s.disk b.dev b.blockno))
      → ((b : Buf)
          → find dev blockno s.bufs ≡ some b
          → UnusedClean s.disk b
          → UnusedClean s.disk (f b))
      → Same s (record s { bufs = set_buf dev blockno f s.bufs })
  set_buf-Same f s v keeps same clean = record {
    sound = record {
      single = λ d k ne. rw (count-set_buf f dev blockno d k s.bufs keeps) (v.single d k ne);
      clean = Clean-set_buf s.disk f dev blockno s.bufs clean v.clean;
    };
    shows = λ d k ne. shown-set_buf s.disk f dev blockno d k s.bufs keeps same;
  }

  -- The buffer of the block, with a property.
  abbrev pub Has : Bcache → (Buf → Type 0) → Type 0
  Has s P = (b : Buf) × (find dev blockno s.bufs ≡ some b) × P b

  -- What bget comes to.
  abbrev pub Got : (pid : ℕ) → Bcache → Outcome → Type 0
  Got pid s panics = (find dev blockno s.bufs ≡ none) × AllUsed s.bufs
  Got pid s (waits t) = Same s t × Has t (λ b. b.holder ≢ none)
  Got pid s (returns t) = Same s t × (t.disk ≡ s.disk) × Has t (λ b. b.holder ≡ some pid)

  acquiresleep-Got :
      (pid : ℕ) (s t : Bcache) (b : Buf)
      → Same s t
      → t.disk ≡ s.disk
      → find dev blockno t.bufs ≡ some b
      → Got pid s (acquiresleep pid dev blockno t)
  unfolding acquiresleep
  acquiresleep-Got pid s t b same disk e = elim (Option-cases b.holder) [
    | inr (q, held) ↦
        rw (e, held, Got)
          (same, (b, e, λ h. let clash : some q ≡ none = sym held ∙ h in absurd (ground arith)))
    | inl free ↦
        rw (e, free, Got)
          (
            Same-trans s t _ same (
                set_buf-Same (λ c. record c { holder = some pid }) t same.sound (λ c. (refl, refl))
                  (λ c h. refl) (λ c h u. u)),
            disk,
            (
              record b { holder = some pid },
              find-set_buf (λ c. record c { holder = some pid }) dev blockno b t.bufs
                  (λ c. (refl, refl)) e,
              refl,
            ),
          )
  ]

  recycled-Got :
      (pid : ℕ) (s : Bcache) (o : Option (List Buf))
      → (dev == 0) ≡ false
      → Sound s
      → find dev blockno s.bufs ≡ none
      → Recycles s.disk dev blockno s.bufs o
      → Got pid s (elim o [
        | none ↦ panics
        | some bs ↦ acquiresleep pid dev blockno (record s { bufs = bs })
      ])
  recycled-Got pid s none ne v e r = (e, r)
  recycled-Got pid s (some bs) ne v e r =
      acquiresleep-Got pid s (record s { bufs = bs }) r.found.0
        (record {
          sound = record {
            single = λ d k n. elim (Bool-cases (sought s.disk dev blockno d k)) [
              | inl h ↦
                  let dd : dev ≡ d = ground arith in
                  let kk : blockno ≡ k = ground arith in
                  let gone : count d k s.bufs ≤ 0 =
                    subst (λ d'. count d' k s.bufs ≤ 0) dd
                      (subst (λ k'. count dev k' s.bufs ≤ 0) kk
                        (count-absent dev blockno s.bufs e)) in
                  let c : count d k bs ≤ count d k s.bufs + 1 = rw h at (r.counts d k) in
                  omega arith
              | inr h ↦
                  let c : count d k bs ≤ count d k s.bufs + 0 = rw h at (r.counts d k) in
                  omega (arith, v.single d k n)
            ];
            clean = r.clean;
          };
          shows = λ d k n. r.same d k (v.single d k n);
        })
        refl r.found.1

  bget-Got :
      (pid : ℕ) (s : Bcache)
      → (dev == 0) ≡ false
      → Sound s
      → ((b : Buf) → find dev blockno s.bufs ≡ some b → b.refcnt + 1 < 2 ^ 32)
      → Got pid s (bget pid dev blockno s)
  unfolding bget
  bget-Got pid s ne v few = elim (Option-cases (find dev blockno s.bufs)) [
    | inl e ↦
        rw (e, Got)
          (recycled-Got pid s (recycle_last dev blockno s.bufs) ne v e (
            recycle_last-Recycles s.disk dev blockno s.bufs v.clean
              (count-absent dev blockno s.bufs e)))
    | inr (b, e) ↦
        let f : Buf → Buf = λ c. record c { refcnt = inc c.refcnt } in
        rw (e, Got)
          (acquiresleep-Got pid s _ (f b)
            (set_buf-Same f s v (λ c. (refl, refl)) (λ c h. refl)
              (λ c h u z valid. absurd (omega (arith, few c h, z))))
            refl (find-set_buf f dev blockno b s.bufs (λ c. (refl, refl)) e))
  ]

  -- What bread comes to.
  abbrev pub Cached : (pid : ℕ) → Bcache → Outcome → Type 0
  Cached pid s panics = (find dev blockno s.bufs ≡ none) × AllUsed s.bufs
  Cached pid s (waits t) = Same s t × Has t (λ b. b.holder ≢ none)
  Cached pid s (returns t) =
      Same s t
      × (t.disk ≡ s.disk)
      × Has t (λ b. (b.holder ≡ some pid) × (b.valid ≡ true) × (b.bytes ≡ view s dev blockno))

  -- The buffer as bread leaves it.
  abbrev loaded : (ℕ → ℕ → ℕ → ℕ) → Buf → Buf
  loaded disk c = if c.valid then c else record c { bytes = disk dev blockno; valid = true }

  loaded-keeps :
      (disk : ℕ → ℕ → ℕ → ℕ) (c : Buf)
      → ((loaded disk c).dev ≡ c.dev) × ((loaded disk c).blockno ≡ c.blockno)
  loaded-keeps disk c = elim (Bool-cases c.valid) [
    | inl v ↦ rw v (refl, refl)
    | inr v ↦ rw v (refl, refl)
  ]

  loaded_valid :
      (disk : ℕ → ℕ → ℕ → ℕ) (c : Buf)
      → ((loaded disk c).valid ≡ true) × ((loaded disk c).holder ≡ c.holder)
  loaded_valid disk c = elim (Bool-cases c.valid) [
    | inl v ↦ rw v (refl, refl)
    | inr v ↦ rw v (refl, refl)
  ]

  loaded_shown :
      (disk : ℕ → ℕ → ℕ → ℕ) (c : Buf)
      → is_block dev blockno c ≡ true
      → (if (loaded disk c).valid then (loaded disk c).bytes else disk c.dev c.blockno)
        ≡ (if c.valid then c.bytes else disk c.dev c.blockno)
  loaded_shown disk c h = elim (Bool-cases c.valid) [
    | inl v ↦ rw v refl
    | inr v ↦ let key = is_block_eq dev blockno c h in rw (v, key.0, key.1) refl
  ]

  loaded_clean :
      (disk : ℕ → ℕ → ℕ → ℕ) (c : Buf)
      → is_block dev blockno c ≡ true
      → UnusedClean disk c
      → UnusedClean disk (loaded disk c)
  loaded_clean disk c h u z valid = elim (Bool-cases c.valid) [
    | inl v ↦ rw v (u (rw v at z) v)
    | inr v ↦ let key = is_block_eq dev blockno c h in rw (v, key.0, key.1) refl
  ]

  load-Cached :
      (pid : ℕ) (s : Bcache) (o : Outcome)
      → (dev == 0) ≡ false
      → Got pid s o
      → Cached pid s (elim o [
        | panics ↦ panics
        | waits t ↦ waits t
        | returns t ↦ returns (load dev blockno t)
      ])
  unfolding load
  load-Cached pid s panics ne g = g
  load-Cached pid s (waits t) ne g = g
  load-Cached pid s (returns t) ne (same, disk, (b, e, held)) =
      let u = record t { bufs = set_buf dev blockno (loaded t.disk) t.bufs } in
      let both : Same s u = Same-trans s t u same (
        set_buf-Same (loaded t.disk) t same.sound (loaded-keeps t.disk) (loaded_shown t.disk)
          (λ c h. loaded_clean t.disk c (find-block dev blockno c t.bufs h))) in
      let at = find-set_buf (loaded t.disk) dev blockno b t.bufs (loaded-keeps t.disk) e in
      let fields = loaded_valid t.disk b in
      let bytes : view u dev blockno ≡ (loaded t.disk b).bytes =
        shown-find t.disk dev blockno (loaded t.disk b) u.bufs at ∙ rw (fields.0) refl in
      (
        both,
        disk,
        (loaded t.disk b, at, (fields.1 ∙ held, fields.0, sym bytes ∙ both.shows dev blockno ne)),
      )

  -- bread of a block of a device other than 0, where no counter of references overflows: all blocks
  -- show the same bytes as before and each still has one buffer at most. It returns a buffer that
  -- the process holds, valid, with the bytes that the cache showed of the block; it sleeps where
  -- another process holds the buffer; it panics only where the block is not cached and all buffers
  -- are in use.
  pub bread-Cached :
      (pid : ℕ) (s : Bcache)
      → (dev == 0) ≡ false
      → Sound s
      → ((b : Buf) → find dev blockno s.bufs ≡ some b → b.refcnt + 1 < 2 ^ 32)
      → Cached pid s (bread pid dev blockno s)
  unfolding bread
  bread-Cached pid s ne v few =
      load-Cached pid s (bget pid dev blockno s) ne (bget-Got pid s ne v few)
