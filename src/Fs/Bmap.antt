-- ===== src/Fs/Bmap.antt =====
-- bmap of kernel/fs.c: the block of a file that it finds or adds.
use project.Base.{
  ℕ, ◌+◌, ◌-◌, ◌^◌, ◌≤◌, ◌<◌, ◌≡◌, refl, ◌∙◌, ◌⊎◌, inl, inr, true, false, Option, none, some, ltb,
  ◌==◌, if◌then◌else◌, arith, Bool-cases, eq_of_==,
}
use mathlib.Core.Path.{subst}
use project.Fs.{
  enter, refuses, Superblock, Fs, ndirect, nindirect, maxfile, put, balloc, log_write, pure, ◌>>=◌,
  ◌>>◌,
}
use project.Fs.Bitmap.{BitmapSafe}
use project.Fs.Alloc.{Allocated, balloc-Allocated, Took-BitmapSafe}
use project.Fs.Inode.{word, put_word, set_word, direct_entry, indirect_entry, bmap}
use project.Fs.Mapped.{lookup, Mapped, Took-block, new-ne-zero}
use project.Fs.Room.{
  Room, Logs, Room-less, Room-after, Logs-trans, refuses_lem, bind_none, bind_some, log_write-none,
  log_write-some,
}
use project.Fs.Grown.{
  Full, Grown, direct-Grown, entered-Grown, indirect_lookup, with_indirect-Mapped, Grown-same,
}

module _ (sb : Superblock) where
  -- The rest of indirect_entry behind balloc, and of bmap behind indirect_entry.
  abbrev entry_after : (ℕ → ℕ) → ℕ → Option (ℕ × Fs) → Option (ℕ × Fs)
  entry_after addrs j none = none
  entry_after addrs j (some (r, t)) =
      (if r == 0
          then pure 0
          else (do set_word (addrs ndirect) j r; log_write (addrs ndirect); pure r))
        t

  abbrev with_addrs : (ℕ → ℕ) → Option (ℕ × Fs) → Option ((ℕ × (ℕ → ℕ)) × Fs)
  with_addrs addrs none = none
  with_addrs addrs (some (r, t)) = some ((r, addrs), t)

  -- What bmap answers; it panics only without room for `cost` blocks in the log.
  abbrev pub Bmapped : ℕ → Fs → (ℕ → ℕ) → ℕ → Option ((ℕ × (ℕ → ℕ)) × Fs) → Type 0
  Bmapped cost s addrs bn none = Room cost s → ⊥
  Bmapped cost s addrs bn (some ((r, addrs'), t)) = Grown sb cost s addrs bn r t addrs'

  module _ (s : Fs) (addrs : ℕ → ℕ) (v : BitmapSafe sb s) (m : Mapped sb s addrs) where
    no_space :
        (cost bn : ℕ) → lookup s addrs bn ≡ 0 → Full sb s → Grown sb cost s addrs bn 0 s addrs
    no_space cost bn hole full =
        subst (λ r. Grown sb cost s addrs bn r s addrs) hole
          (Grown-same sb cost s addrs bn v m (λ z. full))

    -- The block is there.
    there-Grown :
        (cost bn r : ℕ)
        → lookup s addrs bn ≡ r
        → (r == 0) ≡ false
        → Grown sb cost s addrs bn r s addrs
    there-Grown cost bn r e ne =
        subst (λ r. Grown sb cost s addrs bn r s addrs) e
          (Grown-same sb cost s addrs bn v m (λ z. absurd (ground arith)))

    direct_alloc :
        (bn : ℕ) (o : Option (ℕ × Fs))
        → bn < ndirect
        → addrs bn ≡ 0
        → Allocated sb s o
        → Bmapped 5 s addrs bn (elim o [
          | none ↦ none
          | some (r, t) ↦ (if r == 0 then pure (0, addrs) else pure (r, put addrs bn r)) t
        ])
    direct_alloc bn none lt hole a = λ room. a (Room-less 5 2 s (omega arith) room)
    direct_alloc bn (some (r, t)) lt hole (inl (z, same, full)) =
        let first : ltb bn ndirect ≡ true = ground arith in
        rw (z, same) (no_space 5 bn (rw first hole) full)
    direct_alloc bn (some (r, t)) lt hole (inr took) =
        rw (new-ne-zero sb s t r v took)
          (direct-Grown sb s t r v took addrs m 5 bn (omega arith) lt hole)

    direct_entry-Bmapped :
        (bn : ℕ) → bn < ndirect → Bmapped 5 s addrs bn (direct_entry sb bn addrs s)
    unfolding direct_entry
    direct_entry-Bmapped bn lt = elim (Bool-cases (addrs bn == 0)) [
      | inl h ↦
          rw h
            (direct_alloc bn (balloc sb s) lt (eq_of_== (addrs bn) 0 h) (balloc-Allocated sb s v))
      | inr h ↦
          let first : ltb bn ndirect ≡ true = ground arith in
          rw h (there-Grown 5 bn (addrs bn) (rw first refl) h)
    ]

    -- The indirect block, allocated if need be, or 0 where there is no space.
    WithIndirect : Option ((ℕ × (ℕ → ℕ)) × Fs) → Type 0
    WithIndirect none = Room 2 s → ⊥
    WithIndirect (some ((ind, addrs'), t)) =
        ((ind ≡ 0) × (t ≡ s) × (addrs' ≡ addrs) × (addrs ndirect ≡ 0) × Full sb s)
        ⊎ (((ind == 0) ≡ false)
            × (addrs' ndirect ≡ ind)
            × Mapped sb t addrs'
            × BitmapSafe sb t
            × ((k : ℕ) → k < maxfile → lookup t addrs' k ≡ lookup s addrs k)
            × ((k : ℕ)
                → k < maxfile
                → (lookup s addrs k == 0) ≡ false
                → t.block (lookup s addrs k) ≡ s.block (lookup s addrs k))
            × (t.dinode ≡ s.dinode)
            × Logs 2 s t)

    indirect_alloc :
        (o : Option (ℕ × Fs))
        → addrs ndirect ≡ 0
        → Allocated sb s o
        → WithIndirect (elim o [
          | none ↦ none
          | some (r, t) ↦ (if r == 0 then pure (0, addrs) else pure (r, put addrs ndirect r)) t
        ])
    unfolding WithIndirect
    indirect_alloc none none_yet a = a
    indirect_alloc (some (r, t)) none_yet (inl (z, same, full)) =
        rw z (inl (refl, same, refl, none_yet, full))
    indirect_alloc (some (r, t)) none_yet (inr took) = rw (new-ne-zero sb s t r v took) (
        inr (
          new-ne-zero sb s t r v took,
          refl,
          with_indirect-Mapped sb s t r v took addrs m none_yet,
          Took-BitmapSafe sb s t r v took,
          (λ k kl. indirect_lookup sb s t r v took addrs m k none_yet kl),
          (λ k kl ne. Took-block sb s t r v took (lookup s addrs k) (m.blocks k kl ne)),
          took.same_inodes,
          took.logs,
        ))

    direct_entry-WithIndirect : WithIndirect (direct_entry sb ndirect addrs s)
    unfolding WithIndirect direct_entry
    direct_entry-WithIndirect = elim (Bool-cases (addrs ndirect == 0)) [
      | inl h ↦
          rw h
            (indirect_alloc (balloc sb s) (eq_of_== (addrs ndirect) 0 h) (balloc-Allocated sb s v))
      | inr h ↦ rw h (
          inr (
            h,
            refl,
            m,
            v,
            (λ k kl. refl),
            (λ k kl ne. refl),
            refl,
            record { same_op = refl; same_size = refl; more = omega arith; keeps = λ b h. h },
          ))
    ]

    -- The answer of indirect_entry.
    module _ (there : (addrs ndirect == 0) ≡ false) (small : sb.size ≤ 2 ^ 32) where
      lookup-indirect : (j : ℕ) → lookup s addrs (j + ndirect) ≡ word (s.block (addrs ndirect)) j
      lookup-indirect j =
          let behind : ltb (j + ndirect) ndirect ≡ false = ground arith in
          let place : j + ndirect - ndirect ≡ j = omega arith in rw (behind, there, place) refl

      entry_alloc :
          (j : ℕ) (o : Option (ℕ × Fs))
          → j < nindirect
          → lookup s addrs (j + ndirect) ≡ 0
          → Allocated sb s o
          → Bmapped 3 s addrs (j + ndirect) (with_addrs addrs (entry_after addrs j o))
      entry_alloc j none jl hole a = λ room. a (Room-less 3 2 s (omega arith) room)
      entry_alloc j (some (r, t)) jl hole (inl (z, same, full)) =
          rw (z, same) (no_space 3 (j + ndirect) hole full)
      entry_alloc j (some (r, t)) jl hole (inr took) =
          let u : Fs = record t {
            block = put t.block (addrs ndirect) (put_word (t.block (addrs ndirect)) j r);
          } in
          elim (Bool-cases (refuses t.logged t.outstanding t.log_size)) [
            | inl h ↦
                rw
                  (
                    new-ne-zero sb s t r v took,
                    bind_none (log_write (addrs ndirect)) (λ _. pure r) u
                        (log_write-none (addrs ndirect) u h),
                  )
                  (λ room. refuses_lem t h (Room-after 2 1 s t took.logs room))
            | inr h ↦
                rw
                  (
                    new-ne-zero sb s t r v took,
                    bind_some (log_write (addrs ndirect)) (λ _. pure r) u
                        (record u { logged = enter (addrs ndirect) t.logged }) tt
                        (log_write-some (addrs ndirect) u h),
                  )
                  (entered-Grown sb s t r v took addrs m there small j jl hole)
          ]

      indirect_entry-Bmapped :
          (j : ℕ)
          → j < nindirect
          → Bmapped 3 s addrs
              (j + ndirect)
              (with_addrs addrs (indirect_entry sb (addrs ndirect) j s))
      unfolding indirect_entry
      indirect_entry-Bmapped j jl = elim (Bool-cases (word (s.block (addrs ndirect)) j == 0)) [
        | inl h ↦ rw h (
            entry_alloc j (balloc sb s) jl
              (lookup-indirect j ∙ eq_of_== (word (s.block (addrs ndirect)) j) 0 h)
              (balloc-Allocated sb s v))
        | inr h ↦
            rw h
              (there-Grown 3 (j + ndirect) (word (s.block (addrs ndirect)) j) (lookup-indirect j) h)
      ]

  -- What is left after a step that keeps the blocks of the file.
  Grown-after :
      (s t : Fs) (addrs addrs' : ℕ → ℕ) (bn : ℕ) (o : Option ((ℕ × (ℕ → ℕ)) × Fs))
      → bn < maxfile
      → ((k : ℕ) → k < maxfile → lookup t addrs' k ≡ lookup s addrs k)
      → ((k : ℕ)
          → k < maxfile
          → (lookup s addrs k == 0) ≡ false
          → t.block (lookup s addrs k) ≡ s.block (lookup s addrs k))
      → t.dinode ≡ s.dinode
      → Logs 2 s t
      → Bmapped 3 t addrs' bn o
      → Bmapped 5 s addrs bn o
  Grown-after s t addrs addrs' bn none bl same bytes inodes logs g =
      λ room. g (Room-after 2 3 s t logs room)
  Grown-after s t addrs addrs' bn (some ((r, addrs''), u)) bl same bytes inodes logs g = record {
    safe = g.safe;
    mapped = g.mapped;
    entry = g.entry;
    others = λ k kl ne. g.others k kl ne ∙ same k kl;
    kept = λ ne. g.kept (rw (same bn bl) ne) ∙ same bn bl;
    same_bytes = λ k kl ne.
        let e =
          subst (λ b. u.block b ≡ t.block b) (same k kl) (g.same_bytes k kl (rw (same k kl) ne)) in
        e ∙ bytes k kl ne;
    new_zeroed = λ z ne i. g.new_zeroed (same bn bl ∙ z) ne i;
    same_inodes = g.same_inodes ∙ inodes;
    full = g.full;
    logs = Logs-trans 2 3 s t u logs g.logs;
  }

  indirect_rest :
      (s : Fs) (addrs : ℕ → ℕ) (bn : ℕ) (o : Option ((ℕ × (ℕ → ℕ)) × Fs)) (v : BitmapSafe sb s)
      (m : Mapped sb s addrs)
      → sb.size ≤ 2 ^ 32
      → ltb bn ndirect ≡ false
      → bn < maxfile
      → WithIndirect s addrs v m o
      → Bmapped 5 s addrs bn (elim o [
        | none ↦ none
        | some ((ind, addrs'), t) ↦
            (if ind == 0
                then pure (0, addrs')
                else (do r ← indirect_entry sb ind (bn - ndirect); pure (r, addrs')))
              t
      ])
  unfolding WithIndirect
  indirect_rest s addrs bn none v m small ge bl w = λ room. w (Room-less 5 2 s (omega arith) room)
  indirect_rest s addrs bn (some ((ind, addrs'), t)) v m small ge bl
        (inl (z, same, eq, none_yet, full)) =
      rw (z, same, eq) (no_space s addrs v m 5 bn (rw (ge, none_yet) refl) full)
  indirect_rest s addrs bn (some ((ind, addrs'), t)) v m small ge bl
        (inr (ne, at, m', v', same, bytes, inodes, logs)) =
      let place : bn - ndirect + ndirect ≡ bn = ground arith in
      let there : (addrs' ndirect == 0) ≡ false = rw at ne in
      rw ne (
        Grown-after s t addrs addrs' bn _ bl same bytes inodes logs (
          subst
            (λ k. Bmapped 3 t addrs' k (with_addrs addrs' (indirect_entry sb ind (bn - ndirect) t)))
            place
            (subst
              (λ b.
                Bmapped 3 t addrs' (bn - ndirect + ndirect)
                  (with_addrs addrs' (indirect_entry sb b (bn - ndirect) t)))
              at
              (indirect_entry-Bmapped t addrs' v' m' there small (bn - ndirect) (ground arith)))))

  -- bmap of a block number below MAXFILE, for a file whose blocks are in use, distinct and no
  -- bitmap blocks. The file has the block that it returns at that number: the one that was there,
  -- or a new one that is zeroed; it returns 0 only where no block is free. The other blocks of the
  -- file are the same with the same bytes, and again all are in use, distinct and no bitmap blocks.
  -- At most 5 blocks are logged, and it panics only outside of an operation or where the log has no
  -- room for 5 more.
  pub bmap-Bmapped :
      (s : Fs) (addrs : ℕ → ℕ) (bn : ℕ)
      → BitmapSafe sb s
      → Mapped sb s addrs
      → sb.size ≤ 2 ^ 32
      → bn < maxfile
      → Bmapped 5 s addrs bn (bmap sb addrs bn s)
  unfolding bmap
  bmap-Bmapped s addrs bn v m small bl = elim (Bool-cases (ltb bn ndirect)) [
    | inl h ↦ rw h (direct_entry-Bmapped s addrs v m bn (ground arith))
    | inr h ↦
        let inside : ltb (bn - ndirect) nindirect ≡ true = ground arith in
        rw (h, inside)
          (indirect_rest s addrs bn (direct_entry sb ndirect addrs s) v m small h bl
            (direct_entry-WithIndirect s addrs v m))
  ]
