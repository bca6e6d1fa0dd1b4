-- ===== src/Fs/Free.antt =====
-- bfree of kernel/fs.c, and bfree after balloc.
use project.Base.{
  ℕ, ◌-◌, ◌/◌, ◌%◌, ◌^◌, ◌<◌, ◌≡◌, ◌≢◌, refl, sym, ◌∙◌, inl, inr, Bool, true, false, not, ◌&&◌,
  ◌||◌, Option, none, some, ◌==◌, ==-ne, ==-refl, arith, Bool-cases, eq_of_==,
}
use mathlib.Core.Path.{subst}
use Prim.Native.Nat.{bit_and}
use project.Fs.Room.{Room, refuses_lem, log_write-none, log_write-some}
use project.Fs.{Superblock, Fs, refuses, enter, bpb, put, bit_clear, bblock, balloc, bfree}
use project.Fs.Bitmap.{same_bit, or_false, or_left, and_false, is_free, BitmapSafe, Took, put-byte}
use project.Fs.Alloc.{Allocated, balloc-Allocated, Took-BitmapSafe}
use project.Fs.Bits.{bit_clear-reset, reset-byte}

module _ (sb : Superblock) where
  -- Block `r` was in use and is now free; nothing else has changed.
  pub record Freed (s : Fs) (r : ℕ) (t : Fs) : Type 0 where
    pub now_free : (c : ℕ) → c < sb.size → is_free sb t c ≡ (is_free sb s c || (c == r))
    pub same_rest : (b : ℕ) → (b == bblock sb r) ≡ false → t.block b ≡ s.block b
    pub same_inodes : t.dinode ≡ s.dinode
    pub safe : BitmapSafe sb t

  -- What bfree does: a panic where the block is free already, and else only without room for a
  -- block in the log.
  abbrev pub Released : Fs → ℕ → Option (Unit {0} × Fs) → Type 0
  Released s r none = is_free sb s r ≡ false → Room 1 s → ⊥
  Released s r (some (_, t)) = (is_free sb s r ≡ false) × Freed s r t

  cleared-Freed :
      (r : ℕ) (s : Fs)
      → BitmapSafe sb s
      → (r == 0) ≡ false
      → r < sb.size
      → ((d : ℕ) → d < sb.size → (bblock sb d == r) ≡ false)
      → Freed s r (record s {
        block = put s.block (bblock sb r) (
            put
              (s.block (bblock sb r))
              (r % bpb / 8)
              (bit_and (s.block (bblock sb r) (r % bpb / 8)) (255 - 2 ^ (r % bpb % 8))));
        logged = enter (bblock sb r) s.logged;
      })
  cleared-Freed r s v ne rl other = record {
    now_free = now;
    same_rest = λ b nm. rw nm refl;
    same_inodes = refl;
    safe = record {
      boot_used = boot;
      bytes = put-byte s.block (bblock sb r) row v.bytes row_bytes;
      map_used = λ c d cl dl free. elim (Bool-cases (c == r)) [
        | inl e ↦ rw (eq_of_== c r e) (other d dl)
        | inr e ↦ v.map_used c d cl dl (or_left (is_free sb s c) (c == r) e (sym (now c cl) ∙ free))
      ];
    };
  }
    where
      row : ℕ → ℕ
      row =
          put (s.block (bblock sb r)) (r % bpb / 8)
            (bit_and (s.block (bblock sb r) (r % bpb / 8)) (255 - 2 ^ (r % bpb % 8)))

      row_bytes : (i : ℕ) → row i < 256
      row_bytes i = elim (Bool-cases (i == r % bpb / 8)) [
        | inl e ↦
            rw e
              (reset-byte (s.block (bblock sb r)) (r % bpb) (v.bytes (bblock sb r) (r % bpb / 8)))
        | inr e ↦ rw e (v.bytes (bblock sb r) i)
      ]

      now :
          (c : ℕ)
          → c < sb.size
          → bit_clear (put s.block (bblock sb r) row (bblock sb c)) (c % bpb)
            ≡ (is_free sb s c || (c == r))
      now c cl = elim (Bool-cases (bblock sb c == bblock sb r)) [
        | inl e ↦
            let q = eq_of_== (bblock sb c) (bblock sb r) e in
            rw e (
              bit_clear-reset (s.block (bblock sb r)) (r % bpb)
                (v.bytes (bblock sb r) (r % bpb / 8)) (c % bpb)
              ∙ rw (q, same_bit c r (omega arith)) refl)
        | inr e ↦
            let apart : (c == r) ≡ false = ground arith in rw (e, apart) (or_false (is_free sb s c))
      ]

      boot : bit_clear (put s.block (bblock sb r) row (bblock sb 0)) (0 % bpb) ≡ false
      boot = now 0 (omega arith) ∙ ground (arith, v.boot_used)

  -- bfree of a block that is not a bitmap block: it answers only if the block is in use, and for
  -- such a block it panics only outside of an operation or without room in the log. Exactly this
  -- block is free in addition, no block but its bitmap block changes, and again no free block is a
  -- bitmap block.
  pub bfree-Released :
      (r : ℕ) (s : Fs)
      → BitmapSafe sb s
      → (r == 0) ≡ false
      → r < sb.size
      → ((d : ℕ) → d < sb.size → (bblock sb d == r) ≡ false)
      → Released s r (bfree sb r s)
  unfolding bfree
  bfree-Released r s v ne rl other = elim (Bool-cases (is_free sb s r)) [
    | inl h ↦ rw h (λ used room. absurd (ground arith))
    | inr h ↦
        let byte : Fs = record s {
          block = put s.block (bblock sb r) (
              put (s.block (bblock sb r)) (r % bpb / 8)
                (bit_and (s.block (bblock sb r) (r % bpb / 8)) (255 - 2 ^ (r % bpb % 8))));
        } in
        elim (Bool-cases (refuses s.logged s.outstanding s.log_size)) [
          | inl full ↦
              rw (h, log_write-none (bblock sb r) byte full) (λ used room. refuses_lem s full room)
          | inr g ↦ rw (h, log_write-some (bblock sb r) byte g) (h, cleared-Freed r s v ne rl other)
        ]
  ]

  Released-some :
      (s : Fs) (r : ℕ) (o : Option (Unit {0} × Fs))
      → Released s r o
      → is_free sb s r ≡ false
      → Room 1 s
      → (t : Fs) × (o ≡ some (tt, t)) × Freed s r t
  Released-some s r none h used room = absurd (h used room)
  Released-some s r (some (tt, t)) h used room = (t, refl, h.1)

  restored : (a b x y : Bool) → x ≡ (a && not b) → y ≡ (x || b) → (b ≡ true → a ≡ true) → y ≡ a
  restored a true x y p q h = ground (arith, h refl)
  restored true false x y p q h = ground arith
  restored false false x y p q h = ground arith

  bfree-Took :
      (s t : Fs) (r : ℕ)
      → BitmapSafe sb s
      → r ≢ 0
      → Took sb s r t
      → Room 1 t
      → (u : Fs) × (bfree sb r t ≡ some (tt, u))
        × BitmapSafe sb u
        × ((c : ℕ) → c < sb.size → is_free sb u c ≡ is_free sb s c)
  bfree-Took s t r v ne k room =
      let w = Took-BitmapSafe sb s t r v k in
      let used : is_free sb t r ≡ false =
        k.now_free r k.in_range ∙ rw (==-refl r) (and_false (is_free sb s r)) in
      let (u, e, f) =
        Released-some t r (bfree sb r t)
          (bfree-Released r t w (==-ne r 0 ne) k.in_range
            (λ d dl. v.map_used r d k.in_range dl k.was_free))
          used room in
      (
        u,
        e,
        f.safe,
        λ c cl.
            restored (is_free sb s c) (c == r) (is_free sb t c) (is_free sb u c) (k.now_free c cl)
              (f.now_free c cl) (λ h. rw (eq_of_== c r h) k.was_free),
      )

  -- Where balloc took a block and the log has room for one more, bfree of that block does not
  -- panic, and leaves exactly the blocks free that were free before.
  pub bfree-balloc :
      (s t : Fs) (r : ℕ)
      → BitmapSafe sb s
      → balloc sb s ≡ some (r, t)
      → r ≢ 0
      → Room 1 t
      → (u : Fs) × (bfree sb r t ≡ some (tt, u))
        × BitmapSafe sb u
        × ((c : ℕ) → c < sb.size → is_free sb u c ≡ is_free sb s c)
  bfree-balloc s t r v e ne room = elim (subst (Allocated sb s) e (balloc-Allocated sb s v)) [
    | inl (z, _, _) ↦ absurd (ne z)
    | inr k ↦ bfree-Took s t r v ne k room
  ]
