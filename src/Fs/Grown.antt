-- ===== src/Fs/Grown.antt =====
-- The blocks of a file of kernel/fs.c after bmap has added one: an entry of addrs, a word of the
-- indirect block, or the indirect block.
use project.Base.{
  ℕ, ◌+◌, ◌-◌, ◌*◌, ◌^◌, ◌≤◌, ◌<◌, ◌≡◌, refl, sym, ◌∙◌, inl, inr, true, false, ltb, ◌==◌, ==-refl,
  ==_sym, if◌then◌else◌, arith, Bool-cases, eq_of_==,
}
use project.Fs.{enter, Superblock, Fs, ndirect, nindirect, maxfile, put}
use project.Fs.Room.{Logs, Logs-less, length-enter, has-enter}
use project.Fs.Bitmap.{is_free, BitmapSafe, Took, put-byte}
use project.Fs.Alloc.{Took-BitmapSafe}
use project.Fs.Inode.{put_word}
use project.Fs.Mapped.{
  word-put_word, put_word-lt, lookup, InUse, Mapped, Took-block, InUse-Took, InUse-new, new-ne-zero,
  lookup-Took, lookup-ne-new, InUse-ne, Layout-insert,
}

module _ (sb : Superblock) where
  -- No block is free.
  abbrev pub Full : Fs → Type 0
  Full s = (c : ℕ) → c < sb.size → is_free sb s c ≡ false

  -- What bmap leaves: block `bn` of the file is `r`, as before or new and zeroed, or 0 where there
  -- is none free; the other blocks of the file are the same, with the same bytes. At most `cost`
  -- blocks are logged.
  pub record Grown (cost : ℕ) (s : Fs) (addrs : ℕ → ℕ) (bn r : ℕ) (t : Fs) (addrs' : ℕ → ℕ)
      : Type 0 where
    pub safe : BitmapSafe sb t
    pub mapped : Mapped sb t addrs'
    pub entry : lookup t addrs' bn ≡ r
    pub others : (k : ℕ) → k < maxfile → (k == bn) ≡ false → lookup t addrs' k ≡ lookup s addrs k
    pub kept : (lookup s addrs bn == 0) ≡ false → r ≡ lookup s addrs bn
    pub same_bytes :
        (k : ℕ)
        → k < maxfile
        → (lookup s addrs k == 0) ≡ false
        → t.block (lookup s addrs k) ≡ s.block (lookup s addrs k)
    pub new_zeroed : lookup s addrs bn ≡ 0 → (r == 0) ≡ false → (i : ℕ) → t.block r i ≡ 0
    pub same_inodes : t.dinode ≡ s.dinode
    pub full : r ≡ 0 → Full t
    pub logs : Logs cost s t

  pub Grown-same :
      (cost : ℕ) (s : Fs) (addrs : ℕ → ℕ) (bn : ℕ)
      → BitmapSafe sb s
      → Mapped sb s addrs
      → (lookup s addrs bn ≡ 0 → Full s)
      → Grown cost s addrs bn (lookup s addrs bn) s addrs
  Grown-same cost s addrs bn v m full = record {
    safe = v;
    mapped = m;
    entry = refl;
    others = λ k kl ne. refl;
    kept = λ ne. refl;
    same_bytes = λ k kl ne. refl;
    new_zeroed = λ z ne. absurd (ground arith);
    same_inodes = refl;
    full = full;
    logs = record { same_op = refl; same_size = refl; more = omega arith; keeps = λ b h. h };
  }

  module _ (s t : Fs) (r : ℕ) (v : BitmapSafe sb s) (took : Took sb s r t) (addrs : ℕ → ℕ)
      (m : Mapped sb s addrs) where
    -- The new block is entered directly.
    direct_lookup :
        (bn k : ℕ)
        → bn < ndirect
        → lookup t (put addrs bn r) k ≡ (if k == bn then r else lookup s addrs k)
    direct_lookup bn k lt =
        let apart : (ndirect == bn) ≡ false = ground arith in
        rw apart (elim (Bool-cases (k == bn)) [
          | inl h ↦ let first : ltb k ndirect ≡ true = ground arith in rw (first, h) refl
          | inr h ↦ rw h (lookup-Took sb s t r v took addrs m k)
        ])

    fresh-ne-indirect : (r == addrs ndirect) ≡ false
    fresh-ne-indirect = elim (Bool-cases (addrs ndirect == 0)) [
      | inl h ↦ rw (eq_of_== (addrs ndirect) 0 h) (new-ne-zero sb s t r v took)
      | inr h ↦ ==_sym r (addrs ndirect) ∙ InUse-ne sb s t r v took (addrs ndirect) (m.indirect h)
    ]

    pub direct-Grown :
        (cost bn : ℕ)
        → 2 ≤ cost
        → bn < ndirect
        → addrs bn ≡ 0
        → Grown cost s addrs bn r t (put addrs bn r)
    direct-Grown cost bn enough lt hole = record {
      safe = Took-BitmapSafe sb s t r v took;
      mapped = rw apart (
          Layout-insert (InUse sb s) (InUse sb t) (lookup s addrs) (lookup t (put addrs bn r))
            (addrs ndirect) bn r m (InUse-Took sb s t r v took) (InUse-new sb s t r v took)
            (lookup-ne-new sb s t r v took addrs m) fresh-ne-indirect
            (λ k kl. direct_lookup bn k lt));
      entry = direct_lookup bn bn lt ∙ rw (==-refl bn) refl;
      others = λ k kl ne. direct_lookup bn k lt ∙ rw ne refl;
      kept = λ ne. absurd (ground arith);
      same_bytes = λ k kl ne. Took-block sb s t r v took (lookup s addrs k) (m.blocks k kl ne);
      new_zeroed = λ z ne i. took.zeroed i;
      same_inodes = took.same_inodes;
      full = λ z. let ne = new-ne-zero sb s t r v took in absurd (ground arith);
      logs = Logs-less cost 2 s t enough took.logs;
    }
      where
        apart : (ndirect == bn) ≡ false
        apart = ground arith

    -- The new block is the indirect block.
    pub indirect_lookup :
        (k : ℕ)
        → addrs ndirect ≡ 0
        → k < maxfile
        → lookup t (put addrs ndirect r) k ≡ lookup s addrs k
    indirect_lookup k none_yet kl = elim (Bool-cases (ltb k ndirect)) [
      | inl h ↦ let apart : (k == ndirect) ≡ false = ground arith in rw (h, apart) refl
      | inr h ↦
          rw (h, new-ne-zero sb s t r v took, none_yet)
            (rw
              (
                took.zeroed (4 * (k - ndirect)),
                took.zeroed (4 * (k - ndirect) + 1),
                took.zeroed (4 * (k - ndirect) + 2),
                took.zeroed (4 * (k - ndirect) + 3),
              )
              refl)
    ]

    pub with_indirect-Mapped : addrs ndirect ≡ 0 → Mapped sb t (put addrs ndirect r)
    with_indirect-Mapped none_yet = record {
      blocks = λ k kl ne. rw (indirect_lookup k none_yet kl) (
          InUse-Took sb s t r v took (lookup s addrs k)
            (m.blocks k kl (rw (indirect_lookup k none_yet kl) at ne)));
      indirect = λ ne. InUse-new sb s t r v took;
      apart = λ k kl ne.
          rw (indirect_lookup k none_yet kl) (lookup-ne-new sb s t r v took addrs m k kl);
      distinct = λ i k il kl ne e.
          m.distinct i k il kl (rw (indirect_lookup i none_yet il) at ne)
            (sym (indirect_lookup i none_yet il) ∙ e ∙ indirect_lookup k none_yet kl);
    }

  -- A word of the indirect block is set to a new block.
  module _ (s t : Fs) (r : ℕ) (v : BitmapSafe sb s) (took : Took sb s r t) (addrs : ℕ → ℕ)
      (m : Mapped sb s addrs) (there : (addrs ndirect == 0) ≡ false)
      (small : sb.size ≤ 2 ^ 32) where
    -- The state with word `j` of the indirect block set.
    abbrev pub entered : ℕ → Fs
    entered j = record t {
      block = put t.block (addrs ndirect) (put_word (t.block (addrs ndirect)) j r);
      logged = enter (addrs ndirect) t.logged;
    }

    held : InUse sb t (addrs ndirect)
    held = InUse-Took sb s t r v took (addrs ndirect) (m.indirect there)

    -- Setting it changes no bitmap block.
    same_free : (j c : ℕ) → c < sb.size → is_free sb (entered j) c ≡ is_free sb t c
    same_free j c cl = rw (held.apart c cl) refl

    InUse-entered : (j b : ℕ) → InUse sb t b → InUse sb (entered j) b
    InUse-entered j b u = record {
      in_range = u.in_range;
      used = same_free j b u.in_range ∙ u.used;
      apart = u.apart;
    }

    entered-BitmapSafe : (j : ℕ) → BitmapSafe sb (entered j)
    entered-BitmapSafe j =
        let w = Took-BitmapSafe sb s t r v took in
        record {
          bytes =
              put-byte t.block (addrs ndirect) (put_word (t.block (addrs ndirect)) j r) w.bytes
                (λ i. put_word-lt (t.block (addrs ndirect)) j r i (w.bytes (addrs ndirect)));
          boot_used = same_free j 0 (omega (arith, took.in_range)) ∙ w.boot_used;
          map_used = λ c d cl dl free. w.map_used c d cl dl (sym (same_free j c cl) ∙ free);
        }

    pub lookup-entered :
        (j k : ℕ) → lookup (entered j) addrs k ≡ (if k == j + ndirect then r else lookup s addrs k)
    lookup-entered j k = elim (Bool-cases (ltb k ndirect)) [
      | inl h ↦ let other : (k == j + ndirect) ≡ false = ground arith in rw (h, other) refl
      | inr h ↦
          let place : (k - ndirect == j) ≡ (k == j + ndirect) = ground arith in
          rw (h, there, ==-refl (addrs ndirect))
            (word-put_word (t.block (addrs ndirect)) j (k - ndirect) r
                (omega (arith, took.in_range, small))
              ∙ rw (place, Took-block sb s t r v took (addrs ndirect) (m.indirect there)) refl)
    ]

    pub entered-Grown :
        (j : ℕ)
        → j < nindirect
        → lookup s addrs (j + ndirect) ≡ 0
        → Grown 3 s addrs (j + ndirect) r (entered j) addrs
    entered-Grown j jl hole = record {
      safe = entered-BitmapSafe j;
      mapped =
          Layout-insert (InUse sb s) (InUse sb (entered j)) (lookup s addrs)
            (lookup (entered j) addrs) (addrs ndirect) (j + ndirect) r m
            (λ b u. InUse-entered j b (InUse-Took sb s t r v took b u))
            (InUse-entered j r (InUse-new sb s t r v took)) (lookup-ne-new sb s t r v took addrs m)
            (fresh-ne-indirect s t r v took addrs m) (λ k kl. lookup-entered j k);
      entry = lookup-entered j (j + ndirect) ∙ rw (==-refl (j + ndirect)) refl;
      others = λ k kl ne. lookup-entered j k ∙ rw ne refl;
      kept = λ ne. absurd (ground arith);
      same_bytes = λ k kl ne.
          rw (m.apart k kl ne) (Took-block sb s t r v took (lookup s addrs k) (m.blocks k kl ne));
      new_zeroed = λ z ne i. rw (fresh-ne-indirect s t r v took addrs m) (took.zeroed i);
      same_inodes = took.same_inodes;
      full = λ z. let ne = new-ne-zero sb s t r v took in absurd (ground arith);
      logs = record {
        same_op = took.logs.same_op;
        same_size = took.logs.same_size;
        more = omega (arith, took.logs.more, length-enter (addrs ndirect) t.logged);
        keeps = λ b h. has-enter (addrs ndirect) b t.logged (took.logs.keeps b h);
      };
    }
