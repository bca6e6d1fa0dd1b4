-- ===== src/Fs/Written.antt =====
-- What the loop of writei of kernel/fs.c has written, round by round.
use project.Base.{
  ℕ, ◌+◌, ◌-◌, ◌*◌, ◌/◌, ◌%◌, ◌≤◌, ◌<◌, ◌≡◌, refl, sym, ◌∙◌, ◌⊎◌, inl, inr, true, false, ltb, ◌==◌,
  arith, Bool-cases, some, none, Option, ap, List,
}
use mathlib.Core.Path.{subst}
use project.Fs.{Superblock, Fs, bsize, maxfile, put}
use project.Fs.Bitmap.{BitmapSafe}
use project.Fs.Mapped.{lookup, Mapped}
use project.Base.Lists.{has, length}
use project.Fs.Room.{Room, Logs, Room-less, Room-after, Logs-less, Logs-trans, blocks, blocks_step}
use project.Fs.Grown.{Grown, Full}
use project.Fs.Io.{Mem, paste, chunk}
use project.Fs.Content.{
  content, Kept, Kept-refl, Kept-trans, Grown-Kept, Grown-content, in-paste, paste_out, chunk_place,
}
use project.Fs.Paste.{lookup-pasted, pasted-Kept, content-pasted}
use project.Fs.Delivered.{Unreachable}

module _ (sb : Superblock) (reach : ℕ → ℕ → ℕ) (mem : Mem) (mem_bytes : (a : ℕ) → mem a < 256) where
  -- The loop of writei that has written `tot` of `n` bytes answers `r`: the bytes up to there are
  -- written to blocks of the file, which are in the log, those outside of the range are as before,
  -- and it stops short only where no block is free for the file, or where it cannot move bytes from
  -- some address; at most `spent` blocks are logged.
  pub record DidWrite (spent : ℕ) (s : Fs) (addrs : ℕ → ℕ) (src off n tot r : ℕ) (t : Fs)
      (addrs' : ℕ → ℕ) : Type 0 where
    pub kept : Kept sb s addrs t addrs'
    pub low : tot ≤ r
    pub high : r ≤ n
    pub outside :
        (o : ℕ)
        → o < maxfile * bsize
        → (off ≤ o → off + (n - tot) ≤ o)
        → content t addrs' o ≡ content s addrs o
    pub written : (i : ℕ) → i < r - tot → content t addrs' (off + i) ≡ mem (src + i)
    pub there : (i : ℕ) → i < r - tot → (lookup t addrs' ((off + i) / bsize) == 0) ≡ false
    pub entered : (i : ℕ) → i < r - tot → has (lookup t addrs' ((off + i) / bsize)) t.logged ≡ true
    pub stop :
        (r ≡ n)
        ⊎ ((lookup t addrs' ((off + (r - tot)) / bsize) ≡ 0) × Full sb t)
        ⊎ Unreachable sb reach src (n - tot)
    pub logs : Logs spent s t

  abbrev pub WroteFrom : Fs → (ℕ → ℕ) → (src off n tot : ℕ) → Option ((ℕ × (ℕ → ℕ)) × Fs) → Type 0
  WroteFrom s addrs src off n tot none = Room (6 * blocks off (n - tot)) s → ⊥
  WroteFrom s addrs src off n tot (some ((r, addrs'), t)) =
      DidWrite (6 * blocks off (n - tot)) s addrs src off n tot r t addrs' × (t.dinode ≡ s.dinode)

  pub done-DidWrite :
      (s : Fs) (addrs : ℕ → ℕ) (src off n tot : ℕ)
      → BitmapSafe sb s
      → Mapped sb s addrs
      → tot ≡ n
      → DidWrite (6 * blocks off (n - tot)) s addrs src off n tot tot s addrs
  done-DidWrite s addrs src off n tot v m e = record {
    kept = Kept-refl sb s addrs v m;
    low = omega arith;
    high = omega arith;
    outside = λ o ol out. refl;
    written = λ i il. absurd (omega arith);
    there = λ i il. absurd (omega arith);
    entered = λ i il. absurd (omega arith);
    stop = inl e;
    logs = record { same_op = refl; same_size = refl; more = omega arith; keeps = λ b h. h };
  }

  -- A round of the loop, in which bmap answers `addr`.
  module _ (s t : Fs) (addrs addrs' : ℕ → ℕ) (src off n tot addr : ℕ)
      (g : Grown sb 5 s addrs (off / bsize) addr t addrs') (more : tot < n)
      (inside : off + (n - tot) ≤ maxfile * bsize) where
    -- The round ends the loop where the file gets no block.
    pub full-DidWrite :
        addr ≡ 0 → DidWrite (6 * blocks off (n - tot)) s addrs src off n tot tot t addrs'
    full-DidWrite z = record {
      kept = Grown-Kept sb s t addrs addrs' 5 (off / bsize) addr g;
      low = omega arith;
      high = omega arith;
      outside = λ o ol out. Grown-content sb s t addrs addrs' 5 (off / bsize) addr g o ol;
      written = λ i il. absurd (omega arith);
      there = λ i il. absurd (omega arith);
      entered = λ i il. absurd (omega arith);
      stop =
          let here : off + (tot - tot) ≡ off = omega arith in
          inr (inl (rw here (g.entry ∙ z), g.full z));
      logs = Logs-less (6 * blocks off (n - tot)) 5 s t (ground arith) g.logs;
    }

    module _ (ne : (addr == 0) ≡ false) (len : ℕ) (short : len ≤ chunk sb reach off (n - tot))
        (l : List ℕ) (grows : length l ≤ length t.logged + 1)
        (stays : (b : ℕ) → has b t.logged ≡ true → has b l ≡ true) where
      abbrev taken : ℕ → ℕ
      taken i = mem (src + i)

      -- The state with `len` bytes written into block `b`, and what it is for the file.
      abbrev with_bytes : ℕ → Fs
      with_bytes b = record t {
        block = put t.block b (paste (t.block b) (off % bsize) len taken);
        logged = l;
      }

      abbrev Pasted : ℕ → Type 0
      Pasted b =
          Kept sb t addrs' (with_bytes b) addrs'
          × ((j : ℕ) → lookup (with_bytes b) addrs' j ≡ lookup t addrs' j)
          × ((o : ℕ)
              → o < maxfile * bsize
              → content (with_bytes b) addrs' o
                ≡ paste (content t addrs') (off / bsize * bsize + off % bsize) len taken o)

      with_bytes-Pasted : Pasted addr
      with_bytes-Pasted =
          let k = off / bsize in
          let kl : k < maxfile = omega arith in
          let n : (lookup t addrs' k == 0) ≡ false = rw g.entry ne in
          let bytes : (i : ℕ) → taken i < 256 = λ i. mem_bytes (src + i) in
          subst Pasted g.entry (
            pasted-Kept sb t addrs' g.safe g.mapped k (off % bsize) len taken kl n (omega arith)
                bytes l,
            (λ j.
                lookup-pasted sb t addrs' g.safe g.mapped k (off % bsize) len taken kl n
                  (omega arith) bytes l j),
            (λ o ol.
                content-pasted sb t addrs' g.safe g.mapped k (off % bsize) len taken kl n
                  (omega arith) bytes l o ol),
          )

      abbrev u : Fs
      u = with_bytes addr

      pub u-Kept : Kept sb s addrs u addrs'
      u-Kept =
          Kept-trans sb s t u addrs addrs' addrs'
            (Grown-Kept sb s t addrs addrs' 5 (off / bsize) addr g) with_bytes-Pasted.0

      u-Logs : Logs 6 s u
      u-Logs = record {
        same_op = g.logs.same_op;
        same_size = g.logs.same_size;
        more = omega (arith, g.logs.more, grows);
        keeps = λ b h. stays b (g.logs.keeps b h);
      }

      one_block : 6 ≤ 6 * blocks off (n - tot)
      one_block = ground arith

      step :
          len ≡ chunk sb reach off (n - tot)
          → 6 + 6 * blocks (off + len) (n - (tot + len)) ≤ 6 * blocks off (n - tot)
      step full =
          let rest : n - (tot + len) ≡ n - tot - len = omega arith in
          rw rest (blocks_step off (n - tot) len (ground arith) full)

      outside_round :
          (o : ℕ)
          → o < maxfile * bsize
          → (off ≤ o → off + len ≤ o)
          → content u addrs' o ≡ content s addrs o
      outside_round o ol out =
          with_bytes-Pasted.2 o ol
          ∙ paste_out (content t addrs') (off / bsize * bsize + off % bsize) len taken o
              (λ le. omega (arith, out (omega arith)))
          ∙ Grown-content sb s t addrs addrs' 5 (off / bsize) addr g o ol

      written_round : (i : ℕ) → i < len → content u addrs' (off + i) ≡ mem (src + i)
      written_round i il =
          let place : off + i - (off / bsize * bsize + off % bsize) ≡ i = omega arith in
          with_bytes-Pasted.2 (off + i) (omega arith)
          ∙ in-paste (content t addrs') taken (off / bsize * bsize + off % bsize) len (off + i)
              (omega arith) (omega arith)
          ∙ ap taken place

      there_round : (i : ℕ) → i < len → (lookup u addrs' ((off + i) / bsize) == 0) ≡ false
      there_round i il =
          let p = chunk_place off (n - tot) i (omega arith) in
          rw (p.0, with_bytes-Pasted.1 (off / bsize)) (rw g.entry ne)

      -- The round ends the loop at an address that it cannot move from.
      pub miss-DidWrite :
          Unreachable sb reach src (n - tot)
          → DidWrite (6 * blocks off (n - tot)) s addrs src off n tot tot u addrs'
      miss-DidWrite miss = record {
        kept = u-Kept;
        low = omega arith;
        high = omega arith;
        outside = λ o ol out. outside_round o ol (λ le. omega (arith, out le));
        written = λ i il. absurd (omega arith);
        there = λ i il. absurd (omega arith);
        entered = λ i il. absurd (omega arith);
        stop = inr (inr miss);
        logs = Logs-less (6 * blocks off (n - tot)) 6 s u one_block u-Logs;
      }

      -- The rounds that follow, where this one has written all its bytes.
      round-DidWrite :
          (r : ℕ) (w : Fs) (addrs'' : ℕ → ℕ)
          → has addr l ≡ true
          → len ≡ chunk sb reach off (n - tot)
          → DidWrite
              (6 * blocks (off + len) (n - (tot + len)))
              u
              addrs'
              (src + len)
              (off + len)
              n
              (tot + len)
              r
              w
              addrs''
          → DidWrite (6 * blocks off (n - tot)) s addrs src off n tot r w addrs''
      round-DidWrite r w addrs'' in_log full d = record {
        kept = Kept-trans sb s u w addrs addrs' addrs'' u-Kept d.kept;
        low = omega (arith, d.low);
        high = d.high;
        outside = λ o ol out.
            d.outside o ol (λ le. omega (arith, out (omega arith)))
            ∙ outside_round o ol (λ le. omega (arith, out le));
        written = λ i il. elim (Bool-cases (ltb i len)) [
          | inl h ↦
              d.outside (off + i) (omega (arith, d.high)) (λ le. absurd (ground arith))
              ∙ written_round i (ground arith)
          | inr h ↦
              let from_off : off + len + (i - len) ≡ off + i = ground arith in
              let from_src : src + len + (i - len) ≡ src + i = ground arith in
              ap (content w addrs'') (sym from_off)
              ∙ d.written (i - len) (ground (arith, d.low))
              ∙ ap mem from_src
        ];
        there = λ i il. elim (Bool-cases (ltb i len)) [
          | inl h ↦
              let b = there_round i (ground arith) in
              rw (d.kept.stay ((off + i) / bsize) (omega (arith, d.high)) b) b
          | inr h ↦
              let from_off : off + len + (i - len) ≡ off + i = ground arith in
              rw from_off at (d.there (i - len) (ground (arith, d.low)))
        ];
        entered = λ i il. elim (Bool-cases (ltb i len)) [
          | inl h ↦
              let b = there_round i (ground arith) in
              let p = chunk_place off (n - tot) i (ground arith) in
              let k = off / bsize in
              let here : lookup u addrs' ((off + i) / bsize) ≡ addr =
                ap (lookup u addrs') p.0 ∙ with_bytes-Pasted.1 k ∙ g.entry in
              rw (d.kept.stay ((off + i) / bsize) (omega (arith, d.high)) b ∙ here)
                (d.logs.keeps addr in_log)
          | inr h ↦
              let from_off : off + len + (i - len) ≡ off + i = ground arith in
              rw from_off at (d.entered (i - len) (ground (arith, d.low)))
        ];
        stop = stop_after r d.low d.high d.stop;
        logs =
            Logs-less (6 * blocks off (n - tot)) (6 + 6 * blocks (off + len) (n - (tot + len))) s w
              (step full)
              (Logs-trans 6 (6 * blocks (off + len) (n - (tot + len))) s u w u-Logs d.logs);
      }
        where
          stop_after :
              (r : ℕ)
              → tot + len ≤ r
              → r ≤ n
              → (r ≡ n)
                ⊎ ((lookup w addrs'' ((off + len + (r - (tot + len))) / bsize) ≡ 0) × Full sb w)
                ⊎ Unreachable sb reach (src + len) (n - (tot + len))
              → (r ≡ n)
                ⊎ ((lookup w addrs'' ((off + (r - tot)) / bsize) ≡ 0) × Full sb w)
                ⊎ Unreachable sb reach src (n - tot)
          stop_after r low high (inl e) = inl e
          stop_after r low high (inr (inl (z, full))) =
              let place : off + len + (r - (tot + len)) ≡ off + (r - tot) = omega arith in
              inr (inl ((rw place at z), full))
          stop_after r low high (inr (inr (c, k, le, miss))) =
              let place : src + len + c ≡ src + (len + c) = omega arith in
              inr (inr (len + c, k, omega arith, (rw place at miss)))

      pub after-WroteFrom :
          (o : Option ((ℕ × (ℕ → ℕ)) × Fs))
          → has addr l ≡ true
          → len ≡ chunk sb reach off (n - tot)
          → WroteFrom u addrs' (src + len) (off + len) n (tot + len) o
          → WroteFrom s addrs src off n tot o
      after-WroteFrom none in_log full d = λ room. d (
          Room-after 6 (6 * blocks (off + len) (n - (tot + len))) s u u-Logs (
            Room-less (6 * blocks off (n - tot)) (6 + 6 * blocks (off + len) (n - (tot + len))) s
              (step full) room))
      after-WroteFrom (some ((r, addrs''), w)) in_log full (d, same) =
          (round-DidWrite r w addrs'' in_log full d, same ∙ g.same_inodes)
