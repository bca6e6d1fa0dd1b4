-- ===== src/Fs/Writei.antt =====
-- writei of kernel/fs.c: the bytes of the file after it.
use project.Base.{
  ℕ, zero, suc, ◌+◌, ◌-◌, ◌*◌, ◌/◌, ◌%◌, ◌^◌, ◌≤◌, ◌<◌, ◌≡◌, refl, sym, inl, inr, Bool, true, false,
  ltb, ◌||◌, ◌==◌, if◌then◌else◌, arith, Bool-cases, eq_of_==, some, none, Option,
}
use Prim.Native.Nat.{min}
use project.Base.Lists.{has, length}
use mathlib.Core.Path.{subst}
use project.Fs.Room.{
  Room, Logs, Room-less, Room-after, refuses_lem, has-enter, enter-has, length-enter, bind_none,
  bind_some, log_write-none, log_write-some, blocks,
}
use project.Fs.{◌>>◌, enter, refuses, log_write, pure, Superblock, Fs, Dinode, bsize, maxfile, put}
use project.Fs.Bitmap.{BitmapSafe}
use project.Fs.Mapped.{Mapped}
use project.Fs.Inode.{bmap, iupdate, iblock}
use project.Fs.Bmap.{Bmapped, bmap-Bmapped}
use project.Fs.Io.{Mem, moves, chunk, move_in, writei_loop, writei}
use project.Fs.Content.{Kept-iupdate}
use project.Fs.Written.{
  DidWrite, WroteFrom, done-DidWrite, full-DidWrite, miss-DidWrite, after-WroteFrom, u-Kept,
}

module _ (sb : Superblock) (reach : ℕ → ℕ → ℕ) (mem : Mem) (mem_bytes : (a : ℕ) → mem a < 256) where
  -- A round of the loop; `next` is about the rounds that follow.
  round-WroteFrom :
      (fuel : ℕ) (s : Fs) (addrs : ℕ → ℕ) (src off n tot : ℕ) (o : Option ((ℕ × (ℕ → ℕ)) × Fs))
      → tot < n
      → off + (n - tot) ≤ maxfile * bsize
      → Bmapped sb 5 s addrs (off / bsize) o
      → ((t : Fs) (addrs' : ℕ → ℕ)
          → BitmapSafe sb t
          → Mapped sb t addrs'
          → let m = chunk sb reach off (n - tot) in
            WroteFrom sb reach mem mem_bytes t addrs'
              (src + m)
              (off + m)
              n
              (tot + m)
              (writei_loop sb reach fuel addrs' mem (src + m) (off + m) n (tot + m) t))
      → WroteFrom sb reach mem mem_bytes s addrs src off n tot (elim o [
        | none ↦ none
        | some ((addr, addrs'), t) ↦ elim (addr == 0) [
          | true ↦ some ((tot, addrs'), t)
          | false ↦
              let m = chunk sb reach off (n - tot) in
              let u = move_in sb reach addr (off % bsize) mem src m t in
              elim (moves sb reach src m) [
                | true ↦ elim (log_write addr u) [
                  | none ↦ none
                  | some (_, w) ↦
                      writei_loop sb reach fuel addrs' mem (src + m) (off + m) n (tot + m) w
                ]
                | false ↦ some ((tot, addrs'), u)
              ]
        ]
      ])
  round-WroteFrom fuel s addrs src off n tot none more inside g next =
      λ room. g (Room-less (6 * blocks off (n - tot)) 5 s (ground arith) room)
  round-WroteFrom fuel s addrs src off n tot (some ((addr, addrs'), t)) more inside g next =
      let m = chunk sb reach off (n - tot) in
      elim (Bool-cases (addr == 0)) [
        | inl z ↦ rw z (
          full-DidWrite sb reach mem mem_bytes s t addrs addrs' src off n tot addr g more inside
              (eq_of_== addr 0 z),
          g.same_inodes,
        )
        | inr ne ↦ elim (Bool-cases (moves sb reach src m)) [
          | inl ok ↦
              let full : min m (reach src m) ≡ m = ground arith in
              let l = enter addr t.logged in
              let grows = length-enter addr t.logged in
              let k =
                u-Kept sb reach mem mem_bytes s t addrs addrs' src off n tot addr g more inside ne m
                  (omega arith) l grows (λ b. has-enter addr b t.logged) in
              let u : Fs = move_in sb reach addr (off % bsize) mem src m t in
              elim (Bool-cases (refuses t.logged t.outstanding t.log_size)) [
                | inl h ↦
                    rw (ne, ok, log_write-none addr u h)
                      (λ room. refuses_lem t h (
                        Room-after 5 1 s t g.logs
                          (Room-less (6 * blocks off (n - tot)) 6 s (ground arith) room)))
                | inr h ↦
                    rw (ne, ok, log_write-some addr u h, full)
                      (after-WroteFrom sb reach mem mem_bytes s t addrs addrs' src off n tot addr g
                        more inside ne m (omega arith) l grows (λ b. has-enter addr b t.logged) _
                        (enter-has addr t.logged) refl (next _ addrs' k.safe k.mapped))
              ]
          | inr miss ↦
              let place : src + 0 ≡ src = omega arith in
              rw (ne, miss)
                (
                  miss-DidWrite sb reach mem mem_bytes s t addrs addrs' src off n tot addr g more
                      inside ne (min m (reach src m)) (omega arith) t.logged (omega arith)
                      (λ b h. h) (0, m, omega arith, (rw place miss)),
                  g.same_inodes,
                )
        ]
      ]

  writei_loop-WroteFrom :
      (fuel : ℕ) (s : Fs) (addrs : ℕ → ℕ) (src off n tot : ℕ)
      → BitmapSafe sb s
      → Mapped sb s addrs
      → sb.size ≤ 2 ^ 32
      → off + (n - tot) ≤ maxfile * bsize
      → tot ≤ n
      → n - tot < fuel
      → WroteFrom sb reach mem mem_bytes s addrs src off n tot
          (writei_loop sb reach fuel addrs mem src off n tot s)
  unfolding writei_loop
  writei_loop-WroteFrom zero s addrs src off n tot v m small inside le enough = absurd (omega arith)
  writei_loop-WroteFrom (suc fuel) s addrs src off n tot v m small inside le enough =
      elim (Bool-cases (ltb tot n)) [
        | inr done ↦
            rw (done, WroteFrom)
              (done-DidWrite sb reach mem mem_bytes s addrs src off n tot v m (ground arith), refl)
        | inl more ↦
            rw (more, WroteFrom)
              (round-WroteFrom fuel s addrs src off n tot (bmap sb addrs (off / bsize) s)
                (ground arith) inside
                (bmap-Bmapped sb s addrs (off / bsize) v m small (ground arith))
                (λ t addrs' v' m'.
                  writei_loop-WroteFrom fuel t addrs' (src + chunk sb reach off (n - tot))
                    (off + chunk sb reach off (n - tot)) n (tot + chunk sb reach off (n - tot)) v'
                    m' small (ground arith) (ground arith) (ground arith)))
      ]

  -- Whether writei refuses to write.
  abbrev pub refused : Dinode → (off n : ℕ) → Bool
  refused d off n = ltb d.size off || ltb (maxfile * bsize) (off + n)

  -- What writei leaves of the inode `inum`, of which `d` is the copy.
  abbrev pub Wrote :
      (inum : ℕ) → Fs → Dinode → (src off n : ℕ) → Option ((Option ℕ × Dinode) × Fs) → Type 0
  Wrote inum s d src off n none = Room (6 * blocks off n + 1) s → ⊥
  Wrote inum s d src off n (some ((none, d'), t)) = (refused d off n ≡ true) × (d' ≡ d) × (t ≡ s)
  Wrote inum s d src off n (some ((some r, d'), t)) =
      (refused d off n ≡ false)
      × DidWrite sb reach mem mem_bytes (6 * blocks off n + 1) s d.addrs src off n 0 r t d'.addrs
      × (t.dinode ≡ put s.dinode inum d')
      × (d'
          ≡ record d { addrs = d'.addrs; size = if ltb d.size (off + r) then off + r else d.size })
      × (has (iblock sb inum) t.logged ≡ true)

  DidWrite-iupdate :
      (s t : Fs) (addrs addrs' : ℕ → ℕ) (src off n r b : ℕ) (inodes : ℕ → Dinode)
      → DidWrite sb reach mem mem_bytes (6 * blocks off (n - 0)) s addrs src off n 0 r t addrs'
      → DidWrite sb reach mem mem_bytes
          (6 * blocks off n + 1)
          s
          addrs
          src
          off
          n
          0
          r
          (record t { dinode = inodes; logged = enter b t.logged })
          addrs'
  DidWrite-iupdate s t addrs addrs' src off n r b inodes w = record {
    kept = Kept-iupdate sb s t addrs addrs' inodes (enter b t.logged) w.kept;
    low = w.low;
    high = w.high;
    outside = w.outside;
    written = w.written;
    there = w.there;
    entered = λ i il. has-enter b _ t.logged (w.entered i il);
    stop = w.stop;
    logs = record {
      same_op = w.logs.same_op;
      same_size = w.logs.same_size;
      more =
          let e : n - 0 ≡ n = omega arith in
          let l : length t.logged ≤ length s.logged + 6 * blocks off n = rw e at w.logs.more in
          omega (arith, length-enter b t.logged);
      keeps = λ c h. has-enter b c t.logged (w.logs.keeps c h);
    };
  }

  end-Wrote :
      (inum : ℕ) (s : Fs) (d : Dinode) (src off n : ℕ) (o : Option ((ℕ × (ℕ → ℕ)) × Fs))
      → refused d off n ≡ false
      → WroteFrom sb reach mem mem_bytes s d.addrs src off n 0 o
      → Wrote inum s d src off n (elim o [
        | none ↦ none
        | some ((tot, addrs'), t) ↦
            let d' = record d {
              addrs = addrs';
              size = if ltb d.size (off + tot) then off + tot else d.size;
            } in
            (iupdate sb inum d' >> pure (some tot, d')) t
      ])
  unfolding iupdate
  end-Wrote inum s d src off n none ok w =
      let e : n - 0 ≡ n = omega arith in
      λ room. w (rw e (Room-less (6 * blocks off n + 1) (6 * blocks off n) s (omega arith) room))
  end-Wrote inum s d src off n (some ((r, addrs'), t)) ok (w, same) =
      let d' : Dinode = record d {
        addrs = addrs';
        size = if ltb d.size (off + r) then off + r else d.size;
      } in
      let b : ℕ = iblock sb inum in
      let t' : Fs = record t { dinode = put t.dinode inum d' } in
      let e : n - 0 ≡ n = omega arith in
      let logs : Logs (6 * blocks off n) s t = rw e at w.logs in
      elim (Bool-cases (refuses t.logged t.outstanding t.log_size)) [
        | inl h ↦
            subst (Wrote inum s d src off n)
              (sym
                (bind_none (iupdate sb inum d') (λ _. pure (some r, d')) t (log_write-none b t' h)))
              (λ room. refuses_lem t h (Room-after (6 * blocks off n) 1 s t logs room))
        | inr h ↦
            subst (Wrote inum s d src off n)
              (sym (
                bind_some (iupdate sb inum d') (λ _. pure (some r, d')) t
                  (record t' { logged = enter b t.logged }) tt (log_write-some b t' h)))
              (
                ok,
                DidWrite-iupdate s t d.addrs addrs' src off n r b _ w,
                rw same refl,
                refl,
                enter-has b t.logged,
              )
      ]

  pub writei-Wrote :
      (inum : ℕ) (s : Fs) (d : Dinode) (src off n : ℕ)
      → BitmapSafe sb s
      → Mapped sb s d.addrs
      → sb.size ≤ 2 ^ 32
      → off < 2 ^ 32
      → n < 2 ^ 32
      → d.size ≤ maxfile * bsize
      → Wrote inum s d src off n (writei sb reach inum d mem src off n s)
  unfolding writei
  writei-Wrote inum s d src off n v m small ol nl fits = elim (Bool-cases (ltb d.size off)) [
    | inl past ↦ rw (past, Wrote) (rw past refl, refl, refl)
    | inr within ↦ elim (Bool-cases (ltb ((off + n) % 2 ^ 32) off)) [
      | inl wraps ↦ rw (within, wraps, Wrote) (ground arith, refl, refl)
      | inr plain ↦
          let sum : (off + n) % 2 ^ 32 ≡ off + n = ground arith in
          elim (Bool-cases (ltb (maxfile * bsize) (off + n))) [
            | inl long ↦ rw (within, plain, sum, long, Wrote) (rw (within, long) refl, refl, refl)
            | inr short ↦
                rw (within, plain, sum, short)
                  (end-Wrote inum s d src off n
                    (writei_loop sb reach (n + 1) d.addrs mem src off n 0 s)
                    (rw (within, short) refl)
                    (writei_loop-WroteFrom (n + 1) s d.addrs src off n 0 v m small (ground arith)
                      (omega arith) (omega arith)))
          ]
    ]
  ]
