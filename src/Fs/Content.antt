-- ===== src/Fs/Content.antt =====
-- The bytes of a file of kernel/fs.c, and what readi and writei keep of it.
use project.Base.{
  ℕ, ◌+◌, ◌-◌, ◌*◌, ◌/◌, ◌%◌, ◌≤◌, ◌<◌, ◌≡◌, refl, sym, ◌∙◌, inl, inr, true, false, ltb, leb, List,
  ◌==◌, if◌then◌else◌, arith, Bool-cases, eq_of_==, ap,
}
use mathlib.Core.Path.{subst}
use Prim.Native.Nat.{min}
use project.Fs.{Superblock, Dinode, Fs, bsize, ndirect, maxfile}
use project.Fs.Bitmap.{BitmapSafe}
use project.Fs.Mapped.{lookup, InUse, Mapped}
use project.Fs.Grown.{Grown}
use project.Fs.Io.{paste}

-- Byte `o` of the file; a hole reads as 0.
abbrev pub content : Fs → (ℕ → ℕ) → ℕ → ℕ
content s addrs o =
    if lookup s addrs (o / bsize) == 0 then 0 else s.block (lookup s addrs (o / bsize)) (o % bsize)

module _ (sb : Superblock) where
  -- The file system stays sound, and the file keeps its blocks.
  pub record Kept (s : Fs) (addrs : ℕ → ℕ) (t : Fs) (addrs' : ℕ → ℕ) : Type 0 where
    pub safe : BitmapSafe sb t
    pub mapped : Mapped sb t addrs'
    pub stay :
        (k : ℕ)
        → k < maxfile
        → (lookup s addrs k == 0) ≡ false
        → lookup t addrs' k ≡ lookup s addrs k

  pub Kept-refl :
      (s : Fs) (addrs : ℕ → ℕ) → BitmapSafe sb s → Mapped sb s addrs → Kept s addrs s addrs
  Kept-refl s addrs v m = record { safe = v; mapped = m; stay = λ k kl ne. refl }

  pub Kept-trans :
      (s t u : Fs) (addrs addrs' addrs'' : ℕ → ℕ)
      → Kept s addrs t addrs'
      → Kept t addrs' u addrs''
      → Kept s addrs u addrs''
  Kept-trans s t u addrs addrs' addrs'' p q = record {
    safe = q.safe;
    mapped = q.mapped;
    stay = λ k kl ne. let e = p.stay k kl ne in q.stay k kl (rw e ne) ∙ e;
  }

  -- The inodes and the log do not matter to it.
  pub Kept-iupdate :
      (s t : Fs) (addrs addrs' : ℕ → ℕ) (inodes : ℕ → Dinode) (l : List ℕ)
      → Kept s addrs t addrs'
      → Kept s addrs (record t { dinode = inodes; logged = l }) addrs'
  Kept-iupdate s t addrs addrs' inodes l p = record {
    safe = record {
      bytes = p.safe.bytes;
      boot_used = p.safe.boot_used;
      map_used = p.safe.map_used;
    };
    mapped = record {
      blocks = λ k kl ne. any_inodes (lookup t addrs' k) (p.mapped.blocks k kl ne);
      indirect = λ ne. any_inodes (addrs' ndirect) (p.mapped.indirect ne);
      apart = p.mapped.apart;
      distinct = p.mapped.distinct;
    };
    stay = p.stay;
  }
    where
      any_inodes : (b : ℕ) → InUse sb t b → InUse sb (record t { dinode = inodes; logged = l }) b
      any_inodes b u = record { in_range = u.in_range; used = u.used; apart = u.apart }

  module _ (s t : Fs) (addrs addrs' : ℕ → ℕ) (cost bn r : ℕ)
      (g : Grown sb cost s addrs bn r t addrs') where
    pub Grown-Kept : Kept s addrs t addrs'
    Grown-Kept = record {
      safe = g.safe;
      mapped = g.mapped;
      stay = λ k kl ne. elim (Bool-cases (k == bn)) [
        | inl h ↦
            let e = eq_of_== k bn h in
            subst (λ j. lookup t addrs' j ≡ lookup s addrs j) (sym e)
              (g.entry ∙ g.kept (rw e at ne))
        | inr h ↦ g.others k kl h
      ];
    }

    -- A block that bmap adds reads like the hole it fills.
    pub Grown-content : (o : ℕ) → o < maxfile * bsize → content t addrs' o ≡ content s addrs o
    Grown-content o ol =
        let kl : o / bsize < maxfile = omega arith in
        elim (Bool-cases (lookup s addrs (o / bsize) == 0)) [
          | inr ne ↦
              rw (Grown-Kept.stay (o / bsize) kl ne, ne)
                (ap (λ f. f (o % bsize)) (g.same_bytes (o / bsize) kl ne))
          | inl z ↦ elim (Bool-cases (o / bsize == bn)) [
            | inr h ↦ rw (g.others (o / bsize) kl h, z) refl
            | inl h ↦
                let e = eq_of_== (o / bsize) bn h in
                let at : lookup t addrs' (o / bsize) ≡ r = rw e g.entry in
                elim (Bool-cases (r == 0)) [
                  | inl rz ↦ rw (at, rz, z) refl
                  | inr rn ↦
                      rw (at, rn, z)
                        (g.new_zeroed (sym (ap (lookup s addrs) e) ∙ eq_of_== _ 0 z) rn (o % bsize))
                ]
          ]
        ]

pub in-paste : (f g : ℕ → ℕ) (at m i : ℕ) → at ≤ i → i < at + m → paste f at m g i ≡ g (i - at)
in-paste f g at m i le lt = ground arith

pub paste_out :
    (f : ℕ → ℕ) (at m : ℕ) (g : ℕ → ℕ) (i : ℕ) → (at ≤ i → at + m ≤ i) → paste f at m g i ≡ f i
paste_out f at m g i out = elim (Bool-cases (leb at i)) [
  | inl h ↦
      let far : ltb i (at + m) ≡ false = ground (arith, out (ground arith)) in rw (h, far) refl
  | inr h ↦ rw h refl
]

-- The bytes of one round are in one block.
pub chunk_place :
    (off left i : ℕ)
    → i < min left (bsize - off % bsize)
    → ((off + i) / bsize ≡ off / bsize) × ((off + i) % bsize ≡ off % bsize + i)
chunk_place off left i il = (omega arith, omega arith)

-- Bytes pasted behind others are bytes pasted together.
pub paste-paste :
    (f : ℕ → ℕ) (at m k : ℕ) (g h all : ℕ → ℕ) (n i : ℕ)
    → n ≡ m + k
    → ((j : ℕ) → j < m → g j ≡ all j)
    → ((j : ℕ) → j < k → h j ≡ all (m + j))
    → paste (paste f at m g) (at + m) k h i ≡ paste f at n all i
paste-paste f at m k g h all n i e first second = elim (Bool-cases (leb at i)) [
  | inr below ↦ let b : leb (at + m) i ≡ false = ground arith in rw (b, below) refl
  | inl above ↦ elim (Bool-cases (ltb i (at + m))) [
    | inl one ↦
        let b : leb (at + m) i ≡ false = ground arith in
        let c : ltb i (at + n) ≡ true = ground arith in
        rw (b, above, one, c) (first (i - at) (ground arith))
    | inr two ↦
        let b : leb (at + m) i ≡ true = ground arith in
        elim (Bool-cases (ltb i (at + n))) [
          | inl c ↦
              let c' : ltb i (at + m + k) ≡ true = ground arith in
              let place : m + (i - (at + m)) ≡ i - at = ground arith in
              rw (b, c', above, c) (second (i - (at + m)) (ground arith) ∙ rw place refl)
          | inr c ↦
              let c' : ltb i (at + m + k) ≡ false = ground arith in rw (b, c', two, above, c) refl
        ]
  ]
]
