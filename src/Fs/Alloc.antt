-- ===== src/Fs/Alloc.antt =====
-- balloc of kernel/fs.c: it takes the first free block.
use project.Base.{
  ℕ, zero, suc, ◌+◌, ◌-◌, ◌*◌, ◌/◌, ◌%◌, ◌^◌, ◌≤◌, ◌<◌, ◌≡◌, refl, ◌∙◌, ◌⊎◌, inl, inr, true, false,
  not, ◌&&◌, Option, none, some, ltb, ◌==◌, ==-refl, arith, Bool-cases, eq_of_==,
}
use Prim.Native.Nat.{min, bit_or}
use project.Fs.{
  Superblock, Fs, pure, bzero, log_write, ◌>>=◌, enter, refuses, bpb, put, bit_clear, find_bit,
  bblock, take_block, balloc, balloc_from,
}
use project.Fs.Bitmap.{same_bit, and_true, is_free, BitmapSafe, Took, put-byte}
use project.Fs.Room.{
  Room, Logs, Room-less, Room-after, has-enter, enter-has, length-enter, refuses_lem, bind_none,
  bind_some, log_write-none, log_write-some,
}
use project.Fs.Bits.{bit_clear-set, set-byte}

-- What find_bit answers for the bits from `bi` on.
abbrev Found : (ℕ → ℕ) → ℕ → ℕ → Option ℕ → Type 0
Found bytes bi left none = (j : ℕ) → bi ≤ j → j < bi + left → bit_clear bytes j ≡ false
Found bytes bi left (some k) =
    (bi ≤ k)
    × (k < bi + left)
    × (bit_clear bytes k ≡ true)
    × ((j : ℕ) → bi ≤ j → j < k → bit_clear bytes j ≡ false)

Found-step :
    (bytes : ℕ → ℕ) (bi left : ℕ) (r : Option ℕ)
    → bit_clear bytes bi ≡ false
    → Found bytes (bi + 1) left r
    → Found bytes bi (suc left) r
Found-step bytes bi left none h f = λ j le lt. elim (Bool-cases (j == bi)) [
  | inl e ↦ rw (eq_of_== j bi e) h
  | inr e ↦ f j (ground arith) (omega arith)
]
Found-step bytes bi left (some k) h (le, lt, c, f) = (
  omega arith,
  omega arith,
  c,
  λ j jl jk. elim (Bool-cases (j == bi)) [
    | inl e ↦ rw (eq_of_== j bi e) h
    | inr e ↦ f j (ground arith) jk
  ],
)

find_bit-Found : (bytes : ℕ → ℕ) (bi left : ℕ) → Found bytes bi left (find_bit bytes bi left)
find_bit-Found bytes bi zero = λ j le lt. absurd (omega arith)
find_bit-Found bytes bi (suc left) = elim (Bool-cases (bit_clear bytes bi)) [
  | inl h ↦ rw h (omega arith, omega arith, h, λ j jl jk. absurd (omega arith))
  | inr h ↦ rw h (
      Found-step bytes bi left (find_bit bytes (bi + 1) left) h
        (find_bit-Found bytes (bi + 1) left))
]

module _ (sb : Superblock) where
  -- The state after a block is taken.
  abbrev taken : ℕ → Fs → Fs
  taken r s = record s {
    block =
        put
          (put s.block (bblock sb r) (
            put (s.block (bblock sb r)) (r % bpb / 8)
              (bit_or (s.block (bblock sb r) (r % bpb / 8)) (2 ^ (r % bpb % 8)))))
          r (λ _. 0);
    logged = enter r (enter (bblock sb r) s.logged);
  }

  taken-Took :
      (r : ℕ) (s : Fs)
      → BitmapSafe sb s
      → r < sb.size
      → is_free sb s r ≡ true
      → ((c : ℕ) → c < r → is_free sb s c ≡ false)
      → Took sb s r (taken r s)
  taken-Took r s v lt free first = record {
    in_range = lt;
    was_free = free;
    first_free = first;
    now_free = λ c cl. now c cl;
    zeroed = λ i. rw (==-refl r) refl;
    same_rest = λ b ne nm. rw (ne, nm) refl;
    same_inodes = refl;
    in_log = (
      enter-has r (enter (bblock sb r) s.logged),
      has-enter r (bblock sb r) (enter (bblock sb r) s.logged) (enter-has (bblock sb r) s.logged),
    );
    logs = record {
      same_op = refl;
      same_size = refl;
      more = omega (
        arith,
        length-enter r (enter (bblock sb r) s.logged),
        length-enter (bblock sb r) s.logged,
      );
      keeps = λ c h.
          has-enter r c (enter (bblock sb r) s.logged) (has-enter (bblock sb r) c s.logged h);
    };
    byte_range =
        put-byte (put s.block (bblock sb r) row) r (λ _. 0)
          (put-byte s.block (bblock sb r) row v.bytes row_bytes) (λ i. omega arith);
  }
    where
      row : ℕ → ℕ
      row =
          put (s.block (bblock sb r)) (r % bpb / 8)
            (bit_or (s.block (bblock sb r) (r % bpb / 8)) (2 ^ (r % bpb % 8)))

      row_bytes : (i : ℕ) → row i < 256
      row_bytes i = elim (Bool-cases (i == r % bpb / 8)) [
        | inl e ↦
            rw e (set-byte (s.block (bblock sb r)) (r % bpb) (v.bytes (bblock sb r) (r % bpb / 8)))
        | inr e ↦ rw e (v.bytes (bblock sb r) i)
      ]

      now : (c : ℕ) → c < sb.size → is_free sb (taken r s) c ≡ (is_free sb s c && not (c == r))
      now c cl = elim (Bool-cases (bblock sb c == bblock sb r)) [
        | inl e ↦
            let q = eq_of_== (bblock sb c) (bblock sb r) e in
            rw (v.map_used r c lt cl free, e)
              (bit_clear-set (s.block (bblock sb r)) (r % bpb) (v.bytes (bblock sb r) (r % bpb / 8))
                  (c % bpb)
                ∙ rw (q, same_bit c r (omega arith)) refl)
        | inr e ↦
            let apart : (c == r) ≡ false = ground arith in
            rw (v.map_used r c lt cl free, e, apart) (and_true (is_free sb s c))
      ]

  -- The state between the two calls of log_write.
  abbrev marked : ℕ → Fs → Fs
  marked r s = record s {
    block = put s.block (bblock sb r) (
        put (s.block (bblock sb r)) (r % bpb / 8)
          (bit_or (s.block (bblock sb r) (r % bpb / 8)) (2 ^ (r % bpb % 8))));
    logged = enter (bblock sb r) s.logged;
  }

  marked-Logs : (r : ℕ) (s : Fs) → Logs 1 s (marked r s)
  marked-Logs r s = record {
    same_op = refl;
    same_size = refl;
    more = length-enter (bblock sb r) s.logged;
    keeps = λ c h. has-enter (bblock sb r) c s.logged h;
  }

  take_block-run :
      (b bi : ℕ) (s : Fs)
      → b % bpb ≡ 0
      → bi < bpb
      → (take_block sb b bi s ≡ some (b + bi, taken (b + bi) s))
        ⊎ ((take_block sb b bi s ≡ none) × (Room 2 s → ⊥))
  unfolding take_block
  take_block-run b bi s aligned lt =
      let row : (b + bi) / bpb ≡ b / bpb = omega arith in
      let place : (b + bi) % bpb ≡ bi = omega arith in
      let r : ℕ = b + bi in
      let byte : Fs = record s { block = (marked r s).block } in
      let zeroed : Fs = record (marked r s) { block = put (marked r s).block r (λ _. 0) } in
      let start : take_block sb b bi s
          ≡ (log_write (bblock sb r) >>= (λ _. bzero r >>= (λ _. pure r))) byte =
        rw (row, place) refl in
      elim (Bool-cases (refuses s.logged s.outstanding s.log_size)) [
        | inl h ↦ inr (
          start ∙ bind_none (log_write (bblock sb r)) _ byte (log_write-none (bblock sb r) byte h),
          λ room. refuses_lem s h (Room-less 2 1 s (omega arith) room),
        )
        | inr h ↦
            let next =
              start
              ∙ bind_some (log_write (bblock sb r)) (λ _. bzero r >>= (λ _. pure r)) byte
                  (marked r s) tt (log_write-some (bblock sb r) byte h) in
            elim (Bool-cases (refuses (marked r s).logged s.outstanding s.log_size)) [
              | inl g ↦ inr (
                next ∙ bind_none (bzero r) _ (marked r s) (log_write-none r zeroed g),
                λ room.
                    refuses_lem (marked r s) g
                      (Room-after 1 1 s (marked r s) (marked-Logs r s) room),
              )
              | inr g ↦ inl (
                  next
                  ∙ bind_some (bzero r) (λ _. pure r) (marked r s) (taken r s) tt
                      (log_write-some r zeroed g))
            ]
      ]

  is_free-at :
      (b j : ℕ) (s : Fs)
      → b % bpb ≡ 0
      → j < bpb
      → is_free sb s (b + j) ≡ bit_clear (s.block (bblock sb b)) j
  is_free-at b j s aligned lt =
      let row : (b + j) / bpb ≡ b / bpb = omega arith in
      let place : (b + j) % bpb ≡ j = omega arith in rw (row, place) refl

  -- What balloc answers: 0 where no block is free, else the first free block; it panics only
  -- without room for two blocks in the log.
  abbrev pub Allocated : Fs → Option (ℕ × Fs) → Type 0
  Allocated s none = Room 2 s → ⊥
  Allocated s (some (r, t)) =
      ((r ≡ 0) × (t ≡ s) × ((c : ℕ) → c < sb.size → is_free sb s c ≡ false)) ⊎ Took sb s r t

  -- The blocks before `b` are in use.
  abbrev Before : Fs → ℕ → Type 0
  Before s b = (c : ℕ) → c < b → c < sb.size → is_free sb s c ≡ false

  -- So are the first bits of one more bitmap block.
  scanned :
      (b stop : ℕ) (s : Fs)
      → stop ≤ bpb
      → b % bpb ≡ 0
      → Before s b
      → ((j : ℕ) → 0 ≤ j → j < stop → bit_clear (s.block (bblock sb b)) j ≡ false)
      → Before s (b + stop)
  scanned b stop s le aligned before used c lt cs = elim (Bool-cases (ltb c b)) [
    | inl h ↦ before c (ground arith) cs
    | inr h ↦
        let place : b + (c - b) ≡ c = ground arith in
        rw (← place) (
          is_free-at b (c - b) s aligned (ground arith) ∙ used (c - b) (omega arith) (ground arith))
  ]

  -- A round of balloc, by what find_bit answers; `next` is about the rounds that follow.
  round-Allocated :
      (b left : ℕ) (s : Fs) (r : Option ℕ)
      → BitmapSafe sb s
      → b % bpb ≡ 0
      → Before s b
      → Found (s.block (bblock sb b)) 0 (min bpb (sb.size - b)) r
      → (Before s (b + bpb) → Allocated s (balloc_from sb (b + bpb) left s))
      → Allocated s
          (elim r [ none ↦ balloc_from sb (b + bpb) left s | some bi ↦ take_block sb b bi s ])
  round-Allocated b left s none v aligned before f next = next (λ c lt cs.
      scanned b (min bpb (sb.size - b)) s (omega arith) aligned before
        (λ j jl jk. f j jl (omega arith)) c (omega arith) cs)
  round-Allocated b left s (some k) v aligned before (le, lt, free, f) next =
      elim (take_block-run b k s aligned (omega arith)) [
        | inr (e, short) ↦ rw e short
        | inl e ↦ rw e (
            inr (
              taken-Took (b + k) s v (omega arith) (is_free-at b k s aligned (omega arith) ∙ free)
                (λ c cl. scanned b k s (omega arith) aligned before f c cl (omega arith))))
      ]

  balloc_from-Allocated :
      (b left : ℕ) (s : Fs)
      → BitmapSafe sb s
      → b % bpb ≡ 0
      → sb.size ≤ b + left * bpb
      → Before s b
      → Allocated s (balloc_from sb b left s)
  unfolding balloc_from
  balloc_from-Allocated b zero s v aligned enough before =
      inl (refl, refl, λ c lt. before c (omega arith) lt)
  balloc_from-Allocated b (suc left) s v aligned enough before =
      round-Allocated b left s (find_bit (s.block (bblock sb b)) 0 (min bpb (sb.size - b))) v
        aligned before (find_bit-Found (s.block (bblock sb b)) 0 (min bpb (sb.size - b)))
        (λ more. balloc_from-Allocated (b + bpb) left s v (omega arith) (omega arith) more)

  -- balloc, where no free block is a bitmap block: it returns 0 and changes nothing if all blocks
  -- of the file system are in use. Otherwise it takes the first free block: exactly this one is in
  -- use in addition, it is zeroed, and no block but this one and its bitmap block changes; the log
  -- has both. It panics only outside of an operation or without room for two more blocks in the
  -- log.
  pub balloc-Allocated : (s : Fs) → BitmapSafe sb s → Allocated s (balloc sb s)
  unfolding balloc
  balloc-Allocated s v =
      balloc_from-Allocated 0 ((sb.size + bpb - 1) / bpb) s v refl (omega arith)
        (λ c lt cs. absurd (omega arith))

  pub Took-BitmapSafe : (s t : Fs) (r : ℕ) → BitmapSafe sb s → Took sb s r t → BitmapSafe sb t
  Took-BitmapSafe s t r v k = record {
    bytes = k.byte_range;
    boot_used = k.now_free 0 (omega (arith, k.in_range)) ∙ rw v.boot_used refl;
    map_used = λ c d cl dl free. v.map_used c d cl dl (ground (arith, k.now_free c cl));
  }
