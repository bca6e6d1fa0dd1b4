-- ===== src/Vm/Copyin.antt =====
-- copyin of kernel/vm.c: the bytes that reach the kernel.
use project.Base.{
  ℕ, zero, suc, ◌+◌, ◌-◌, ◌%◌, ◌≤◌, ◌<◌, ◌≡◌, refl, sym, ◌∙◌, ap, inl, inr, ◌==◌, eq_of_==, leb,
  ltb, Bool, true, false, arith, Bool-cases,
}
use mathlib.Core.Path.{subst}
use Prim.Native.Nat.{min}
use project.Vm.Sv39.{page, phys, Translates, page-Translates, Translates-page}
use project.Vm.{pgsize, pground_down, moved, copyin_loop, copyin}

module _ (ptes : ℕ → ℕ) (pagetable : ℕ) where
  -- In the same page, addresses go on as user addresses do.
  pub phys-near :
      (va i : ℕ)
      → va % pgsize + i < pgsize
      → (page ptes pagetable (va + i) ≡ page ptes pagetable va)
        × (phys ptes pagetable (va + i) ≡ phys ptes pagetable va + i)
  phys-near va i near =
      let same : pground_down (va + i) ≡ pground_down va = omega arith in
      let off : (va + i) % pgsize ≡ va % pgsize + i = omega arith in
      (rw same refl, rw (same, off) (omega arith))

  -- No byte of the user range is one of those at `dst`.
  abbrev Apart : (dst srcva len : ℕ) → Type 0
  Apart dst srcva len =
      (i j : ℕ)
      → i < len
      → j < len
      → (page ptes pagetable (srcva + i) == 0) ≡ false
      → (phys ptes pagetable (srcva + i) == dst + j) ≡ false

  -- The bytes at the user addresses have been copied to `dst`; where they are not, one of them has
  -- no page.
  abbrev Moved : (mem : ℕ → ℕ) (dst srcva len : ℕ) → Bool × (ℕ → ℕ) → Type 0
  Moved mem dst srcva len (true, mem') =
      ((i : ℕ) → i < len → (page ptes pagetable (srcva + i) == 0) ≡ false)
      × ((i : ℕ) → i < len → mem' (dst + i) ≡ mem (phys ptes pagetable (srcva + i)))
      × ((a : ℕ) → (dst ≤ a → dst + len ≤ a) → mem' a ≡ mem a)
  Moved mem dst srcva len (false, mem') =
      ((i : ℕ) × (i < len) × (page ptes pagetable (srcva + i) ≡ 0))
      × ((a : ℕ) → (dst ≤ a → dst + len ≤ a) → mem' a ≡ mem a)

  pub in-moved :
      (mem : ℕ → ℕ) (dst src n i : ℕ) → i < n → moved mem dst src n (dst + i) ≡ mem (src + i)
  in-moved mem dst src n i il =
      let place : dst + i - dst ≡ i = omega arith in
      let low : leb dst (dst + i) ≡ true = ground arith in
      let high : ltb (dst + i) (dst + n) ≡ true = ground arith in rw (low, high, place) refl

  pub moved_out :
      (mem : ℕ → ℕ) (dst src n a : ℕ) → (dst ≤ a → dst + n ≤ a) → moved mem dst src n a ≡ mem a
  moved_out mem dst src n a out = elim (Bool-cases (leb dst a)) [
    | inl h ↦
        let far : ltb a (dst + n) ≡ false = ground (arith, out (ground arith)) in rw (h, far) refl
    | inr h ↦ rw h refl
  ]

  -- A round that copies `n` bytes.
  module _ (mem : ℕ → ℕ) (dst srcva len n : ℕ) (mapped : (page ptes pagetable srcva == 0) ≡ false)
      (near : srcva % pgsize + n ≤ pgsize) (short : n ≤ len) (apart : Apart dst srcva len) where
    abbrev mem1 : ℕ → ℕ
    mem1 = moved mem dst (phys ptes pagetable srcva) n

    -- The bytes of the user pages are as before.
    source_stays :
        (i : ℕ)
        → i < len
        → (page ptes pagetable (srcva + i) == 0) ≡ false
        → mem1 (phys ptes pagetable (srcva + i)) ≡ mem (phys ptes pagetable (srcva + i))
    source_stays i il there =
        let p = phys ptes pagetable (srcva + i) in
        moved_out mem dst (phys ptes pagetable srcva) n p (λ le.
          elim (Bool-cases (leb (dst + n) p)) [
            | inl h ↦ ground arith
            | inr h ↦
                let at : dst + (p - dst) ≡ p = ground arith in
                let no : (p == dst + (p - dst)) ≡ false =
                  apart i (p - dst) il (ground arith) there in
                absurd (ground arith)
          ])

    round-Moved :
        (o : Bool × (ℕ → ℕ))
        → Moved mem1 (dst + n) (srcva + n) (len - n) o
        → Moved mem dst srcva len o
    round-Moved (false, mem') ((i, il, z), rest) =
        let place : srcva + n + i ≡ srcva + (n + i) = omega arith in
        (
          (n + i, omega arith, (rw place at z)),
          (λ a out.
              rest a (λ le. omega (arith, out (omega arith)))
              ∙ moved_out mem dst (phys ptes pagetable srcva) n a (λ le. omega (arith, out le))),
        )
    round-Moved (true, mem') (pages, bytes, rest) = (
      (λ i il. elim (Bool-cases (ltb i n)) [
        | inl h ↦ rw (phys-near srcva i (ground arith)).0 mapped
        | inr h ↦
            let place : srcva + n + (i - n) ≡ srcva + i = ground arith in
            rw place at (pages (i - n) (ground arith))
      ]),
      (λ i il. elim (Bool-cases (ltb i n)) [
        | inl h ↦
            rest (dst + i) (λ le. absurd (ground arith))
            ∙ in-moved mem dst (phys ptes pagetable srcva) n i (ground arith)
            ∙ ap mem (sym ((phys-near srcva i (ground arith)).1))
        | inr h ↦
            let from : dst + n + (i - n) ≡ dst + i = ground arith in
            let place : srcva + n + (i - n) ≡ srcva + i = ground arith in
            ap mem' (sym from)
            ∙ bytes (i - n) (ground arith)
            ∙ ap (λ v. mem1 (phys ptes pagetable v)) place
            ∙ source_stays i il (rw place at (pages (i - n) (ground arith)))
      ]),
      (λ a out.
          rest a (λ le. omega (arith, out (omega arith)))
          ∙ moved_out mem dst (phys ptes pagetable srcva) n a (λ le. omega (arith, out le))),
    )

  copyin_loop-zero :
      (fuel : ℕ) (mem : ℕ → ℕ) (dst srcva : ℕ)
      → copyin_loop ptes pagetable fuel mem dst srcva 0 ≡ (true, mem)
  unfolding copyin_loop
  copyin_loop-zero zero mem dst srcva = refl
  copyin_loop-zero (suc fuel) mem dst srcva = refl

  -- The address behind a round that is not the last is on the next page.
  pub next_page :
      (va len : ℕ)
      → pgsize - (va - pground_down va) < len
      → pground_down va + pgsize ≡ va + min (pgsize - (va - pground_down va)) len
  next_page va len more = omega arith

  copyin_loop-Moved :
      (fuel : ℕ) (mem : ℕ → ℕ) (dst srcva len : ℕ)
      → len ≤ fuel
      → Apart dst srcva len
      → Moved mem dst srcva len (copyin_loop ptes pagetable fuel mem dst srcva len)
  unfolding copyin_loop
  copyin_loop-Moved zero mem dst srcva len enough apart =
      let none_left : (len == 0) ≡ true = ground arith in
      let run : copyin_loop ptes pagetable zero mem dst srcva len ≡ (true, mem) =
        rw (none_left, copyin_loop) refl in
      subst (Moved mem dst srcva len) (sym run)
        ((λ i il. absurd (omega arith)), (λ i il. absurd (omega arith)), (λ a out. refl))
  copyin_loop-Moved (suc fuel) mem dst srcva len enough apart = elim (Bool-cases (len == 0)) [
    | inl z ↦
        let run : copyin_loop ptes pagetable (suc fuel) mem dst srcva len ≡ (true, mem) =
          rw (z, copyin_loop) refl in
        subst (Moved mem dst srcva len) (sym run)
          ((λ i il. absurd (ground arith)), (λ i il. absurd (ground arith)), (λ a out. refl))
    | inr more ↦ elim (Bool-cases (page ptes pagetable srcva == 0)) [
      | inl none ↦
          let here : srcva + 0 ≡ srcva = omega arith in
          let run : copyin_loop ptes pagetable (suc fuel) mem dst srcva len ≡ (false, mem) =
            rw (more, none, copyin_loop) refl in
          subst (Moved mem dst srcva len) (sym run) (
            (
              0,
              ground arith,
              ap (page ptes pagetable) here ∙ eq_of_== (page ptes pagetable srcva) 0 none,
            ),
            (λ a out. refl),
          )
      | inr mapped ↦
          let n : ℕ = min (pgsize - (srcva - pground_down srcva)) len in
          let off : srcva - pground_down srcva ≡ srcva % pgsize = omega arith in
          let near : srcva % pgsize + n ≤ pgsize = omega arith in
          let mem1 : ℕ → ℕ = moved mem dst (phys ptes pagetable srcva) n in
          elim (Bool-cases (ltb (pgsize - (srcva - pground_down srcva)) len)) [
            | inl on ↦
                let next = next_page srcva len (ground arith) in
                let run : copyin_loop ptes pagetable (suc fuel) mem dst srcva len
                    ≡ copyin_loop ptes pagetable fuel mem1 (dst + n) (srcva + n) (len - n) =
                  rw (more, mapped, next, off, copyin_loop) refl in
                subst (Moved mem dst srcva len) (sym run) (
                  round-Moved mem dst srcva len n mapped near (omega arith) apart _ (
                    copyin_loop-Moved fuel mem1 (dst + n) (srcva + n) (len - n) (ground arith)
                      (λ i j il jl there.
                        let p : srcva + n + i ≡ srcva + (n + i) = omega arith in
                        let q : dst + n + j ≡ dst + (n + j) = omega arith in
                        rw (p, q)
                          (apart (n + i) (n + j) (omega arith) (omega arith) (rw p at there)))))
            | inr last ↦
                let all : len - n ≡ 0 = ground arith in
                let run : copyin_loop ptes pagetable (suc fuel) mem dst srcva len ≡ (true, mem1) =
                  rw (more, mapped, all, off, copyin_loop) (copyin_loop-zero fuel _ _ _) in
                subst (Moved mem dst srcva len) (sym run) (
                  round-Moved mem dst srcva len n mapped near (omega arith) apart (true, mem1)
                    (
                      (λ i il. absurd (omega arith)),
                      (λ i il. absurd (omega arith)),
                      (λ a out. refl),
                    ))
          ]
    ]
  ]

  -- The bytes at `len` user addresses, through the page table, have been copied to `dst`, or one of
  -- the addresses stands for none. No other memory has changed.
  abbrev pub Copied : (mem : ℕ → ℕ) (dst srcva len : ℕ) → Bool × (ℕ → ℕ) → Type 0
  Copied mem dst srcva len (true, mem') =
      ((i : ℕ)
        → i < len
        → (a : ℕ) × Translates ptes pagetable (srcva + i) a × (mem' (dst + i) ≡ mem a))
      × ((a : ℕ) → (dst ≤ a → dst + len ≤ a) → mem' a ≡ mem a)
  Copied mem dst srcva len (false, mem') =
      ((i : ℕ) × (i < len) × ((a : ℕ) → Translates ptes pagetable (srcva + i) a → ⊥))
      × ((a : ℕ) → (dst ≤ a → dst + len ≤ a) → mem' a ≡ mem a)

  Moved-Copied :
      (mem : ℕ → ℕ) (dst srcva len : ℕ) (o : Bool × (ℕ → ℕ))
      → Moved mem dst srcva len o
      → Copied mem dst srcva len o
  Moved-Copied mem dst srcva len (true, mem') (pages, bytes, rest) = (
    (λ i il. (
      phys ptes pagetable (srcva + i),
      page-Translates ptes pagetable (srcva + i) (pages i il),
      bytes i il,
    )),
    rest,
  )
  Moved-Copied mem dst srcva len (false, mem') ((i, il, z), rest) = (
    (
      i,
      il,
      λ a t. let e = (Translates-page ptes pagetable (srcva + i) a t).0 in absurd (ground arith),
    ),
    rest,
  )

  -- copyin, where no physical address of the user range is one of those at `dst`: if it returns 0,
  -- each user address is on a page that the user may access by the three levels of the page table,
  -- and the bytes at `dst` are those there. If it returns -1, one of the user addresses is on no
  -- such page. No memory but that at `dst` changes.
  pub copyin-Copied :
      (mem : ℕ → ℕ) (dst srcva len : ℕ)
      → ((i j a : ℕ)
          → i < len
          → j < len
          → Translates ptes pagetable (srcva + i) a
          → (a == dst + j) ≡ false)
      → Copied mem dst srcva len (copyin ptes pagetable mem dst srcva len)
  unfolding copyin
  copyin-Copied mem dst srcva len apart = Moved-Copied mem dst srcva len _ (
      copyin_loop-Moved len mem dst srcva len (omega arith) (λ i j il jl there.
        apart i j (phys ptes pagetable (srcva + i)) il jl
          (page-Translates ptes pagetable (srcva + i) there)))
