-- ===== src/Vm/Copyout.antt =====
-- copyout of kernel/vm.c: the bytes that reach the user.
use project.Base.{
  ℕ, zero, suc, ◌+◌, ◌-◌, ◌%◌, ◌≤◌, ◌<◌, ◌≡◌, refl, sym, ◌∙◌, ap, inl, inr, ◌==◌, eq_of_==, leb,
  ltb, Bool, true, false, arith, Bool-cases,
}
use mathlib.Core.Path.{subst}
use Prim.Native.Nat.{min}
use project.Vm.{pgsize, pground_down, moved, copyout_loop, copyout}
use project.Vm.Sv39.{page, phys, Translates, page-Translates, Translates-page}
use project.Vm.Copyin.{phys-near, in-moved, moved_out, next_page}

module _ (ptes : ℕ → ℕ) (pagetable : ℕ) where
  -- A physical address of the user range.
  abbrev InPages : (dstva len a : ℕ) → Type 0
  InPages dstva len a =
      (i : ℕ) × (i < len)
      × ((page ptes pagetable (dstva + i) == 0) ≡ false)
      × (a ≡ phys ptes pagetable (dstva + i))

  -- The bytes from `src` on have been copied to the user addresses; where they are not, one of
  -- these has no page.
  abbrev MovedOut : (mem : ℕ → ℕ) (dstva src len : ℕ) → Bool × (ℕ → ℕ) → Type 0
  MovedOut mem dstva src len (true, mem') =
      ((i : ℕ) → i < len → (page ptes pagetable (dstva + i) == 0) ≡ false)
      × ((i : ℕ) → i < len → mem' (phys ptes pagetable (dstva + i)) ≡ mem (src + i))
      × ((a : ℕ) → (InPages dstva len a → ⊥) → mem' a ≡ mem a)
  MovedOut mem dstva src len (false, mem') =
      ((i : ℕ) × (i < len) × (page ptes pagetable (dstva + i) ≡ 0))
      × ((a : ℕ) → (InPages dstva len a → ⊥) → mem' a ≡ mem a)

  -- The bytes at `src` are none of the user range, and the user range has no address twice.
  record Parted (dstva src len : ℕ) : Type 0 where
    apart :
        (i j : ℕ)
        → i < len
        → j < len
        → (page ptes pagetable (dstva + i) == 0) ≡ false
        → (phys ptes pagetable (dstva + i) == src + j) ≡ false
    injective :
        (i j : ℕ)
        → i < len
        → j < len
        → (page ptes pagetable (dstva + i) == 0) ≡ false
        → (page ptes pagetable (dstva + j) == 0) ≡ false
        → phys ptes pagetable (dstva + i) ≡ phys ptes pagetable (dstva + j)
        → i ≡ j

  -- A round that copies `n` bytes.
  module _ (mem : ℕ → ℕ) (dstva src len n : ℕ) (mapped : (page ptes pagetable dstva == 0) ≡ false)
      (near : dstva % pgsize + n ≤ pgsize) (short : n ≤ len) (d : Parted dstva src len) where
    abbrev mem1 : ℕ → ℕ
    mem1 = moved mem (phys ptes pagetable dstva) src n

    near_phys : (i : ℕ) → i < n → phys ptes pagetable (dstva + i) ≡ phys ptes pagetable dstva + i
    near_phys i il = (phys-near ptes pagetable dstva i (omega arith)).1

    near_page : (i : ℕ) → i < n → (page ptes pagetable (dstva + i) == 0) ≡ false
    near_page i il = rw (phys-near ptes pagetable dstva i (omega arith)).0 mapped

    -- What is outside of the user range does not change.
    outside_stays : (a : ℕ) → (InPages dstva len a → ⊥) → mem1 a ≡ mem a
    outside_stays a out = moved_out ptes pagetable mem (phys ptes pagetable dstva) src n a (λ le.
        elim (Bool-cases (leb (phys ptes pagetable dstva + n) a)) [
          | inl h ↦ ground arith
          | inr h ↦
              let i : ℕ = a - phys ptes pagetable dstva in
              let il : i < n = ground arith in
              let at : a ≡ phys ptes pagetable dstva + i = ground arith in
              absurd (out (i, omega arith, near_page i il, at ∙ sym (near_phys i il)))
        ])

    source_stays : (j : ℕ) → j < len → mem1 (src + j) ≡ mem (src + j)
    source_stays j jl =
        outside_stays (src + j)
          (λ (i, il, there, e). let no = d.apart i j il jl there in absurd (ground arith))

    -- The bytes of this round stay in those that follow.
    not_later :
        (i : ℕ) → i < n → InPages (dstva + n) (len - n) (phys ptes pagetable (dstva + i)) → ⊥
    not_later i il (j, jl, there, e) =
        let place : dstva + n + j ≡ dstva + (n + j) = omega arith in
        let same : i ≡ n + j =
          d.injective i (n + j) (omega arith) (omega arith) (near_page i il) (rw place at there)
            (e ∙ ap (phys ptes pagetable) place) in
        omega arith

    later : (a : ℕ) → InPages (dstva + n) (len - n) a → InPages dstva len a
    later a (j, jl, there, e) =
        let place : dstva + n + j ≡ dstva + (n + j) = omega arith in
        (n + j, omega arith, (rw place at there), e ∙ ap (phys ptes pagetable) place)

    round-MovedOut :
        (o : Bool × (ℕ → ℕ))
        → MovedOut mem1 (dstva + n) (src + n) (len - n) o
        → MovedOut mem dstva src len o
    round-MovedOut (false, mem') ((i, il, z), rest) =
        let place : dstva + n + i ≡ dstva + (n + i) = omega arith in
        (
          (n + i, omega arith, (rw place at z)),
          (λ a out. rest a (λ w. out (later a w)) ∙ outside_stays a out),
        )
    round-MovedOut (true, mem') (pages, bytes, rest) = (
      (λ i il. elim (Bool-cases (ltb i n)) [
        | inl h ↦ near_page i (ground arith)
        | inr h ↦
            let place : dstva + n + (i - n) ≡ dstva + i = ground arith in
            rw place at (pages (i - n) (ground arith))
      ]),
      (λ i il. elim (Bool-cases (ltb i n)) [
        | inl h ↦
            let lt : i < n = ground arith in
            rest (phys ptes pagetable (dstva + i)) (not_later i lt)
            ∙ ap mem1 (near_phys i lt)
            ∙ in-moved ptes pagetable mem (phys ptes pagetable dstva) src n i lt
        | inr h ↦
            let place : dstva + n + (i - n) ≡ dstva + i = ground arith in
            let from : src + n + (i - n) ≡ src + i = ground arith in
            ap (λ v. mem' (phys ptes pagetable v)) (sym place)
            ∙ bytes (i - n) (ground arith)
            ∙ ap mem1 from
            ∙ source_stays i il
      ]),
      (λ a out. rest a (λ w. out (later a w)) ∙ outside_stays a out),
    )

  copyout_loop-zero :
      (fuel : ℕ) (mem : ℕ → ℕ) (dstva src : ℕ)
      → copyout_loop ptes pagetable fuel mem dstva src 0 ≡ (true, mem)
  unfolding copyout_loop
  copyout_loop-zero zero mem dstva src = refl
  copyout_loop-zero (suc fuel) mem dstva src = refl

  done-MovedOut :
      (mem : ℕ → ℕ) (dstva src len : ℕ) → len ≡ 0 → MovedOut mem dstva src len (true, mem)
  done-MovedOut mem dstva src len z =
      ((λ i il. absurd (omega arith)), (λ i il. absurd (omega arith)), (λ a out. refl))

  Parted-rest :
      (dstva src len n : ℕ)
      → n ≤ len
      → Parted dstva src len
      → Parted (dstva + n) (src + n) (len - n)
  Parted-rest dstva src len n le d = record {
    apart = λ i j il jl there.
        let p : dstva + n + i ≡ dstva + (n + i) = omega arith in
        let q : src + n + j ≡ src + (n + j) = omega arith in
        rw (p, q) (d.apart (n + i) (n + j) (omega arith) (omega arith) (rw p at there));
    injective = λ i j il jl here there e.
        let p : dstva + n + i ≡ dstva + (n + i) = omega arith in
        let q : dstva + n + j ≡ dstva + (n + j) = omega arith in
        let same : n + i ≡ n + j =
          d.injective (n + i) (n + j) (omega arith) (omega arith) (rw p at here) (rw q at there)
            (ap (phys ptes pagetable) (sym p) ∙ e ∙ ap (phys ptes pagetable) q) in
        omega arith;
  }

  copyout_loop-MovedOut :
      (fuel : ℕ) (mem : ℕ → ℕ) (dstva src len : ℕ)
      → len ≤ fuel
      → Parted dstva src len
      → MovedOut mem dstva src len (copyout_loop ptes pagetable fuel mem dstva src len)
  unfolding copyout_loop
  copyout_loop-MovedOut zero mem dstva src len enough d =
      let none_left : (len == 0) ≡ true = ground arith in
      let run : copyout_loop ptes pagetable zero mem dstva src len ≡ (true, mem) =
        rw (none_left, copyout_loop) refl in
      subst (MovedOut mem dstva src len) (sym run) (done-MovedOut mem dstva src len (omega arith))
  copyout_loop-MovedOut (suc fuel) mem dstva src len enough d = elim (Bool-cases (len == 0)) [
    | inl z ↦
        let run : copyout_loop ptes pagetable (suc fuel) mem dstva src len ≡ (true, mem) =
          rw (z, copyout_loop) refl in
        subst (MovedOut mem dstva src len) (sym run)
          (done-MovedOut mem dstva src len (eq_of_== len 0 z))
    | inr more ↦ elim (Bool-cases (page ptes pagetable dstva == 0)) [
      | inl none ↦
          let here : dstva + 0 ≡ dstva = omega arith in
          let run : copyout_loop ptes pagetable (suc fuel) mem dstva src len ≡ (false, mem) =
            rw (more, none, copyout_loop) refl in
          subst (MovedOut mem dstva src len) (sym run) (
            (
              0,
              ground arith,
              ap (page ptes pagetable) here ∙ eq_of_== (page ptes pagetable dstva) 0 none,
            ),
            (λ a out. refl),
          )
      | inr mapped ↦
          let n : ℕ = min (pgsize - (dstva - pground_down dstva)) len in
          let off : dstva - pground_down dstva ≡ dstva % pgsize = omega arith in
          let near : dstva % pgsize + n ≤ pgsize = omega arith in
          let mem1 : ℕ → ℕ = moved mem (phys ptes pagetable dstva) src n in
          elim (Bool-cases (ltb (pgsize - (dstva - pground_down dstva)) len)) [
            | inl on ↦
                let next = next_page ptes pagetable dstva len (ground arith) in
                let run : copyout_loop ptes pagetable (suc fuel) mem dstva src len
                    ≡ copyout_loop ptes pagetable fuel mem1 (dstva + n) (src + n) (len - n) =
                  rw (more, mapped, next, off, copyout_loop) refl in
                subst (MovedOut mem dstva src len) (sym run) (
                  round-MovedOut mem dstva src len n mapped near (omega arith) d _ (
                    copyout_loop-MovedOut fuel mem1 (dstva + n) (src + n) (len - n) (ground arith)
                      (Parted-rest dstva src len n (omega arith) d)))
            | inr last ↦
                let all : len - n ≡ 0 = ground arith in
                let run : copyout_loop ptes pagetable (suc fuel) mem dstva src len ≡ (true, mem1) =
                  rw (more, mapped, all, off, copyout_loop) (copyout_loop-zero fuel _ _ _) in
                subst (MovedOut mem dstva src len) (sym run) (
                  round-MovedOut mem dstva src len n mapped near (omega arith) d (true, mem1)
                    (done-MovedOut mem1 (dstva + n) (src + n) (len - n) all))
          ]
    ]
  ]

  -- A physical address that one of `len` user addresses stands for.
  abbrev pub Within : (dstva len a : ℕ) → Type 0
  Within dstva len a = (i : ℕ) × (i < len) × Translates ptes pagetable (dstva + i) a

  -- The bytes from `src` on have been copied to what the user addresses stand for, or one of these
  -- stands for none. No other memory has changed.
  abbrev pub CopiedOut : (mem : ℕ → ℕ) (dstva src len : ℕ) → Bool × (ℕ → ℕ) → Type 0
  CopiedOut mem dstva src len (true, mem') =
      ((i : ℕ)
        → i < len
        → (a : ℕ) × Translates ptes pagetable (dstva + i) a × (mem' a ≡ mem (src + i)))
      × ((a : ℕ) → (Within dstva len a → ⊥) → mem' a ≡ mem a)
  CopiedOut mem dstva src len (false, mem') =
      ((i : ℕ) × (i < len) × ((a : ℕ) → Translates ptes pagetable (dstva + i) a → ⊥))
      × ((a : ℕ) → (Within dstva len a → ⊥) → mem' a ≡ mem a)

  -- The bytes at `src` are none of the user range, and no two user addresses of it stand for one.
  pub record Disjoint (dstva src len : ℕ) : Type 0 where
    pub apart :
        (i j a : ℕ)
        → i < len
        → j < len
        → Translates ptes pagetable (dstva + i) a
        → (a == src + j) ≡ false
    pub injective :
        (i j a : ℕ)
        → i < len
        → j < len
        → Translates ptes pagetable (dstva + i) a
        → Translates ptes pagetable (dstva + j) a
        → i ≡ j

  in_pages : (dstva len a : ℕ) → InPages dstva len a → Within dstva len a
  in_pages dstva len a (i, il, there, e) = (
    i,
    il,
    subst (Translates ptes pagetable (dstva + i)) (sym e)
        (page-Translates ptes pagetable (dstva + i) there),
  )

  MovedOut-CopiedOut :
      (mem : ℕ → ℕ) (dstva src len : ℕ) (o : Bool × (ℕ → ℕ))
      → MovedOut mem dstva src len o
      → CopiedOut mem dstva src len o
  MovedOut-CopiedOut mem dstva src len (true, mem') (pages, bytes, rest) = (
    (λ i il. (
      phys ptes pagetable (dstva + i),
      page-Translates ptes pagetable (dstva + i) (pages i il),
      bytes i il,
    )),
    (λ a out. rest a (λ w. out (in_pages dstva len a w))),
  )
  MovedOut-CopiedOut mem dstva src len (false, mem') ((i, il, z), rest) = (
    (
      i,
      il,
      λ a t. let e = (Translates-page ptes pagetable (dstva + i) a t).0 in absurd (ground arith),
    ),
    (λ a out. rest a (λ w. out (in_pages dstva len a w))),
  )

  Disjoint-Parted : (dstva src len : ℕ) → Disjoint dstva src len → Parted dstva src len
  Disjoint-Parted dstva src len d = record {
    apart = λ i j il jl there.
        d.apart i j (phys ptes pagetable (dstva + i)) il jl
          (page-Translates ptes pagetable (dstva + i) there);
    injective = λ i j il jl here there e.
        d.injective i j (phys ptes pagetable (dstva + i)) il jl
          (page-Translates ptes pagetable (dstva + i) here)
          (subst (Translates ptes pagetable (dstva + j)) (sym e)
            (page-Translates ptes pagetable (dstva + j) there));
  }

  -- copyout, where the bytes at `src` are none of the user range and no two user addresses of it
  -- stand for one physical address: if it returns 0, each user address is on a page that the user
  -- may access by the three levels of the page table, and the bytes there are those from `src` on.
  -- If it returns -1, one of the user addresses is on no such page. No memory outside of the user
  -- range changes.
  pub copyout-CopiedOut :
      (mem : ℕ → ℕ) (dstva src len : ℕ)
      → Disjoint dstva src len
      → CopiedOut mem dstva src len (copyout ptes pagetable mem dstva src len)
  unfolding copyout
  copyout-CopiedOut mem dstva src len d =
      MovedOut-CopiedOut mem dstva src len _ (
        copyout_loop-MovedOut len mem dstva src len (omega arith) (Disjoint-Parted dstva src len d))
