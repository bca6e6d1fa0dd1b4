-- ===== src/Vm/Sv39.antt =====
-- The translation of user addresses, as the Sv39 scheme of RISC-V has it, and walkaddr of
-- kernel/vm.c.
use project.Base.{
  ==-ne, ℕ, ◌+◌, ◌*◌, ◌/◌, ◌%◌, ◌^◌, ◌<◌, ◌≡◌, ◌≢◌, refl, sym, ap, ◌∙◌, Bool, not, inl, inr, true,
  false, ◌&&◌, ◌==◌, leb, if◌then◌else◌, arith, Bool-cases, eq_of_==,
}
use mathlib.Core.Path.{subst}
use project.Vm.{pgsize, pground_down, pte_v, pte_u, pte2pa, px, maxva, walk_from, walkaddr}

module _ (ptes : ℕ → ℕ) (pagetable : ℕ) where
  -- The entry `e` of a table that is in use leads to the address `a`.
  pub record Leads (e a : ℕ) : Type 0 where
    pub valid : e % 2 ≡ 1
    pub address : a ≡ e / 1024 * 4096 % 2 ^ 64

  -- The user address `va` is on the page at `pa`: three levels of tables, by 9 bits of the address
  -- each, with a last entry that the user may use. A page at address 0 counts as none.
  pub record OnPage (va pa : ℕ) : Type 0 where
    pub below : va < 2 ^ 38
    pub middle : ℕ
    pub last : ℕ
    pub first_level : Leads (ptes (pagetable + 8 * (va / 2 ^ 30 % 512))) middle
    pub second_level : Leads (ptes (middle + 8 * (va / 2 ^ 21 % 512))) last
    pub third_level : Leads (ptes (last + 8 * (va / 2 ^ 12 % 512))) pa
    pub user : ptes (last + 8 * (va / 2 ^ 12 % 512)) / 16 % 2 ≡ 1
    pub somewhere : pa ≢ 0

  -- The entries that walkaddr reads.
  abbrev top : ℕ → ℕ
  top va = ptes (pagetable + 8 * px 2 va)

  abbrev mid : ℕ → ℕ
  mid va = ptes (pte2pa (top va) + 8 * px 1 va)

  abbrev leaf : ℕ → ℕ
  leaf va = ptes (pte2pa (mid va) + 8 * px 0 va)

  abbrev good : ℕ → Bool
  good va =
      not (leb maxva va)
      && (pte_v (top va) && (pte_v (mid va) && (pte_v (leaf va) && pte_u (leaf va))))

  walkaddr-run : (va : ℕ) → walkaddr ptes pagetable va ≡ (if good va then pte2pa (leaf va) else 0)
  unfolding walkaddr walk_from
  walkaddr-run va = elim (Bool-cases (leb maxva va)) [
    | inl high ↦ rw high refl
    | inr low ↦ elim (Bool-cases (pte_v (top va))) [
      | inr a ↦ rw (low, a) refl
      | inl a ↦ elim (Bool-cases (pte_v (mid va))) [
        | inr b ↦ rw (low, a, b) refl
        | inl b ↦ rw (low, a, b) refl
      ]
    ]
  ]

  -- walkaddr finds the page of an address, where it has one.
  pub walkaddr-OnPage :
      (va : ℕ) → (walkaddr ptes pagetable va == 0) ≡ false → OnPage va (walkaddr ptes pagetable va)
  walkaddr-OnPage va ne = elim (Bool-cases (good va)) [
    | inr bad ↦
        let none_found : walkaddr ptes pagetable va ≡ 0 = walkaddr-run va ∙ rw bad refl in
        absurd (ground arith)
    | inl ok ↦
        let at : walkaddr ptes pagetable va ≡ pte2pa (leaf va) = walkaddr-run va ∙ rw ok refl in
        let low : leb maxva va ≡ false = ground arith in
        let a : pte_v (top va) ≡ true = ground arith in
        let b : pte_v (mid va) ≡ true = ground arith in
        let c : pte_v (leaf va) ≡ true = ground arith in
        let d : pte_u (leaf va) ≡ true = ground arith in
        record {
          below = ground arith;
          middle = pte2pa (top va);
          last = pte2pa (mid va);
          first_level = record { valid = eq_of_== (top va % 2) 1 a; address = refl };
          second_level = record { valid = eq_of_== (mid va % 2) 1 b; address = refl };
          third_level = record { valid = eq_of_== (leaf va % 2) 1 c; address = at };
          user = eq_of_== (leaf va / 16 % 2) 1 d;
          somewhere = λ z. absurd (ground arith);
        }
  ]

  -- It finds no other.
  pub OnPage-walkaddr : (va pa : ℕ) → OnPage va pa → walkaddr ptes pagetable va ≡ pa
  OnPage-walkaddr va pa on =
      let low : leb maxva va ≡ false = ground (arith, on.below) in
      let m : on.middle ≡ pte2pa (top va) = on.first_level.address in
      let l : on.last ≡ pte2pa (mid va) =
        on.second_level.address ∙ ap (λ x. pte2pa (ptes (x + 8 * px 1 va))) m in
      let a : top va % 2 ≡ 1 = on.first_level.valid in
      let b : mid va % 2 ≡ 1 =
        subst (λ x. ptes (x + 8 * px 1 va) % 2 ≡ 1) m on.second_level.valid in
      let c : leaf va % 2 ≡ 1 =
        subst (λ x. ptes (x + 8 * px 0 va) % 2 ≡ 1) l on.third_level.valid in
      let d : leaf va / 16 % 2 ≡ 1 = subst (λ x. ptes (x + 8 * px 0 va) / 16 % 2 ≡ 1) l on.user in
      let ok : good va ≡ true = rw (low, a, b, c, d) refl in
      walkaddr-run va
      ∙ rw ok refl
      ∙ sym (on.third_level.address ∙ ap (λ x. pte2pa (ptes (x + 8 * px 0 va))) l)

  -- The physical address that a user address stands for.
  abbrev pub Translates : (va a : ℕ) → Type 0
  Translates va a = (pa : ℕ) × OnPage va pa × (a ≡ pa + va % 4096)

  -- The tables do not go by the offset in the page.
  OnPage-same : (va vb pa : ℕ) → va / 4096 ≡ vb / 4096 → OnPage va pa → OnPage vb pa
  OnPage-same va vb pa e on =
      let x : va / 2 ^ 30 ≡ vb / 2 ^ 30 = omega arith in
      let y : va / 2 ^ 21 ≡ vb / 2 ^ 21 = omega arith in
      let z : va / 2 ^ 12 ≡ vb / 2 ^ 12 = omega arith in
      record {
        below = omega (arith, on.below);
        middle = on.middle;
        last = on.last;
        first_level =
            subst (λ k. Leads (ptes (pagetable + 8 * (k % 512))) on.middle) x on.first_level;
        second_level =
            subst (λ k. Leads (ptes (on.middle + 8 * (k % 512))) on.last) y on.second_level;
        third_level = subst (λ k. Leads (ptes (on.last + 8 * (k % 512))) pa) z on.third_level;
        user = subst (λ k. ptes (on.last + 8 * (k % 512)) / 16 % 2 ≡ 1) z on.user;
        somewhere = on.somewhere;
      }

  -- The address of the page that a user address is on, 0 if it has none; and its own.
  abbrev pub page : ℕ → ℕ
  page va = walkaddr ptes pagetable (pground_down va)

  abbrev pub phys : ℕ → ℕ
  phys va = page va + va % pgsize

  pub page-Translates : (va : ℕ) → (page va == 0) ≡ false → Translates va (phys va)
  page-Translates va ne = (
    page va,
    OnPage-same (pground_down va) va (page va) (omega arith) (walkaddr-OnPage (pground_down va) ne),
    refl,
  )

  pub Translates-page : (va a : ℕ) → Translates va a → ((page va == 0) ≡ false) × (phys va ≡ a)
  Translates-page va a (pa, on, e) =
      let at : page va ≡ pa =
        OnPage-walkaddr (pground_down va) pa
          (OnPage-same va (pground_down va) pa (omega arith) on) in
      let ne = on.somewhere in (rw at (==-ne pa 0 ne), rw at (sym e))
