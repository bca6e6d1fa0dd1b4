-- ===== src/Vm/Tests.antt =====
-- The theorems on kernel/vm.c at a page table at 4096, with tables at 8192 and 12288, that maps
-- user page 1 to the page at 20480 and user page 2 to the one at 16384.
use project.Base.{
  ℕ, ◌+◌, ◌-◌, ◌*◌, ◌%◌, ◌<◌, ◌≡◌, refl, ◌==◌, false, if◌then◌else◌, arith, inl, inr, Bool-cases,
}
use project.Vm.{walkaddr, copyin, copyout, pground_down}
use project.Vm.Sv39.{phys, Translates, Translates-page}
use project.Vm.Copyin.{Copied, copyin-Copied}
use project.Vm.Copyout.{Disjoint, CopiedOut, copyout-CopiedOut}

-- An entry for the page at 4096 * k, with its flags.
abbrev pte : (k flags : ℕ) → ℕ
pte k flags = k * 1024 + flags

abbrev table : ℕ → ℕ
table a =
    if a == 4096
    then pte 2 1
    else if a == 8192
    then pte 3 1
    else if a == 12296
    then pte 5 23
    else if a == 12304
    then pte 4 23
    else 0

page_one : walkaddr table 4096 4096 ≡ 20480
unfolding walkaddr project.Vm.walk_from
page_one = refl

page_two : walkaddr table 4096 8192 ≡ 16384
unfolding walkaddr project.Vm.walk_from
page_two = refl

page_three : walkaddr table 4096 12288 ≡ 0
unfolding walkaddr project.Vm.walk_from
page_three = refl

-- Ten bytes from 8190 on: two on page 1, and eight on page 2.
phys_at :
    (i : ℕ)
    → i < 10
    → phys table 4096 (8190 + i)
      ≡ (if i == 0 then 24574 else if i == 1 then 24575 else 16384 + (i - 2))
phys_at i il = elim (Bool-cases (i == 0)) [
  | inl z ↦
      let p : pground_down (8190 + i) ≡ 4096 = ground arith in rw (z, p, page_one) (ground arith)
  | inr nz ↦ elim (Bool-cases (i == 1)) [
    | inl one ↦
        let p : pground_down (8190 + i) ≡ 4096 = ground arith in
        rw (nz, one, p, page_one) (ground arith)
    | inr more ↦
        let p : pground_down (8190 + i) ≡ 8192 = ground arith in
        rw (nz, more, p, page_two) (ground arith)
  ]
]

abbrev numbered : ℕ → ℕ
numbered a = a % 256

apart_kernel :
    (i j a : ℕ) → i < 10 → j < 10 → Translates table 4096 (8190 + i) a → (a == 40960 + j) ≡ false
apart_kernel i j a il jl t =
    let e = (Translates-page table 4096 (8190 + i) a t).1 in ground (arith, phys_at i il)

copyin-Copied_example :
    Copied table 4096 numbered 40960 8190 10 (copyin table 4096 numbered 40960 8190 10)
copyin-Copied_example = copyin-Copied table 4096 numbered 40960 8190 10 apart_kernel

kernel-Disjoint : Disjoint table 4096 8190 40960 10
kernel-Disjoint = record {
  apart = apart_kernel;
  injective = λ i j a il jl t u.
      let e = (Translates-page table 4096 (8190 + i) a t).1 in
      let f = (Translates-page table 4096 (8190 + j) a u).1 in
      ground (arith, phys_at i il, phys_at j jl);
}

copyout-CopiedOut_example :
    CopiedOut table 4096 numbered 8190 40960 10 (copyout table 4096 numbered 8190 40960 10)
copyout-CopiedOut_example = copyout-CopiedOut table 4096 numbered 8190 40960 10 kernel-Disjoint
