-- ===== src/Vm.antt =====
-- kernel/vm.c: addresses of user pages, and copies between them and the kernel. The entries of the
-- page tables are seen as 64-bit words at their addresses, apart from the bytes of the other pages,
-- at which the kernel reads and writes physical addresses. An address past the first page of a
-- copy is below MAXVA, so it does not wrap.
pub mod Sv39
pub mod Copyin
pub mod Copyout
mod Tests
use project.Base.{
  ℕ, zero, suc, ◌+◌, ◌-◌, ◌*◌, ◌/◌, ◌%◌, ◌^◌, ◌==◌, leb, ltb, Bool, true, false, ◌&&◌, Option, none,
  some, if◌then◌else◌,
}
use Prim.Native.Nat.{min}
pub use project.Kalloc.{pgsize}

-- One bit less than Sv39 allows.
abbrev pub maxva : ℕ
maxva = 2 ^ 38

abbrev pub pground_down : ℕ → ℕ
pground_down a = a / pgsize * pgsize

abbrev pub px : (level va : ℕ) → ℕ
px level va = va / 2 ^ (12 + 9 * level) % 512

abbrev pub pte2pa : ℕ → ℕ
pte2pa pte = pte / 2 ^ 10 * 2 ^ 12 % 2 ^ 64

-- The bits PTE_V and PTE_U.
abbrev pub pte_v : ℕ → Bool
pte_v pte = pte % 2 == 1

abbrev pub pte_u : ℕ → Bool
pte_u pte = pte / 2 ^ 4 % 2 == 1

-- Bytes dst, ..., dst + n - 1 become those from src on, as they were.
abbrev pub moved : (mem : ℕ → ℕ) (dst src n : ℕ) → ℕ → ℕ
moved mem dst src n a = if leb dst a && ltb a (dst + n) then mem (src + (a - dst)) else mem a

module _ (ptes : ℕ → ℕ) where
  -- The loop of walk with alloc 0: the address of the last entry.
  unfoldable pub walk_from : (level pagetable va : ℕ) → Option ℕ
  walk_from zero pagetable va = some (pagetable + 8 * px 0 va)
  walk_from (suc level) pagetable va = elim (pte_v (ptes (pagetable + 8 * px (suc level) va))) [
    | true ↦ walk_from level (pte2pa (ptes (pagetable + 8 * px (suc level) va))) va
    | false ↦ none
  ]

  unfoldable pub walkaddr : (pagetable va : ℕ) → ℕ
  walkaddr pagetable va = if leb maxva va then 0 else elim (walk_from 2 pagetable va) [
    | none ↦ 0
    | some pte ↦ if pte_v (ptes pte) && pte_u (ptes pte) then pte2pa (ptes pte) else 0
  ]

  module _ (pagetable : ℕ) where
    -- The loop of copyin; whether it returns 0, and the memory.
    unfoldable pub copyin_loop : (fuel : ℕ) → (ℕ → ℕ) → (dst srcva len : ℕ) → Bool × (ℕ → ℕ)
    copyin_loop zero mem dst srcva len = (len == 0, mem)
    copyin_loop (suc fuel) mem dst srcva len = elim (len == 0) [
      | true ↦ (true, mem)
      | false ↦
          let va0 = pground_down srcva in
          let pa0 = walkaddr pagetable va0 in
          let n = min (pgsize - (srcva - va0)) len in
          elim (pa0 == 0) [
            | true ↦ (false, mem)
            | false ↦
                copyin_loop fuel (moved mem dst (pa0 + (srcva - va0)) n) (dst + n) (va0 + pgsize)
                  (len - n)
          ]
    ]

    unfoldable pub copyin : (ℕ → ℕ) → (dst srcva len : ℕ) → Bool × (ℕ → ℕ)
    copyin mem dst srcva len = copyin_loop len mem dst srcva len

    -- The loop of copyout.
    unfoldable pub copyout_loop : (fuel : ℕ) → (ℕ → ℕ) → (dstva src len : ℕ) → Bool × (ℕ → ℕ)
    copyout_loop zero mem dstva src len = (len == 0, mem)
    copyout_loop (suc fuel) mem dstva src len = elim (len == 0) [
      | true ↦ (true, mem)
      | false ↦
          let va0 = pground_down dstva in
          let pa0 = walkaddr pagetable va0 in
          let n = min (pgsize - (dstva - va0)) len in
          elim (pa0 == 0) [
            | true ↦ (false, mem)
            | false ↦
                copyout_loop fuel (moved mem (pa0 + (dstva - va0)) src n) (va0 + pgsize) (src + n)
                  (len - n)
          ]
    ]

    unfoldable pub copyout : (ℕ → ℕ) → (dstva src len : ℕ) → Bool × (ℕ → ℕ)
    copyout mem dstva src len = copyout_loop len mem dstva src len
