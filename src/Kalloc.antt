-- ===== src/Kalloc.antt =====
-- kernel/kalloc.c: the free list of physical pages. `word` has the first eight bytes of each page,
-- where a free page keeps the pointer to the next one; memset is seen there. The lock is held for
-- the whole of the list operations, so that each is one step. `end` is the first address after the
-- kernel.
pub mod Chain
mod Tests
use project.Base.{
  ℕ, zero, suc, ◌+◌, ◌*◌, ◌-◌, ◌/◌, ◌%◌, ◌^◌, Bool, true, false, ◌||◌, Option, none, some, ltb, leb,
  ◌==◌, ◌!=◌, if◌then◌else◌,
}

abbrev pub pgsize : ℕ
pgsize = 4096

abbrev pub physstop : ℕ
physstop = 2 ^ 31 + 128 * 1024 * 1024

abbrev pub pgroundup : ℕ → ℕ
pgroundup sz = (sz + pgsize - 1) / pgsize * pgsize

pub record Kmem : Type 0 where
  pub word : ℕ → ℕ
  pub freelist : ℕ

abbrev pub poke : ℕ → ℕ → Kmem → Kmem
poke pa w m = record m { word = λ a. if a == pa then w else m.word a }

-- The first word of a page filled with 1, and with 5.
abbrev pub ones : ℕ
ones = 72340172838076673

abbrev pub fives : ℕ
fives = 361700864190383365

abbrev pub unless_panic : Option Kmem → (Kmem → Option Kmem) → Option Kmem
unless_panic none f = none
unless_panic (some m) f = f m

module _ (end : ℕ) where
  -- kfree; none is a panic.
  unfoldable pub kfree : ℕ → Kmem → Option Kmem
  kfree pa m =
      if pa % pgsize != 0 || ltb pa end || leb physstop pa
      then none
      else (let filled = poke pa ones m in
          some (record (poke pa filled.freelist filled) { freelist = pa }))

  -- The loop of freerange, with the number of pages that fit.
  unfoldable pub free_pages : ℕ → ℕ → Kmem → Option Kmem
  free_pages p zero m = some m
  free_pages p (suc left) m = unless_panic (kfree p m) (λ m'. free_pages (p + pgsize) left m')

  unfoldable pub freerange : ℕ → ℕ → Kmem → Option Kmem
  freerange pa_start pa_end m =
      free_pages (pgroundup pa_start) ((pa_end - pgroundup pa_start) / pgsize) m

  unfoldable pub kinit : Kmem → Option Kmem
  kinit m = freerange end physstop m

-- kalloc, with the page or 0.
unfoldable pub kalloc : Kmem → ℕ × Kmem
kalloc m =
    if m.freelist == 0
    then (0, m)
    else (m.freelist, poke m.freelist fives (record m { freelist = m.word m.freelist }))
