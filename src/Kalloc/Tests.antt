-- ===== src/Kalloc/Tests.antt =====
-- The theorems on kernel/kalloc.c for a kernel that ends two pages before PHYSTOP.
use project.Base.{◌-◌, ◌≡◌, refl, some, [], ◌∷◌, arith}
use project.Kalloc.{Kmem, physstop, kfree, kinit}
use project.Kalloc.Chain.{FreeList, Initialised, kfree_lem, kinit_lem}

abbrev blank : Kmem
blank = record { word = λ a. 0; freelist = 0 }

blank-FreeList : FreeList [] blank
blank-FreeList = record { links = refl; distinct = tt }

abbrev one_page : Kmem
one_page = record { word = λ a. 0; freelist = 8192 }

one_page-FreeList : FreeList (8192 ∷ []) one_page
one_page-FreeList = record { links = (refl, refl, refl); distinct = (refl, tt) }

kfree_lem_example :
    (m : Kmem) × (kfree 5000 12288 one_page ≡ some m) × FreeList (12288 ∷ 8192 ∷ []) m
kfree_lem_example = kfree_lem 5000 12288 (8192 ∷ []) one_page one_page-FreeList refl refl

kinit_lem_example : Initialised (physstop - 8292) (kinit (physstop - 8292) blank)
kinit_lem_example = kinit_lem (physstop - 8292) blank refl (omega arith) (omega arith)
