-- ===== src/Kalloc/Chain.antt =====
-- kfree, kalloc and kinit of kernel/kalloc.c: the pages on the free list.
use project.Base.{
  ℕ, zero, suc, ◌+◌, ◌*◌, ◌-◌, ◌/◌, ◌%◌, ◌≤◌, ◌<◌, ◌≡◌, refl, sym, Bool, true, false, not, ◌&&◌,
  ◌||◌, Option, none, some, arith, List, [], ◌∷◌, ltb, leb, ◌==◌, ◌!=◌, if◌then◌else◌, ==-refl,
  Bool-cases, inl, inr,
}
use mathlib.Core.Path.{subst}
use project.Base.Lists.{has, Distinct}
use project.Kalloc.{
  Kmem, pgsize, physstop, pgroundup, kfree, kalloc, kinit, free_pages, freerange, ones, fives,
}

-- The pages from `head` on, through the words of the free pages.
abbrev pub Links : (ℕ → ℕ) → ℕ → List ℕ → Type 0
Links word head [] = head ≡ 0
Links word head (p ∷ ps) = (head ≡ p) × ((p == 0) ≡ false) × Links word (word p) ps

pub record FreeList (pages : List ℕ) (m : Kmem) : Type 0 where
  pub links : Links m.word m.freelist pages
  pub distinct : Distinct pages

Links-poke :
    (word : ℕ → ℕ) (pa w head : ℕ) (ps : List ℕ)
    → has pa ps ≡ false
    → Links word head ps
    → Links (λ a. if a == pa then w else word a) head ps
Links-poke word pa w head [] out l = l
Links-poke word pa w head (p ∷ ps) out (e, ne, l) =
    let other : (p == pa) ≡ false = ground arith in
    (e, ne, rw other (Links-poke word pa w (word p) ps (ground arith) l))

-- A page that kfree takes: on a page boundary, from the end of the kernel up to PHYSTOP, and not 0.
abbrev pub is_page : ℕ → ℕ → Bool
is_page end pa = (pa % pgsize == 0) && leb end pa && ltb pa physstop && not (pa == 0)

-- kfree of a page that is not on the free list does not panic, and puts it first.
pub kfree_lem :
    (end pa : ℕ) (pages : List ℕ) (m : Kmem)
    → FreeList pages m
    → is_page end pa ≡ true
    → has pa pages ≡ false
    → (m' : Kmem) × (kfree end pa m ≡ some m') × FreeList (pa ∷ pages) m'
unfolding kfree
kfree_lem end pa pages m f ok out =
    let guard : (pa % pgsize != 0 || ltb pa end || leb physstop pa) ≡ false = ground arith in
    let word1 : ℕ → ℕ = λ a. if a == pa then ones else m.word a in
    let word2 : ℕ → ℕ = λ a. if a == pa then m.freelist else word1 a in
    (
      record { word = word2; freelist = pa },
      rw guard refl,
      record {
        links = (
          refl,
          ground arith,
          rw (==-refl pa) (
              Links-poke word1 pa m.freelist m.freelist pages out
                (Links-poke m.word pa ones m.freelist pages out f.links)),
        );
        distinct = (out, f.distinct);
      },
    )

-- What kalloc answers, by the pages that are free.
abbrev pub Taken : List ℕ → ℕ × Kmem → Type 0
Taken [] (r, m') = (r ≡ 0) × FreeList [] m'
Taken (p ∷ ps) (r, m') = (r ≡ p) × FreeList ps m'

-- Besides `pages`, the page boundaries from `p` on below `p + left` pages are free.
abbrev Freed : ℕ → ℕ → List ℕ → Option Kmem → Type 0
Freed p left pages none = ⊥
Freed p left pages (some m') =
    (pages' : List ℕ) × FreeList pages' m'
    × ((a : ℕ)
        → has a pages'
          ≡ (has a pages || ((a % pgsize == 0) && leb p a && ltb a (p + left * pgsize))))

-- kalloc takes the first page off the free list, and answers 0 where there is none.
pub kalloc_lem : (pages : List ℕ) (m : Kmem) → FreeList pages m → Taken pages (kalloc m)
unfolding kalloc
kalloc_lem [] m f =
    let none_left : (m.freelist == 0) ≡ true = ground (arith, f.links) in rw none_left (refl, f)
kalloc_lem (p ∷ ps) m f =
    let some_left : (m.freelist == 0) ≡ false = ground (arith, f.links.0, f.links.1) in
    rw some_left (
      f.links.0,
      record {
        links = rw f.links.0 (Links-poke m.word p fives (m.word p) ps f.distinct.0 f.links.2);
        distinct = f.distinct.1;
      },
    )

Freed-step :
    (p left : ℕ) (pages : List ℕ) (r : Option Kmem)
    → p % pgsize ≡ 0
    → Freed (p + pgsize) left (p ∷ pages) r
    → Freed p (suc left) pages r
Freed-step p left pages none aligned d = d
Freed-step p left pages (some m') aligned (pages', f, h) = (pages', f, λ a. ground (arith, h a))

free_pages-next :
    (end p left : ℕ) (m m' : Kmem)
    → kfree end p m ≡ some m'
    → free_pages end p (suc left) m ≡ free_pages end (p + pgsize) left m'
unfolding free_pages
free_pages-next end p left m m' e = rw e refl

-- The pages from `p` on are freed, below `p + left` pages.
free_pages_lem :
    (end p left : ℕ) (pages : List ℕ) (m : Kmem)
    → FreeList pages m
    → p % pgsize ≡ 0
    → end ≤ p
    → 0 < p
    → p + left * pgsize ≤ physstop
    → ((a : ℕ) → has a pages ≡ true → a < p)
    → Freed p left pages (free_pages end p left m)
unfolding free_pages
free_pages_lem end p zero pages m f aligned above pos fits below = (pages, f, λ a. ground arith)
free_pages_lem end p (suc left) pages m f aligned above pos fits below =
    let free : has p pages ≡ false = elim (Bool-cases (has p pages)) [
      | inl h ↦ absurd (omega (arith, below p h))
      | inr h ↦ h
    ] in
    let (m', e, f') = kfree_lem end p pages m f (ground arith) free in
    subst (Freed p (suc left) pages) (sym (free_pages-next end p left m m' e)) (
      Freed-step p left pages (free_pages end (p + pgsize) left m') aligned (
        free_pages_lem end (p + pgsize) left (p ∷ pages) m' f' (omega arith) (omega arith)
          (omega arith) (omega arith) (λ a h. ground (arith, below a))))

-- The free pages are exactly the page boundaries from the end of the kernel up to PHYSTOP.
abbrev pub Initialised : ℕ → Option Kmem → Type 0
Initialised end none = ⊥
Initialised end (some m') =
    (pages : List ℕ) × FreeList pages m'
    × ((a : ℕ) → has a pages ≡ ((a % pgsize == 0) && leb end a && ltb a physstop))

Initialised-of_Freed :
    (end : ℕ) (r : Option Kmem)
    → end + pgsize ≤ physstop
    → Freed (pgroundup end) ((physstop - pgroundup end) / pgsize) [] r
    → Initialised end r
Initialised-of_Freed end none fits d = d
Initialised-of_Freed end (some m') fits (pages, f, h) = (pages, f, λ a. ground (arith, h a))

-- kinit with an empty free list, for a kernel that ends above 0 and at most a page before PHYSTOP:
-- it does not panic, and then the free pages are exactly the page boundaries from the end of the
-- kernel up to PHYSTOP, each once.
pub kinit_lem :
    (end : ℕ) (m : Kmem)
    → m.freelist ≡ 0
    → 0 < end
    → end + pgsize ≤ physstop
    → Initialised end (kinit end m)
unfolding kinit freerange
kinit_lem end m empty pos fits =
    Initialised-of_Freed end
      (free_pages end (pgroundup end) ((physstop - pgroundup end) / pgsize) m) fits
      (free_pages_lem end (pgroundup end) ((physstop - pgroundup end) / pgsize) [] m
        (record { links = empty; distinct = tt }) (omega arith) (omega arith) (omega arith)
        (omega arith) (λ a h. absurd (ground (arith, h))))
