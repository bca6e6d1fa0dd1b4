-- ===== src/LinkedList/Seg.antt =====
-- What a well-formed list is: linked segments, and the representation of a sequence of elements.
use project.Base.{◌≡◌, ◌∙◌, ap, refl, true, false, List, [], ◌∷◌, ◌++◌, arith}
use mathlib.Core.List.{append_assoc}
use project.Base.Lists.{has, Distinct, ne_of_has}
use project.LinkedList.Memory.{Ptr, null, Heap, update, head_of, tail_of}

-- From `p` on, the nodes `xs` follow one another, in both directions.
abbrev pub Seg : Heap → Ptr → List Ptr → Type 0
Seg h p [] = Unit
Seg h p (x ∷ xs) = (h.next p ≡ x) × (h.prev x ≡ p) × Seg h x xs

-- The last node of a segment, and the nodes whose `next` link it uses.
abbrev pub last : Ptr → List Ptr → Ptr
last p [] = p
last p (x ∷ xs) = last x xs

abbrev pub sources : Ptr → List Ptr → List Ptr
sources p [] = []
sources p (x ∷ xs) = p ∷ sources x xs

pub Seg-append :
    (h : Heap) (p : Ptr) (xs ys : List Ptr) → Seg h p xs → Seg h (last p xs) ys → Seg h p (xs ++ ys)
Seg-append h p [] ys s t = t
Seg-append h p (x ∷ xs) ys s t = (s.0, s.1, Seg-append h x xs ys s.2 t)

pub Seg-left : (h : Heap) (p : Ptr) (xs ys : List Ptr) → Seg h p (xs ++ ys) → Seg h p xs
Seg-left h p [] ys s = tt
Seg-left h p (x ∷ xs) ys s = (s.0, s.1, Seg-left h x xs ys s.2)

pub Seg-right : (h : Heap) (p : Ptr) (xs ys : List Ptr) → Seg h p (xs ++ ys) → Seg h (last p xs) ys
Seg-right h p [] ys s = s
Seg-right h p (x ∷ xs) ys s = Seg-right h x xs ys s.2

pub has-last : (p : Ptr) (xs : List Ptr) → has (last p xs) (p ∷ xs) ≡ true
has-last p [] = ground arith
has-last p (x ∷ xs) = ground (arith, has-last x xs)

pub not-has-sources :
    (a p : Ptr) (xs : List Ptr) → has a (p ∷ xs) ≡ false → has a (sources p xs) ≡ false
not-has-sources a p [] h = refl
not-has-sources a p (x ∷ xs) h = ground (arith, not-has-sources a x xs)

pub has-sources : (a p : Ptr) (xs : List Ptr) → has a (sources p xs) ≡ true → has a (p ∷ xs) ≡ true
has-sources a p [] h = cc
has-sources a p (x ∷ xs) h = ground (arith, has-sources a x xs)

-- The last node of a segment is no source of it.
pub last-not-source :
    (p : Ptr) (xs : List Ptr) → Distinct (p ∷ xs) → has (last p xs) (sources p xs) ≡ false
last-not-source p [] d = refl
last-not-source p (x ∷ xs) d =
    ground (arith, last-not-source x xs d.1, ne_of_has (last x xs) p (x ∷ xs) (has-last x xs) d.0)

-- A heap that agrees on the links that a segment uses has the segment too.
pub Seg-frame :
    (h g : Heap) (p : Ptr) (xs : List Ptr)
    → ((a : Ptr) → has a (sources p xs) ≡ true → g.next a ≡ h.next a)
    → ((a : Ptr) → has a xs ≡ true → g.prev a ≡ h.prev a)
    → Seg h p xs
    → Seg g p xs
Seg-frame h g p [] sn sp s = tt
Seg-frame h g p (x ∷ xs) sn sp s = (
  ground (arith, sn p),
  ground (arith, sp x),
  Seg-frame h g x xs (λ a m. sn a (ground arith)) (λ a m. sp a (ground arith)) s.2,
)

-- Writing a link that the segment does not use keeps it.
pub Seg-set_next :
    (h : Heap) (p a v : Ptr) (xs : List Ptr)
    → has a (sources p xs) ≡ false
    → Seg h p xs
    → Seg (record h { next = update h.next a v }) p xs
Seg-set_next h p a v [] out s = tt
Seg-set_next h p a v (x ∷ xs) out s =
    (ground arith, s.1, Seg-set_next h x a v xs (ground arith) s.2)

pub Seg-set_prev :
    (h : Heap) (p a v : Ptr) (xs : List Ptr)
    → has a xs ≡ false
    → Seg h p xs
    → Seg (record h { prev = update h.prev a v }) p xs
Seg-set_prev h p a v [] out s = tt
Seg-set_prev h p a v (x ∷ xs) out s =
    (s.0, ground arith, Seg-set_prev h x a v xs (ground arith) s.2)

-- The nodes `ns` follow the head `p` in a list: linked both ways, the outer links null, all
-- distinct, none at address 0.
pub record IsChain (h : Heap) (p : Ptr) (ns : List Ptr) : Type 0 where
  pub linked : Seg h p ns
  pub front_end : h.prev p ≡ null
  pub back_end : h.next (last p ns) ≡ null
  pub distinct : Distinct (p ∷ ns)
  pub not_null : has null (p ∷ ns) ≡ false

-- The `struct list` at `l` holds the elements `xs`, front first, between its two header elements.
abbrev pub inner : Ptr → List Ptr → List Ptr
inner l xs = xs ++ (tail_of l ∷ [])

abbrev pub nodes : Ptr → List Ptr → List Ptr
nodes l xs = head_of l ∷ inner l xs

abbrev pub IsList : Heap → Ptr → List Ptr → Type 0
IsList h l xs = IsChain h (head_of l) (inner l xs)

-- `g` has the links of `h` everywhere but at the nodes `ns`.
abbrev pub SameOutside : List Ptr → Heap → Heap → Type 0
SameOutside ns h g = (a : Ptr) → has a ns ≡ false → (g.prev a ≡ h.prev a) × (g.next a ≡ h.next a)

pub last-append : (p : Ptr) (xs ys : List Ptr) → last p (xs ++ ys) ≡ last (last p xs) ys
last-append p [] ys = refl
last-append p (x ∷ xs) ys = last-append x xs ys

-- A list keeps its elements while only nodes of other lists are written.
pub IsChain-frame :
    (h g : Heap) (p : Ptr) (xs ns : List Ptr)
    → IsChain h p xs
    → SameOutside ns h g
    → ((a : Ptr) → has a (p ∷ xs) ≡ true → has a ns ≡ false)
    → IsChain g p xs
IsChain-frame h g p xs ns c same apart = record {
  linked =
      Seg-frame h g p xs (λ a m. (same a (apart a (has-sources a p xs m))).1)
        (λ a m. (same a (apart a (ground arith))).0) c.linked;
  front_end = (same p (apart p (ground arith))).0 ∙ c.front_end;
  back_end = (same (last p xs) (apart (last p xs) (has-last p xs))).1 ∙ c.back_end;
  distinct = c.distinct;
  not_null = c.not_null;
}

-- The element at which the part `zs` of a list begins: its first, or the tail.
abbrev pub first_of : Ptr → List Ptr → Ptr
first_of l [] = tail_of l
first_of l (z ∷ zs) = z

abbrev pub rest_of : Ptr → List Ptr → List Ptr
rest_of l [] = []
rest_of l (z ∷ zs) = inner l zs

pub inner-first : (l : Ptr) (zs : List Ptr) → inner l zs ≡ first_of l zs ∷ rest_of l zs
inner-first l [] = refl
inner-first l (z ∷ zs) = refl

pub inner-append :
    (l : Ptr) (ys zs : List Ptr) → inner l (ys ++ zs) ≡ ys ++ (first_of l zs ∷ rest_of l zs)
inner-append l ys zs = append_assoc ys zs _ ∙ ap (λ ns. ys ++ ns) (inner-first l zs)
