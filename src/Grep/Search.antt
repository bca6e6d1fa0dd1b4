-- ===== src/Grep/Search.antt =====
-- match and matchstar of user/grep.c: which splits of a text they find.
use project.Base.{
  ℕ, ◌≡◌, refl, ap, inl, inr, Bool, true, false, ◌&&◌, ◌||◌, List, [], ◌∷◌, ◌++◌, ◌==◌, arith,
  Bool-cases,
}
use project.Grep.{caret, star, dollar, dot, matchstar, matchhere, match_from, match}

-- Every byte is one that the starred byte `c` matches.
abbrev pub AllMatch : ℕ → List ℕ → Type 0
AllMatch c [] = Unit
AllMatch c (x ∷ xs) = ((x == c || c == dot) ≡ true) × AllMatch c xs

-- Where matchstar succeeds, the text is a run of bytes that the starred byte matches, and then a
-- text that the rest of the expression matches.
pub matchstar_sound :
    (c : ℕ) (here : List ℕ → Bool) (text : List ℕ)
    → matchstar c here text ≡ true
    → (xs : List ℕ) × (rest : List ℕ) × (text ≡ xs ++ rest) × AllMatch c xs × (here rest ≡ true)
unfolding matchstar
matchstar_sound c here [] h = ([], [], refl, tt, h)
matchstar_sound c here (x ∷ text) h = elim (Bool-cases (here (x ∷ text))) [
  | inl now ↦ ([], x ∷ text, refl, tt, now)
  | inr later ↦
      let (xs, rest, e, all, found) = matchstar_sound c here text (ground arith) in
      (x ∷ xs, rest, ap (λ l. x ∷ l) e, (ground arith, all), found)
]

-- matchstar succeeds on every such text.
pub matchstar_complete :
    (c : ℕ) (here : List ℕ → Bool) (xs rest : List ℕ)
    → AllMatch c xs
    → here rest ≡ true
    → matchstar c here (xs ++ rest) ≡ true
unfolding matchstar
matchstar_complete c here [] [] all found = found
matchstar_complete c here [] (r ∷ rest) all found = ground arith
matchstar_complete c here (x ∷ xs) rest all found =
    ground (arith, matchstar_complete c here xs rest all.1 found)

match_from_sound :
    (re text : List ℕ)
    → match_from re text ≡ true
    → (before : List ℕ) × (rest : List ℕ) × (text ≡ before ++ rest) × (matchhere re rest ≡ true)
unfolding match_from
match_from_sound re [] h = ([], [], refl, h)
match_from_sound re (x ∷ text) h = elim (Bool-cases (matchhere re (x ∷ text))) [
  | inl now ↦ ([], x ∷ text, refl, now)
  | inr later ↦
      let (before, rest, e, found) = match_from_sound re text (ground arith) in
      (x ∷ before, rest, ap (λ l. x ∷ l) e, found)
]

match_from_complete :
    (re before rest : List ℕ) → matchhere re rest ≡ true → match_from re (before ++ rest) ≡ true
unfolding match_from
match_from_complete re [] [] found = found
match_from_complete re [] (r ∷ rest) found = ground arith
match_from_complete re (x ∷ before) rest found =
    ground (arith, match_from_complete re before rest found)

-- An expression that does not start with ^ matches a text exactly where matchhere finds it at some
-- place of the text: if match succeeds, there is such a place.
pub match_sound :
    (c : ℕ) (re text : List ℕ)
    → (c == caret) ≡ false
    → match (c ∷ re) text ≡ true
    → (before : List ℕ) × (rest : List ℕ) × (text ≡ before ++ rest)
      × (matchhere (c ∷ re) rest ≡ true)
unfolding match
match_sound c re text free h = match_from_sound (c ∷ re) text (ground arith)

pub match_complete :
    (c : ℕ) (re before rest : List ℕ)
    → (c == caret) ≡ false
    → matchhere (c ∷ re) rest ≡ true
    → match (c ∷ re) (before ++ rest) ≡ true
unfolding match
match_complete c re before rest free found =
    rw free (match_from_complete (c ∷ re) before rest found)

-- No byte of the expression has a meaning of its own.
abbrev pub Plain : List ℕ → Type 0
Plain [] = Unit
Plain (c ∷ re) = ((c == star) ≡ false) × ((c == dot) ≡ false) × ((c == dollar) ≡ false) × Plain re

abbrev pub starts_with : List ℕ → List ℕ → Bool
starts_with [] text = true
starts_with (c ∷ re) [] = false
starts_with (c ∷ re) (x ∷ text) = (c == x) && starts_with re text

-- matchhere of an expression without *, . and $ is the test that the text starts with it.
pub matchhere-eq-starts_with :
    (re text : List ℕ) → Plain re → matchhere re text ≡ starts_with re text
unfolding matchhere
matchhere-eq-starts_with [] text plain = refl
matchhere-eq-starts_with (c ∷ []) [] (p, q, r, plain) = ground arith
matchhere-eq-starts_with (c ∷ []) (x ∷ text) (p, q, r, plain) = ground arith
matchhere-eq-starts_with (c ∷ d ∷ re) [] (p, q, r, (p', q', r', plain)) = ground arith
matchhere-eq-starts_with (c ∷ d ∷ re) (x ∷ text) (p, q, r, (p', q', r', plain)) =
    ground (arith, matchhere-eq-starts_with (d ∷ re) text (p', q', r', plain))
