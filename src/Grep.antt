-- ===== src/Grep.antt =====
-- The matcher of user/grep.c. A string is the list of its bytes before the terminating 0.
pub mod Search
mod Tests
use project.Base.{ℕ, Bool, true, false, ◌&&◌, ◌||◌, List, [], ◌∷◌, ◌==◌, if◌then◌else◌}

abbrev pub caret : ℕ
caret = 94

abbrev pub star : ℕ
star = 42

abbrev pub dollar : ℕ
dollar = 36

abbrev pub dot : ℕ
dot = 46

abbrev pub at_end : List ℕ → Bool
at_end [] = true
at_end (x ∷ text) = false

-- matchstar; `here` is matchhere of the rest of the expression.
unfoldable pub matchstar : ℕ → (List ℕ → Bool) → List ℕ → Bool
matchstar c here [] = here []
matchstar c here (x ∷ text) =
    let rest = matchstar c here text in here (x ∷ text) || (((x == c) || (c == dot)) && rest)

-- The last two tests of matchhere, for an expression that starts with `c`; `here` is matchhere of
-- what follows.
abbrev pub match_one : ℕ → (List ℕ → Bool) → List ℕ → Bool
match_one c here [] = false
match_one c here (x ∷ text) = ((c == dot) || (c == x)) && here text

unfoldable pub matchhere : List ℕ → List ℕ → Bool
matchhere [] text = true
matchhere (c ∷ []) text = if c == dollar then at_end text else match_one c (λ _. true) text
matchhere (c ∷ d ∷ re) text =
    let starred = matchstar c (matchhere re) text in
    let single = match_one c (matchhere (d ∷ re)) text in if d == star then starred else single

-- The loop of match, over the ends of the text.
unfoldable pub match_from : List ℕ → List ℕ → Bool
match_from re [] = matchhere re []
match_from re (x ∷ text) = let rest = match_from re text in matchhere re (x ∷ text) || rest

unfoldable pub match : List ℕ → List ℕ → Bool
match [] text = match_from [] text
match (c ∷ re) text = if c == caret then matchhere re text else match_from (c ∷ re) text
