-- ===== src/Grep/Tests.antt =====
-- The theorems on the matcher of user/grep.c at small expressions and texts.
use project.Base.{ℕ, ◌≡◌, refl, true, List, [], ◌∷◌, ◌++◌}
use project.Grep.{star, dollar, matchstar, matchhere, match}
use project.Grep.Search.{AllMatch, matchstar_sound, matchstar_complete, match_sound, match_complete}

-- b* and then c: the text bbc.
match-bbc : match (97 ∷ 98 ∷ star ∷ 99 ∷ dollar ∷ []) (120 ∷ 97 ∷ 98 ∷ 98 ∷ 99 ∷ []) ≡ true
unfolding match project.Grep.match_from matchhere matchstar
match-bbc = refl

bbc : matchstar 98 (matchhere (99 ∷ [])) (98 ∷ 98 ∷ 99 ∷ []) ≡ true
unfolding matchhere matchstar
bbc = refl

c_found : matchhere (99 ∷ []) (99 ∷ 100 ∷ []) ≡ true
unfolding matchhere
c_found = refl

match_c : match (99 ∷ []) (98 ∷ 99 ∷ 100 ∷ []) ≡ true
unfolding match project.Grep.match_from matchhere
match_c = refl

matchstar_sound_example :
    (xs : List ℕ) × (rest : List ℕ) × (98 ∷ 98 ∷ 99 ∷ [] ≡ xs ++ rest)
    × AllMatch 98 xs
    × (matchhere (99 ∷ []) rest ≡ true)
matchstar_sound_example = matchstar_sound 98 (matchhere (99 ∷ [])) (98 ∷ 98 ∷ 99 ∷ []) bbc

matchstar_complete_example :
    matchstar 98 (matchhere (99 ∷ [])) ((98 ∷ 98 ∷ []) ++ (99 ∷ 100 ∷ [])) ≡ true
matchstar_complete_example =
    matchstar_complete 98 (matchhere (99 ∷ [])) (98 ∷ 98 ∷ []) (99 ∷ 100 ∷ []) (refl, (refl, tt))
      c_found

match_sound_example :
    (before : List ℕ) × (rest : List ℕ) × (98 ∷ 99 ∷ 100 ∷ [] ≡ before ++ rest)
    × (matchhere (99 ∷ []) rest ≡ true)
match_sound_example = match_sound 99 [] (98 ∷ 99 ∷ 100 ∷ []) refl match_c

match_complete_example : match (99 ∷ []) ((97 ∷ 98 ∷ []) ++ (99 ∷ 100 ∷ [])) ≡ true
match_complete_example = match_complete 99 [] (97 ∷ 98 ∷ []) (99 ∷ 100 ∷ []) refl c_found
