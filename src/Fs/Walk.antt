-- ===== src/Fs/Walk.antt =====
-- skipelem and namex of kernel/fs.c follow the names of a path.
use project.Base.{
  ℕ, zero, suc, ◌≤◌, ◌<◌, ◌≡◌, refl, sym, ap, ◌∙◌, inl, inr, Bool, true, false, not, Option, none,
  some, List, [], ◌∷◌, ◌++◌, ◌==◌, if◌then◌else◌, arith, Bool-cases, Option-cases,
}
use mathlib.Core.List.{append_assoc, append-nil}
use project.Base.Lists.{length, take}
use project.Fs.Name.{
  dirsiz, slash, no_bytes, skip_slashes, elem_of, after_elem, skipelem, walk, namex, names,
  names_from, follow,
}

names-skip_slashes : (p : List ℕ) → names (skip_slashes p) ≡ names p
names-skip_slashes [] = refl
names-skip_slashes (c ∷ p) = elim (Bool-cases (c == slash)) [
  | inl h ↦ rw h (names-skip_slashes p)
  | inr h ↦ rw h (rw h refl)
]

-- A run that has begun takes the bytes up to the next slash.
names_from_run :
    (r : ℕ) (rs p : List ℕ)
    → names_from (r ∷ rs) p ≡ take dirsiz ((r ∷ rs) ++ elem_of p) ∷ names (after_elem p)
names_from_run r rs [] = rw (append-nil rs) refl
names_from_run r rs (c ∷ p) = elim (Bool-cases (c == slash)) [
  | inl h ↦ rw h (rw (append-nil rs, h) refl)
  | inr h ↦
      rw h (names_from_run r (rs ++ (c ∷ [])) p ∙ rw (append_assoc rs (c ∷ []) (elem_of p)) refl)
]

length-skip_slashes : (p : List ℕ) → length (skip_slashes p) ≤ length p
length-skip_slashes [] = omega arith
length-skip_slashes (c ∷ p) = elim (Bool-cases (c == slash)) [
  | inl h ↦ rw h (omega (arith, length-skip_slashes p))
  | inr h ↦ rw h (omega arith)
]

length-after_elem : (p : List ℕ) → length (after_elem p) ≤ length p
length-after_elem [] = omega arith
length-after_elem (c ∷ p) = elim (Bool-cases (c == slash)) [
  | inl h ↦ rw h (omega arith)
  | inr h ↦ rw h (omega (arith, length-after_elem p))
]

abbrev pub no_names : List (List ℕ) → Bool
no_names [] = true
no_names (n ∷ ns) = false

-- Without leading slashes, a path has names exactly if it has bytes.
no_names-skip_slashes : (p : List ℕ) → no_names (names (skip_slashes p)) ≡ no_bytes (skip_slashes p)
no_names-skip_slashes [] = refl
no_names-skip_slashes (c ∷ p) = elim (Bool-cases (c == slash)) [
  | inl h ↦ rw h (no_names-skip_slashes p)
  | inr h ↦ rw h (rw h (rw (names_from_run c [] p) refl))
]

-- What skipelem answers, by the names of the path.
abbrev pub Skipped : List ℕ → Option (List ℕ × List ℕ) → Type 0
Skipped path none = names path ≡ []
Skipped path (some (name, rest)) =
    (names path ≡ name ∷ names rest)
    × (length rest < length path)
    × (no_bytes rest ≡ no_names (names rest))

abbrev Starts : List ℕ → Type 0
Starts [] = Unit
Starts (c ∷ p) = (c == slash) ≡ false

skip_slashes-Starts : (p : List ℕ) → Starts (skip_slashes p)
skip_slashes-Starts [] = tt
skip_slashes-Starts (c ∷ p) = elim (Bool-cases (c == slash)) [
  | inl h ↦ rw h (skip_slashes-Starts p)
  | inr h ↦ rw h h
]

skipped :
    (path p : List ℕ)
    → Starts p
    → names p ≡ names path
    → length p ≤ length path
    → Skipped path
        (if no_bytes p then none else some (take dirsiz (elem_of p), skip_slashes (after_elem p)))
skipped path [] st e le = sym e
skipped path (c ∷ q) st e le = (
  sym e
      ∙ rw st (
          names_from_run c [] q
          ∙ ap (λ ns. take dirsiz (c ∷ elem_of q) ∷ ns) (sym (names-skip_slashes (after_elem q)))),
  rw st (omega (arith, length-skip_slashes (after_elem q), length-after_elem q)),
  rw st (sym (no_names-skip_slashes (after_elem q))),
)

-- skipelem returns the null pointer exactly on a path without names. Otherwise it copies the first
-- name, and the path that it returns has the other names, is shorter, and is empty exactly if there
-- are no other names.
pub skipelem-Skipped : (path : List ℕ) → Skipped path (skipelem path)
unfolding skipelem
skipelem-Skipped path =
    skipped path (skip_slashes path) (skip_slashes-Starts path) (names-skip_slashes path)
      (length-skip_slashes path)

-- The inode of the last name's directory, and the last name.
abbrev pub follow_parent :
    (is_dir : ℕ → Bool) (lookup : ℕ → List ℕ → Option ℕ) → ℕ → List (List ℕ) → Option (ℕ × List ℕ)
follow_parent is_dir lookup ip [] = none
follow_parent is_dir lookup ip (n ∷ []) = if is_dir ip then some (ip, n) else none
follow_parent is_dir lookup ip (n ∷ m ∷ ns) =
    if not (is_dir ip)
    then none
    else elim (lookup ip n) [ none ↦ none | some next ↦ follow_parent is_dir lookup next (m ∷ ns) ]

abbrev pub inode_of : Option (ℕ × List ℕ) → Option ℕ
inode_of none = none
inode_of (some (ip, name)) = some ip

module _ (is_dir : ℕ → Bool) (lookup : ℕ → List ℕ → Option ℕ) where
  -- A round of the loop for the inode of the path.
  walk_round :
      (fuel ip : ℕ) (name path : List ℕ) (r : Option (List ℕ × List ℕ))
      → Skipped path r
      → ((next : ℕ) (n rest : List ℕ)
          → length rest < length path
          → inode_of (walk is_dir lookup false fuel next n rest)
            ≡ follow is_dir lookup next (names rest))
      → inode_of (elim r [
        | none ↦ some (ip, name)
        | some (name', rest) ↦ if not (is_dir ip) then none else elim (lookup ip name') [
          | none ↦ none
          | some next ↦ walk is_dir lookup false fuel next name' rest
        ]
      ])
        ≡ follow is_dir lookup ip (names path)
  walk_round fuel ip name path none e next = rw e refl
  walk_round fuel ip name path (some (n, rest)) (e, lt, _) next =
      rw e (elim (Bool-cases (is_dir ip)) [
        | inr h ↦ rw h refl
        | inl h ↦ elim (Option-cases (lookup ip n)) [
          | inl l ↦ rw (h, l) refl
          | inr (i, l) ↦ rw (h, l) (next i n rest lt)
        ]
      ])

  walk-follow :
      (fuel ip : ℕ) (name path : List ℕ)
      → length path < fuel
      → inode_of (walk is_dir lookup false fuel ip name path) ≡ follow is_dir lookup ip (names path)
  unfolding walk
  walk-follow zero ip name path lt = absurd (omega arith)
  walk-follow (suc fuel) ip name path lt =
      walk_round fuel ip name path (skipelem path) (skipelem-Skipped path)
        (λ next n rest le. walk-follow fuel next n rest (omega arith))

  -- A round of the loop for the directory of the last name.
  parent_round :
      (fuel ip : ℕ) (name path : List ℕ) (r : Option (List ℕ × List ℕ))
      → Skipped path r
      → ((next : ℕ) (n rest : List ℕ)
          → length rest < length path
          → walk is_dir lookup true fuel next n rest
            ≡ follow_parent is_dir lookup next (names rest))
      → elim r [
        | none ↦ none
        | some (name', rest) ↦
            if not (is_dir ip)
            then none
            else (if no_bytes rest then some (ip, name') else elim (lookup ip name') [
              | none ↦ none
              | some next ↦ walk is_dir lookup true fuel next name' rest
            ])
      ]
        ≡ follow_parent is_dir lookup ip (names path)
  parent_round fuel ip name path none e next = rw e refl
  parent_round fuel ip name path (some (n, rest)) (e, lt, last) next =
      rw (e, last) (by_rest (names rest) refl)
    where
      by_rest :
          (ns : List (List ℕ))
          → names rest ≡ ns
          → (if not (is_dir ip)
              then none
              else (if no_names (names rest) then some (ip, n) else elim (lookup ip n) [
                | none ↦ none
                | some next ↦ walk is_dir lookup true fuel next n rest
              ]))
            ≡ follow_parent is_dir lookup ip (n ∷ ns)
      by_rest [] q = elim (Bool-cases (is_dir ip)) [ inl h ↦ rw (h, q) refl | inr h ↦ rw h refl ]
      by_rest (m ∷ ms) q = elim (Bool-cases (is_dir ip)) [
        | inr h ↦ rw h refl
        | inl h ↦ elim (Option-cases (lookup ip n)) [
          | inl l ↦ rw (h, q, l) refl
          | inr (i, l) ↦ rw (h, q, l) (next i n rest lt ∙ ap (follow_parent is_dir lookup i) q)
        ]
      ]

  parent-follow :
      (fuel ip : ℕ) (name path : List ℕ)
      → length path < fuel
      → walk is_dir lookup true fuel ip name path ≡ follow_parent is_dir lookup ip (names path)
  unfolding walk
  parent-follow zero ip name path lt = absurd (omega arith)
  parent-follow (suc fuel) ip name path lt =
      parent_round fuel ip name path (skipelem path) (skipelem-Skipped path)
        (λ next n rest le. parent-follow fuel next n rest (omega arith))

  -- Where a path starts.
  abbrev pub start_of : (root cwd : ℕ) → List ℕ → ℕ
  start_of root cwd [] = cwd
  start_of root cwd (c ∷ p) = if c == slash then root else cwd

  -- namex follows the names of the path, from the root inode if it starts with a slash, else from
  -- the current directory: without nameiparent to the inode of the last name, or of the start where
  -- there is no name; with it, to the directory of the last name, and it copies this name. It fails
  -- where a name on the way is not found or not looked up in a directory.
  pub namex-follow :
      (root cwd : ℕ) (path : List ℕ)
      → (inode_of (namex is_dir lookup false root cwd path)
          ≡ follow is_dir lookup (start_of root cwd path) (names path))
        × (namex is_dir lookup true root cwd path
            ≡ follow_parent is_dir lookup (start_of root cwd path) (names path))
  unfolding namex
  namex-follow root cwd [] =
      (walk-follow 1 cwd [] [] (omega arith), parent-follow 1 cwd [] [] (omega arith))
  namex-follow root cwd (c ∷ p) =
      let start = if c == slash then root else cwd in
      (
        walk-follow (suc (length (c ∷ p))) start [] (c ∷ p) (omega arith),
        parent-follow (suc (length (c ∷ p))) start [] (c ∷ p) (omega arith),
      )
