-- ===== src/Fs/Name.antt =====
-- skipelem and namex of kernel/fs.c. A path is the list of its bytes before the terminating 0. What
-- the inodes hold is given: whether one is a directory, and what dirlookup finds in it.
-- The calls of iget, idup, ilock, iunlock, iunlockput and iput that namex makes on the way are not
-- part of it.
use project.Base.{
  ℕ, zero, suc, Bool, true, false, not, ◌&&◌, Option, none, some, List, [], ◌∷◌, ◌++◌, ◌==◌,
  if◌then◌else◌,
}
use project.Base.Lists.{length, take}

abbrev pub dirsiz : ℕ
dirsiz = 14

abbrev pub slash : ℕ
slash = 47

abbrev pub no_bytes : List ℕ → Bool
no_bytes [] = true
no_bytes (c ∷ p) = false

abbrev pub skip_slashes : List ℕ → List ℕ
skip_slashes [] = []
skip_slashes (c ∷ p) = let rest = skip_slashes p in if c == slash then rest else c ∷ p

-- The bytes before the next slash, and what follows them.
abbrev pub elem_of : List ℕ → List ℕ
elem_of [] = []
elem_of (c ∷ p) = let rest = elem_of p in if c == slash then [] else c ∷ rest

abbrev pub after_elem : List ℕ → List ℕ
after_elem [] = []
after_elem (c ∷ p) = let rest = after_elem p in if c == slash then c ∷ p else rest

-- The name that skipelem copies, and the path that it returns; none is the null pointer.
unfoldable pub skipelem : List ℕ → Option (List ℕ × List ℕ)
skipelem path =
    let p = skip_slashes path in
    if no_bytes p then none else some (take dirsiz (elem_of p), skip_slashes (after_elem p))

module _ (is_dir : ℕ → Bool) (lookup : ℕ → List ℕ → Option ℕ) where
  -- The loop of namex from the inode `ip`, with the inode and the last name that it copied.
  unfoldable pub walk : (nameiparent : Bool) → ℕ → ℕ → List ℕ → List ℕ → Option (ℕ × List ℕ)
  walk nameiparent zero ip name path = none
  walk nameiparent (suc fuel) ip name path = elim (skipelem path) [
    | none ↦ if nameiparent then none else some (ip, name)
    | some (name', rest) ↦
        if not (is_dir ip)
        then none
        else (if nameiparent && no_bytes rest then some (ip, name') else elim (lookup ip name') [
          | none ↦ none
          | some next ↦ walk nameiparent fuel next name' rest
        ])
  ]

  -- namex from the root inode or the current directory; a path of n bytes has at most n names.
  unfoldable pub namex : Bool → (root cwd : ℕ) → List ℕ → Option (ℕ × List ℕ)
  namex nameiparent root cwd [] = walk nameiparent 1 cwd [] []
  namex nameiparent root cwd (c ∷ p) =
      walk nameiparent (suc (length (c ∷ p))) (if c == slash then root else cwd) [] (c ∷ p)

-- The names of a path: its maximal runs of bytes without slashes, the first 14 bytes of each.
abbrev pub add_name : List ℕ → List (List ℕ) → List (List ℕ)
add_name [] ns = ns
add_name (c ∷ cs) ns = take dirsiz (c ∷ cs) ∷ ns

abbrev pub names_from : List ℕ → List ℕ → List (List ℕ)
names_from run [] = add_name run []
names_from run (c ∷ p) =
    let ended = names_from [] p in
    let longer = names_from (run ++ (c ∷ [])) p in if c == slash then add_name run ended else longer

abbrev pub names : List ℕ → List (List ℕ)
names p = names_from [] p

-- The inode that the names lead to, through directories only.
module _ (is_dir : ℕ → Bool) (lookup : ℕ → List ℕ → Option ℕ) where
  abbrev pub follow : ℕ → List (List ℕ) → Option ℕ
  follow ip [] = some ip
  follow ip (n ∷ ns) =
      if not (is_dir ip)
      then none
      else elim (lookup ip n) [ none ↦ none | some next ↦ follow next ns ]
