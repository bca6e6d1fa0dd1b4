-- ===== src/File/Handles.antt =====
-- The file table of kernel/file.c under any sequence of calls by holders of files.
use project.Base.{
  ℕ, zero, suc, ◌+◌, ◌-◌, ◌%◌, ◌^◌, ◌≤◌, ◌<◌, ◌≡◌, refl, sym, ◌∙◌, inl, inr, true, Option, none,
  some, List, [], ◌∷◌, ◌==◌, eq_of_==, if◌then◌else◌, arith, Bool-cases, Option-cases, ap,
}
use mathlib.Core.Path.{subst}
use project.Base.Lists.{length}
use project.Fs.Itable.{positive}
use project.Fs.{put}
use project.File.{fd_none, File, Ftable, nfile, set_file, first_free, filealloc, filedup, fileclose}

-- What the holders of files do: take a file, make it one of a type, take another reference to it,
-- give one up.
pub data Op : Type 0 where
  alloc : Op
  open_as : (i : ℕ) → File → Op
  dup : ℕ → Op
  close : ℕ → Op

-- The table, with how many references to each file the holders have.
pub record Held : Type 0 where
  pub table : Ftable
  pub owned : ℕ → ℕ

abbrev with_table : ℕ → (ℕ → ℕ) → Option Ftable → Option Held
with_table i owned none = none
with_table i owned (some t) = some (record { table = t; owned = owned })

-- The holder of a new file.
abbrev take : Held → Option ℕ × Ftable → Option Held
take h (none, t) = some (record h { table = t })
take h (some i, t) = some (record { table = t; owned = put h.owned i (h.owned i + 1) })

-- One operation; on a file that nobody holds, nothing is done.
abbrev pub perform : Op → Held → Option Held
perform alloc h = take h (filealloc h.table)
perform (open_as i f) h =
    if h.owned i == 0
    then some h
    else some (record h { table = set_file i (record f { ref = (h.table.file i).ref }) h.table })
perform (dup i) h =
    if h.owned i == 0
    then some h
    else with_table i (put h.owned i (h.owned i + 1)) (filedup i h.table)
perform (close i) h =
    if h.owned i == 0
    then some h
    else with_table i (put h.owned i (h.owned i - 1)) (fileclose i h.table)

abbrev pub perform_all : List Op → Held → Option Held
perform_all [] h = some h
perform_all (op ∷ ops) h = elim (perform op h) [ none ↦ none | some h' ↦ perform_all ops h' ]

-- The counts are those of the holders, and a file without references has no type.
pub record Counted (h : Held) : Type 0 where
  pub count : (i : ℕ) → (h.table.file i).ref ≡ h.owned i
  pub untyped : (i : ℕ) → h.owned i ≡ 0 → (h.table.file i).type ≡ fd_none

-- Nothing has panicked, the counts are right, and nobody holds more than `k` references more.
abbrev pub Fine : (k : ℕ) → Held → Option Held → Type 0
Fine k h none = ⊥
Fine k h (some h') = Counted h' × ((i : ℕ) → h'.owned i ≤ h.owned i + k)

-- File `i` with a new value.
Counted-put :
    (h : Held) (i n : ℕ) (f : File) (t : Ftable)
    → Counted h
    → t.file ≡ put h.table.file i f
    → f.ref ≡ n
    → (n ≡ 0 → f.type ≡ fd_none)
    → Counted (record { table = t; owned = put h.owned i n })
Counted-put h i n f t c e count untyped = record {
  count = λ j. elim (Bool-cases (j == i)) [
    | inl here ↦ rw (e, here) count
    | inr away ↦ rw (e, away) (c.count j)
  ];
  untyped = λ j z. elim (Bool-cases (j == i)) [
    | inl here ↦ rw (e, here) (untyped (rw here at z))
    | inr away ↦ rw (e, away) (c.untyped j (rw away at z))
  ];
}

first_free_lem :
    (k left : ℕ) (file : ℕ → File) (i : ℕ) → first_free k left file ≡ some i → (file i).ref ≡ 0
first_free_lem k zero file i e = absurd (ground arith)
first_free_lem k (suc left) file i e = elim (Bool-cases ((file k).ref == 0)) [
  | inl h ↦
      let at : some k ≡ some i = rw h at e in
      let same : k ≡ i = ap (λ o. elim o [ none ↦ k | some x ↦ x ]) at in
      ap (λ x. (file x).ref) (sym same) ∙ eq_of_== (file k).ref 0 h
  | inr h ↦ first_free_lem (k + 1) left file i (rw h at e)
]

-- At most one reference more of one file.
one_more : (owned : ℕ → ℕ) (i n : ℕ) → n ≤ owned i + 1 → (j : ℕ) → put owned i n j ≤ owned j + 1
one_more owned i n le j = elim (Bool-cases (j == i)) [
  | inl here ↦ let same = ap owned (eq_of_== j i here) in rw here (omega arith)
  | inr away ↦ rw away (omega arith)
]

alloc-Fine : (h : Held) → Counted h → Fine 1 h (perform alloc h)
unfolding filealloc
alloc-Fine h c = elim (Option-cases (first_free 0 nfile h.table.file)) [
  | inl e ↦
      let run : filealloc h.table ≡ (none, h.table) = rw (e, filealloc) refl in
      subst (λ r. Fine 1 h (take h r)) (sym run) (c, λ j. omega arith)
  | inr (i, e) ↦
      let free = first_free_lem 0 nfile h.table.file i e in
      let unheld : h.owned i ≡ 0 = sym (c.count i) ∙ free in
      let t : Ftable = set_file i (record (h.table.file i) { ref = 1 }) h.table in
      let run : filealloc h.table ≡ (some i, t) = rw (e, filealloc) refl in
      subst (λ r. Fine 1 h (take h r)) (sym run)
        (
          Counted-put h i (h.owned i + 1) (record (h.table.file i) { ref = 1 }) t c refl
              (omega (arith, unheld)) (λ z. absurd (omega (arith, z))),
          one_more h.owned i (h.owned i + 1) (omega arith),
        )
]

perform-Fine :
    (op : Op) (h : Held) → Counted h → ((i : ℕ) → h.owned i + 1 < 2 ^ 31) → Fine 1 h (perform op h)
unfolding filedup fileclose
perform-Fine alloc h c few = alloc-Fine h c
perform-Fine (open_as i f) h c few = elim (Bool-cases (h.owned i == 0)) [
  | inl none_held ↦ rw none_held (c, λ j. omega arith)
  | inr held ↦ rw held (
    record {
      count = λ j. elim (Bool-cases (j == i)) [
        | inl here ↦ rw here (ap (λ x. (h.table.file x).ref) (sym (eq_of_== j i here)) ∙ c.count j)
        | inr away ↦ rw away (c.count j)
      ];
      untyped = λ j z. elim (Bool-cases (j == i)) [
        | inl here ↦
            let same : h.owned i ≡ 0 = ap h.owned (sym (eq_of_== j i here)) ∙ z in
            absurd (ground arith)
        | inr away ↦ rw away (c.untyped j z)
      ];
    },
    λ j. omega arith,
  )
]
perform-Fine (dup i) h c few = elim (Bool-cases (h.owned i == 0)) [
  | inl none_held ↦ rw none_held (c, λ j. omega arith)
  | inr held ↦
      let n = c.count i in
      let lt = few i in
      let live : positive (h.table.file i).ref ≡ true = ground arith in
      let ref : ℕ = ((h.table.file i).ref + 1) % 2 ^ 32 in
      rw (held, live)
        (
          Counted-put h i (h.owned i + 1) (record (h.table.file i) { ref = ref }) _ c refl
              (omega arith) (λ z. absurd (omega (arith, z))),
          one_more h.owned i (h.owned i + 1) (omega arith),
        )
]
perform-Fine (close i) h c few = elim (Bool-cases (h.owned i == 0)) [
  | inl none_held ↦ rw none_held (c, λ j. omega arith)
  | inr held ↦
      let n = c.count i in
      let lt = few i in
      let live : positive (h.table.file i).ref ≡ true = ground arith in
      let ref : ℕ = ((h.table.file i).ref + (2 ^ 32 - 1)) % 2 ^ 32 in
      let down : ref ≡ h.owned i - 1 = ground arith in
      elim (Bool-cases (positive ref)) [
        | inl more ↦
            rw (held, live, more)
              (
                Counted-put h i (h.owned i - 1) (record (h.table.file i) { ref = ref }) _ c refl
                    down (λ z. absurd (ground arith)),
                one_more h.owned i (h.owned i - 1) (omega arith),
              )
        | inr last ↦
            rw (held, live, last)
              (
                Counted-put h i (h.owned i - 1)
                    (record (h.table.file i) { ref = 0; type = fd_none }) _ c refl (ground arith)
                    (λ z. refl),
                one_more h.owned i (h.owned i - 1) (omega arith),
              )
      ]
]

after-Fine :
    (ops : List Op) (k : ℕ) (h : Held) (o : Option Held)
    → ((h' : Held)
        → Counted h'
        → ((i : ℕ) → h'.owned i ≤ h.owned i + 1)
        → Fine k h' (perform_all ops h'))
    → Fine 1 h o
    → Fine (suc k) h (elim o [ none ↦ none | some h' ↦ perform_all ops h' ])
after-Fine ops k h none rest f = f
after-Fine ops k h (some h') rest (c, more) = weaken (perform_all ops h') (rest h' c more)
  where
    weaken : (o : Option Held) → Fine k h' o → Fine (suc k) h o
    weaken none f = f
    weaken (some g) (d, le) = (d, λ i. omega (arith, le i, more i))

-- Any sequence of filealloc, filedup and fileclose, in which only holders of a file name it and set
-- its fields, from a table whose counts are those of the holders, where the counts and the length
-- of the sequence together stay below 2 ^ 31: nothing panics; the count of each file is again the
-- number of references that its holders have, so that no file that is held is handed out again; and
-- a file that nobody holds has type FD_NONE.
pub perform_all-Fine :
    (ops : List Op) (h : Held)
    → Counted h
    → ((i : ℕ) → h.owned i + length ops < 2 ^ 31)
    → Fine (length ops) h (perform_all ops h)
perform_all-Fine [] h c few = (c, λ j. omega arith)
perform_all-Fine (op ∷ ops) h c few =
    after-Fine ops (length ops) h (perform op h)
      (λ h' c' more. perform_all-Fine ops h' c' (λ i. omega (arith, more i, few i)))
      (perform-Fine op h c (λ i. omega (arith, few i)))
