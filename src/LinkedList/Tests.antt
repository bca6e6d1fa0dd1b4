-- ===== src/LinkedList/Tests.antt =====
-- Runs of the list functions on a concrete list, and the theorems at it.
use project.Base.{ltb, ℕ, ◌≡◌, refl, false, [], ◌∷◌, arith, ◌==◌, ◌^◌, ◌%◌, if◌then◌else◌}
use project.Base.Lists.{has}
use project.LinkedList.{
  list_init, list_push_back, list_push_front, list_insert, list_remove, list_size, list_empty,
  list_pop_front, list_pop_back,
}
use project.LinkedList.Memory.{Heap, Cmd, ok, Returns, ◌>>◌}
use project.LinkedList.Seg.{IsList, SameOutside, nodes}
use project.LinkedList.Init.{list_init-Returns}
use project.LinkedList.Insert.{list_insert_lem}
use project.LinkedList.Access.{list_empty_lem, list_push_front_lem, list_push_back_lem}
use project.LinkedList.Remove.{list_remove_lem, list_pop_front_lem, list_pop_back_lem}
use project.LinkedList.Extreme.{Ordered}
use project.LinkedList.Splice.{list_insert_ordered}
use project.LinkedList.Ordered.{list_insert_ordered_lem}
use project.LinkedList.Size.{list_size_lem}

-- A list at 1000 with the elements 10, 20 and 30.
abbrev three : Heap
three = record {
  prev = λ p.
      if p == 10
      then 1000
      else if p == 20
      then 10
      else if p == 30
      then 20
      else if p == 1016
      then 30
      else 0;
  next = λ p.
      if p == 1000
      then 10
      else if p == 10
      then 20
      else if p == 20
      then 30
      else if p == 30
      then 1016
      else 0;
}

three-IsList : IsList three 1000 (10 ∷ 20 ∷ 30 ∷ [])
three-IsList = record {
  linked = omega arith;
  front_end = refl;
  back_end = refl;
  distinct = (refl, (refl, (refl, (refl, (refl, tt)))));
  not_null = refl;
}

-- Appending two elements, putting one in front, removing the first of the two, and counting.
script : Cmd ℕ
script = do
  list_init 1000
  list_push_back 1000 10
  list_push_back 1000 20
  list_push_front 1000 30
  list_remove 10
  list_size 10 1000

list_init-Returns_example :
    Returns (λ _ g. IsList g 1000 [] × SameOutside (nodes 1000 []) three g) (list_init 1000 three)
list_init-Returns_example = list_init-Returns three 1000 refl

list_insert_lem_example :
    Returns
      (λ _ g.
        IsList g 1000 (10 ∷ 5 ∷ 20 ∷ 30 ∷ [])
        × SameOutside (5 ∷ nodes 1000 (10 ∷ 20 ∷ 30 ∷ [])) three g)
      (list_insert 20 5 three)
list_insert_lem_example =
    list_insert_lem three 1000 5 (10 ∷ []) (20 ∷ 30 ∷ []) three-IsList refl refl

list_push_front_lem_example :
    Returns
      (λ _ g.
        IsList g 1000 (5 ∷ 10 ∷ 20 ∷ 30 ∷ [])
        × SameOutside (5 ∷ nodes 1000 (10 ∷ 20 ∷ 30 ∷ [])) three g)
      (list_push_front 1000 5 three)
list_push_front_lem_example = list_push_front_lem 5 (10 ∷ 20 ∷ 30 ∷ []) three-IsList refl refl

list_push_back_lem_example :
    Returns
      (λ _ g.
        IsList g 1000 (10 ∷ 20 ∷ 30 ∷ 5 ∷ [])
        × SameOutside (5 ∷ nodes 1000 (10 ∷ 20 ∷ 30 ∷ [])) three g)
      (list_push_back 1000 5 three)
list_push_back_lem_example = list_push_back_lem 5 (10 ∷ 20 ∷ 30 ∷ []) three-IsList refl refl

list_remove_lem_example :
    Returns
      (λ r g.
        (r ≡ 30)
        × IsList g 1000 (10 ∷ 30 ∷ [])
        × (has 20 (nodes 1000 (10 ∷ 30 ∷ [])) ≡ false)
        × SameOutside (nodes 1000 (10 ∷ 20 ∷ 30 ∷ [])) three g)
      (list_remove 20 three)
list_remove_lem_example = list_remove_lem three 1000 20 (10 ∷ []) (30 ∷ []) three-IsList

list_pop_front_lem_example :
    Returns
      (λ r g.
        (r ≡ 10)
        × IsList g 1000 (20 ∷ 30 ∷ [])
        × SameOutside (nodes 1000 (10 ∷ 20 ∷ 30 ∷ [])) three g)
      (list_pop_front 1000 three)
list_pop_front_lem_example = list_pop_front_lem three 1000 10 (20 ∷ 30 ∷ []) three-IsList

list_pop_back_lem_example :
    Returns
      (λ r g.
        (r ≡ 30)
        × IsList g 1000 (10 ∷ 20 ∷ [])
        × SameOutside (nodes 1000 (10 ∷ 20 ∷ 30 ∷ [])) three g)
      (list_pop_back 1000 three)
list_pop_back_lem_example = list_pop_back_lem three 1000 30 (10 ∷ 20 ∷ []) three-IsList

list_size_lem_example : list_size 4 1000 three ≡ ok (3 % 2 ^ 64) three
list_size_lem_example = list_size_lem 4 (10 ∷ 20 ∷ 30 ∷ []) three-IsList (omega arith)

list_empty_lem_example : list_empty 1000 three ≡ ok false three
list_empty_lem_example = list_empty_lem (10 ∷ 20 ∷ 30 ∷ []) three-IsList

-- Elements that are compared by their addresses.
ltb-Ordered : Ordered ltb
ltb-Ordered = record { asymmetric = λ a b h. ground arith; compose = λ a b c h i. ground arith }

list_insert_ordered_lem_example :
    Returns
      (λ _ g.
        IsList g 1000 (10 ∷ 20 ∷ 25 ∷ 30 ∷ [])
        × SameOutside (25 ∷ nodes 1000 (10 ∷ 20 ∷ 30 ∷ [])) three g)
      (list_insert_ordered ltb 4 1000 25 three)
list_insert_ordered_lem_example =
    list_insert_ordered_lem three 1000 25 ltb refl 4 (10 ∷ 20 ∷ 30 ∷ []) refl three-IsList refl
      (omega arith)
