-- ===== src/Learn/Order.antt =====
-- Which items of a lesson the exercises of `build_exercises` ask for.
use mathlib.Core.List.{flat_map, append-nil}
use jolyne.Base.{
  ℕ, suc, ◌≡◌, refl, ap, ◌∙◌, List, [], ◌∷◌, map, String, keep, leb, length, flat_map-append,
  if_cases, arith, Bool, ◌≤◌, ◌+◌, ◌++◌, take, if◌then◌else◌,
}
use jolyne.Learn.Counting.{count, count-map, count-take, count-shuffle}
use jolyne.Learn.Shuffle.{shuffle}
use jolyne.Learn.Lesson.{
  PlayItem, Exercise, choose, assemble, match_pairs, Site, pairing, exercise, exercises_from,
  match_exercise, build_exercises, is_valid,
}

-- The items that an exercise asks for by itself.
abbrev pub asked_alone : Exercise → List String
asked_alone (choose d question answer options target) = target ∷ []
asked_alone (assemble meaning target tokens) = target ∷ []
asked_alone (match_pairs pairs) = []

-- The items that are asked for with others, in a pairing.
abbrev pub asked_in_pairs : Exercise → List String
asked_in_pairs (choose d question answer options target) = []
asked_in_pairs (assemble meaning target tokens) = []
asked_in_pairs (match_pairs pairs) = map (λ p. p.0) pairs

module _ (draw : Site → ℕ → ℕ) (valid : List PlayItem) where
  exercise-asked_alone :
      (i : ℕ) (it : PlayItem) → asked_alone (exercise draw valid i it) ≡ it.target ∷ []
  unfolding exercise
  exercise-asked_alone i it = ground arith

  exercises_from-asked_alone :
      (i : ℕ) (its : List PlayItem)
      → flat_map asked_alone (exercises_from draw valid i its) ≡ map (λ it. it.target) its
  unfolding exercises_from flat_map
  exercises_from-asked_alone i [] = refl
  exercises_from-asked_alone i (it ∷ its) =
      rw (exercise-asked_alone i it)
        (ap (λ ts. it.target ∷ ts) (exercises_from-asked_alone (suc i) its))

  match_exercise-asked_alone : flat_map asked_alone (match_exercise draw valid) ≡ []
  unfolding match_exercise flat_map
  match_exercise-asked_alone =
      if_cases (λ es. flat_map asked_alone es ≡ []) (leb 3 (length valid)) _ _ (λ _. refl)
        (λ _. refl)

-- The exercises of a lesson other than the pairing ask for each of its items that have a text and a
-- meaning exactly once, in the order of the lesson.
pub build_exercises-asked_alone :
    (draw : Site → ℕ → ℕ) (items : List PlayItem)
    → flat_map asked_alone (build_exercises draw items)
      ≡ map (λ it. it.target) (keep is_valid items)
unfolding build_exercises
build_exercises-asked_alone draw items =
    let valid = keep is_valid items in
    flat_map-append asked_alone (exercises_from draw valid 0 valid) (match_exercise draw valid)
    ∙ (rw (match_exercise-asked_alone draw valid) (append-nil _)
        ∙ exercises_from-asked_alone draw valid 0 valid)

module _ (draw : Site → ℕ → ℕ) (valid : List PlayItem) where
  exercise-asked_in_pairs : (i : ℕ) (it : PlayItem) → asked_in_pairs (exercise draw valid i it) ≡ []
  unfolding exercise
  exercise-asked_in_pairs i it = ground arith

  exercises_from-asked_in_pairs :
      (i : ℕ) (its : List PlayItem) → flat_map asked_in_pairs (exercises_from draw valid i its) ≡ []
  unfolding exercises_from flat_map
  exercises_from-asked_in_pairs i [] = refl
  exercises_from-asked_in_pairs i (it ∷ its) =
      rw (exercise-asked_in_pairs i it) (exercises_from-asked_in_pairs (suc i) its)

  count-pairs :
      (p : String → Bool) (its : List PlayItem)
      → count p (asked_in_pairs (match_pairs (map (λ it. (it.target, it.meaning)) its)) ++ [])
        ≡ count (λ it. p it.target) its
  count-pairs p [] = refl
  count-pairs p (it ∷ its) = ap (λ n. (if p it.target then 1 else 0) + n) (count-pairs p its)

  count-match_exercise :
      (p : String → Bool)
      → count p (flat_map asked_in_pairs (match_exercise draw valid))
        ≤ count p (map (λ it. it.target) valid)
  unfolding match_exercise flat_map
  count-match_exercise p =
      let drawn = shuffle (draw pairing) valid in
      if_cases (λ es. count p (flat_map asked_in_pairs es) ≤ count p (map (λ it. it.target) valid))
        (leb 3 (length valid)) _ _
        (λ _. omega (
          arith,
          count-pairs p (take 5 drawn),
          count-take (λ it. p it.target) 5 drawn,
          count-shuffle (λ it. p it.target) (draw pairing) valid,
          count-map p (λ it. it.target) valid,
        ))
        (λ _. omega arith)

-- The pairing of a lesson asks for a text at most as often as the items that have a text and a meaning
-- give it.
pub count-asked_in_pairs :
    (draw : Site → ℕ → ℕ) (p : String → Bool) (items : List PlayItem)
    → count p (flat_map asked_in_pairs (build_exercises draw items))
      ≤ count p (map (λ it. it.target) (keep is_valid items))
unfolding build_exercises
count-asked_in_pairs draw p items =
    let valid = keep is_valid items in
    rw
      (
        flat_map-append asked_in_pairs (exercises_from draw valid 0 valid)
            (match_exercise draw valid),
        exercises_from-asked_in_pairs draw valid 0 valid,
      )
      (count-match_exercise draw valid p)
