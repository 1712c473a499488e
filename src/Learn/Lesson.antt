-- ===== src/Learn/Lesson.antt =====
-- frontend/src/lib/learnExercises.ts: `buildExercises`, and `PlayItem` of frontend/src/lib/learn.ts.
use jolyne.Base.{
  ℕ, suc, ◌%◌, Bool, not, ◌&&◌, List, [], ◌∷◌, ◌++◌, map, Option, length, take, keep, leb, ltb,
  ◌==◌, String, if◌then◌else◌,
}
use jolyne.Base.Text.{is_empty}
use mathlib.Core.List.{flat_map}
use jolyne.Learn.Shuffle.{shuffle, sample_distinct, includes, words}

pub record PlayItem : Type 0 where
  pub target : String
  pub meaning : String
  pub sound : Option String
  pub forms : Option (List String)
  pub parts : Option (List String)
  pub strokes : Option (List String)
  pub example : Option String
  pub example_sound : Option String
  pub example_meaning : Option String

pub data Direction : Type 0 where
  to_meaning to_target : Direction

pub data Exercise : Type 0 where
  choose :
      Direction → (question answer : String) (options : List String) (target : String) → Exercise
  assemble : (meaning target : String) (tokens : List String) → Exercise
  match_pairs : List (String × String) → Exercise

-- The places where the builder draws: for the item i, the sample and the order of the options; and
-- the order of the last exercise.
pub data Site : Type 0 where
  sampling ordering : ℕ → Site
  pairing : Site

abbrev pub is_valid : PlayItem → Bool
is_valid it = not (is_empty it.target) && not (is_empty it.meaning)

module _ (draw : Site → ℕ → ℕ) where
  unfoldable pub assemble_exercise : List PlayItem → ℕ → PlayItem → Exercise
  unfolding shuffle sample_distinct words
  assemble_exercise valid i it =
      let correct = words it.target in
      let sampled =
        sample_distinct (draw (sampling i)) (flat_map (λ v. words v.target) valid) it.target 2 in
      let distractor_words = keep (λ w. not (includes w correct)) sampled in
      assemble it.meaning it.target (shuffle (draw (ordering i)) (correct ++ distractor_words))

  unfoldable pub choose_exercise : List PlayItem → ℕ → PlayItem → Exercise
  unfolding shuffle sample_distinct
  choose_exercise valid i it =
      if i % 2 == 0
      then choose to_meaning it.target it.meaning
          (shuffle (draw (ordering i)) (
            it.meaning
            ∷ sample_distinct (draw (sampling i)) (map (λ v. v.meaning) valid) it.meaning 3))
          it.target
      else choose to_target it.meaning it.target
          (shuffle (draw (ordering i)) (
            it.target
            ∷ sample_distinct (draw (sampling i)) (map (λ v. v.target) valid) it.target 3))
          it.target

  unfoldable pub exercise : List PlayItem → ℕ → PlayItem → Exercise
  unfolding assemble_exercise choose_exercise words
  exercise valid i it =
      if ltb 1 (length (words it.target)) && i % 2 == 1
      then assemble_exercise valid i it
      else choose_exercise valid i it

  -- The loop over the items, which the second argument numbers.
  unfoldable pub exercises_from : List PlayItem → ℕ → List PlayItem → List Exercise
  unfolding exercise
  exercises_from valid i [] = []
  exercises_from valid i (it ∷ its) = exercise valid i it ∷ exercises_from valid (suc i) its

  unfoldable pub match_exercise : List PlayItem → List Exercise
  unfolding shuffle
  match_exercise valid =
      if leb 3 (length valid)
      then match_pairs (map (λ it. (it.target, it.meaning)) (take 5 (shuffle (draw pairing) valid)))
        ∷ []
      else []

  unfoldable pub build_exercises : List PlayItem → List Exercise
  unfolding exercises_from match_exercise
  build_exercises items =
      let valid = keep is_valid items in exercises_from valid 0 valid ++ match_exercise valid
