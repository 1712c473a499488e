-- ===== src/Learn/ScriptFair.antt =====
-- frontend/src/lib/scriptExercises.ts: the options, tiles and tracing that `buildScriptExercises` shows.
use mathlib.Core.List.{flat_map}
use jolyne.Base.{
  ℕ, suc, ◌+◌, ◌%◌, ◌≤◌, ◌≡◌, refl, Bool, true, false, ◌||◌, ◌&&◌, not, List, [], ◌∷◌, map, length,
  String, if_cases, Bool-cases, inl, inr, arith, All, All-append, keep, take, leb, ltb, ◌==◌,
  length-map, length-take,
}
use jolyne.Learn.Shuffle.{shuffle}
use jolyne.Learn.Counting.{count, count-append, count-shuffle, length-count}
use jolyne.Learn.Fair.{AreOptions, AreTokens, shuffle-AreOptions, shuffle-AreTokens}
use jolyne.Learn.Lesson.{PlayItem, Site, sampling, ordering, pairing}
use jolyne.Learn.Script.{
  ScriptExercise, recognize, recall, listen, compose, forms, trace, match_pairs, is_valid,
  is_single_glyph, sound_of, parts_of, forms_of, forms_at, options_for, forms_exercise,
  reading_exercise, script_exercise, script_exercises_from, script_match, build_script_exercises,
  trace_budget,
}

-- What each kind of exercise promises.
unfoldable pub IsFair : ScriptExercise → Type 0
IsFair (recognize glyph sound options meaning) = AreOptions sound options
IsFair (recall sound glyph options meaning) = AreOptions glyph options
IsFair (listen glyph sound options meaning) = AreOptions glyph options
IsFair (compose glyph sound parts tiles) = (2 ≤ length parts) × AreTokens parts tiles
IsFair (forms glyph sound position answer options) =
    (1 ≤ position) × (position ≤ 3) × AreOptions answer options
IsFair (trace glyph sound strokes) = is_single_glyph glyph ≡ true
IsFair (match_pairs pairs) = (3 ≤ length pairs) × (length pairs ≤ 4)

module _ (draw : Site → ℕ → ℕ) (can_listen : Bool) (valid : List PlayItem) where
  options_for-AreOptions :
      (i : ℕ) (answer : String) (pool : List String)
      → AreOptions answer (options_for draw can_listen valid i answer pool)
  unfolding options_for
  options_for-AreOptions i answer pool =
      shuffle-AreOptions (draw (ordering i)) (draw (sampling i)) answer pool

  reading_exercise-IsFair :
      (i : ℕ) (it : PlayItem) → IsFair (reading_exercise draw can_listen valid i it)
  unfolding reading_exercise IsFair
  reading_exercise-IsFair i it =
      if_cases IsFair (i % 3 == 0) _ _
        (λ _. options_for-AreOptions i (sound_of it) (map sound_of valid))
        (λ _.
          if_cases IsFair (i % 3 == 1 || not can_listen) _ _
            (λ _. options_for-AreOptions i it.target (map (λ v. v.target) valid))
            (λ _. options_for-AreOptions i it.target (map (λ v. v.target) valid)))

  script_exercise-IsFair :
      (i : ℕ) (it : PlayItem) → IsFair (script_exercise draw can_listen valid i it)
  unfolding script_exercise IsFair
  script_exercise-IsFair i it =
      if_cases IsFair (leb 2 (length (parts_of it))) _ _
        (λ enough. (
          ground (arith, enough),
          shuffle-AreTokens (draw (ordering i)) (draw (sampling i)) (parts_of it)
              (flat_map parts_of valid) "",
        ))
        (λ _.
          if_cases IsFair (length (forms_of it) == 4)
            (forms_exercise draw can_listen valid i it (forms_of it))
            (reading_exercise draw can_listen valid i it)
            (λ _.
              (omega arith, omega arith, options_for-AreOptions i _ (forms_at valid (1 + i % 3))))
            (λ _. reading_exercise-IsFair i it))

  script_exercises_from-IsFair :
      (i traced : ℕ) (its : List PlayItem)
      → All IsFair (script_exercises_from draw can_listen valid i traced its)
  unfolding script_exercises_from IsFair
  script_exercises_from-IsFair i traced [] = tt
  script_exercises_from-IsFair i traced (it ∷ its) = (
    script_exercise-IsFair i it,
    if_cases (All IsFair) (ltb traced (trace_budget valid) && is_single_glyph it.target) _ _
        (λ room. (ground (arith, room), script_exercises_from-IsFair (suc i) (suc traced) its))
        (λ _. script_exercises_from-IsFair (suc i) traced its),
  )

  script_match-IsFair : All IsFair (script_match draw can_listen valid)
  unfolding script_match IsFair
  script_match-IsFair =
      if_cases (All IsFair) (leb 3 (length valid)) _ _
        (λ enough. (
          ground (
            arith,
            enough,
            length-map {B = String × String} (λ it. (it.target, sound_of it))
                (take 4 (shuffle (draw pairing) valid)),
            length-take 4 (shuffle (draw pairing) valid),
            length-count (shuffle (draw pairing) valid),
            length-count valid,
            count-shuffle (λ x. true) (draw pairing) valid,
          ),
          tt,
        ))
        (λ _. tt)

abbrev pub is_trace : ScriptExercise → Bool
is_trace (trace glyph sound strokes) = true
is_trace _ = false

module _ (draw : Site → ℕ → ℕ) (can_listen : Bool) (valid : List PlayItem) where
  is_trace-script_exercise :
      (i : ℕ) (it : PlayItem) → is_trace (script_exercise draw can_listen valid i it) ≡ false
  unfolding script_exercise
  is_trace-script_exercise i it = ground arith

  count-script_exercises_from :
      (i traced : ℕ) (its : List PlayItem)
      → traced ≤ trace_budget valid
      → traced + count is_trace (script_exercises_from draw can_listen valid i traced its)
        ≤ trace_budget valid
  unfolding script_exercises_from
  count-script_exercises_from i traced [] h = omega arith
  count-script_exercises_from i traced (it ∷ its) h =
      let room = ltb traced (trace_budget valid) && is_single_glyph it.target in
      elim (Bool-cases room) [
        | inl e ↦
            rw (e, is_trace-script_exercise i it)
              (omega (arith, count-script_exercises_from (suc i) (suc traced) its (ground arith)))
        | inr e ↦
            rw (e, is_trace-script_exercise i it)
              (omega (arith, count-script_exercises_from (suc i) traced its h))
      ]

  count-script_match : count is_trace (script_match draw can_listen valid) ≡ 0
  unfolding script_match
  count-script_match =
      if_cases (λ es. count is_trace es ≡ 0) (leb 3 (length valid)) _ _ (λ _. refl) (λ _. refl)

-- A lesson on writing asks to trace twice at most.
pub count-build_script_exercises :
    (draw : Site → ℕ → ℕ) (can_listen : Bool) (items : List PlayItem)
    → count is_trace (build_script_exercises draw can_listen items) ≤ 2
unfolding build_script_exercises trace_budget
count-build_script_exercises draw can_listen items =
    let valid = keep is_valid items in
    omega (
      arith,
      count-append is_trace (script_exercises_from draw can_listen valid 0 0 valid)
          (script_match draw can_listen valid),
      count-script_match draw can_listen valid,
      count-script_exercises_from draw can_listen valid 0 0 valid (omega arith),
    )

-- Whatever is drawn, and whether or not the browser can speak, every exercise of a lesson on writing
-- is fair. The answer of a multiple choice is among its options exactly once, no option comes twice,
-- and there are four at most. The tiles of a syllable hold each of its two or more parts as often as
-- the syllable, and two others at most. The position of an Arabic form is 1, 2 or 3. Only a single
-- sign is traced. The last exercise has three or four pairs.
pub build_script_exercises-IsFair :
    (draw : Site → ℕ → ℕ) (can_listen : Bool) (items : List PlayItem)
    → All IsFair (build_script_exercises draw can_listen items)
unfolding build_script_exercises
build_script_exercises-IsFair draw can_listen items =
    let valid = keep is_valid items in
    All-append IsFair (script_exercises_from draw can_listen valid 0 0 valid) _
      (script_exercises_from-IsFair draw can_listen valid 0 0 valid)
      (script_match-IsFair draw can_listen valid)
