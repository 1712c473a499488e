-- ===== src/Learn/Script.antt =====
-- frontend/src/lib/scriptExercises.ts: `buildScriptExercises`, the exercises of a lesson on writing.
use Prim.Native.String.{[], ◌∷◌}
use jolyne.Base.{
  ℕ, suc, ◌+◌, ◌%◌, min, Bool, false, not, ◌&&◌, ◌||◌, List, [], ◌∷◌, ◌++◌, map, Option, none, some,
  length, take, keep, get_elem?, get_or, leb, ltb, ◌==◌, String, str_eq, if◌then◌else◌,
}
use jolyne.Base.Text.{is_empty}
use mathlib.Core.List.{flat_map}
use jolyne.Learn.Shuffle.{shuffle, sample_distinct, includes}
use jolyne.Learn.Lesson.{PlayItem, Site, sampling, ordering, pairing}

pub data ScriptExercise : Type 0 where
  recognize :
      (glyph sound : String) (options : List String) (meaning : Option String) → ScriptExercise
  recall : (sound glyph : String) (options : List String) (meaning : Option String) → ScriptExercise
  listen : (glyph sound : String) (options : List String) (meaning : Option String) → ScriptExercise
  compose : (glyph sound : String) (parts tiles : List String) → ScriptExercise
  forms :
      (glyph sound : String) (position : ℕ) (answer : String) (options : List String)
      → ScriptExercise
  trace : (glyph sound : String) (strokes : Option (List String)) → ScriptExercise
  match_pairs : List (String × String) → ScriptExercise

-- `[...s].length === 1`
unfoldable pub is_single_glyph : String → Bool
is_single_glyph [] = false
is_single_glyph (c ∷ s) = is_empty s

-- `it.sound ?? it.meaning`
abbrev pub sound_of : PlayItem → String
sound_of it = elim it.sound [ none ↦ it.meaning | some s ↦ s ]

abbrev pub is_valid : PlayItem → Bool
is_valid it = not (is_empty it.target) && not (is_empty (sound_of it))

abbrev pub parts_of : PlayItem → List String
parts_of it = elim it.parts [ none ↦ [] | some ps ↦ ps ]

abbrev pub has_parts : PlayItem → Bool
has_parts it = leb 2 (length (parts_of it))

abbrev pub forms_of : PlayItem → List String
forms_of it = elim it.forms [ none ↦ [] | some fs ↦ fs ]

unfoldable pub form_at : ℕ → PlayItem → List String
form_at pos it = elim it.forms [
  | none ↦ []
  | some fs ↦ elim (get_elem? fs pos) [ none ↦ [] | some f ↦ if is_empty f then [] else f ∷ [] ]
]

unfoldable pub forms_at : List PlayItem → ℕ → List String
unfolding form_at
forms_at valid pos = flat_map (form_at pos) valid

unfoldable pub trace_budget : List PlayItem → ℕ
unfolding is_single_glyph
trace_budget valid = min 2 (length (keep (λ it. is_single_glyph it.target) valid))

-- `can_listen` is the answer of `speechSupported()`.
module _ (draw : Site → ℕ → ℕ) (can_listen : Bool) (valid : List PlayItem) where
  unfoldable pub options_for : ℕ → String → List String → List String
  unfolding shuffle sample_distinct
  options_for i answer pool =
      shuffle (draw (ordering i)) (answer ∷ sample_distinct (draw (sampling i)) pool answer 3)

  unfoldable pub compose_exercise : ℕ → PlayItem → List String → ScriptExercise
  unfolding shuffle sample_distinct
  compose_exercise i it parts =
      let sampled = sample_distinct (draw (sampling i)) (flat_map parts_of valid) "" 2 in
      let distractors = keep (λ p. not (includes p parts)) sampled in
      compose it.target (sound_of it) parts (shuffle (draw (ordering i)) (parts ++ distractors))

  unfoldable pub forms_exercise : ℕ → PlayItem → List String → ScriptExercise
  unfolding options_for forms_at
  forms_exercise i it fs =
      let position = 1 + i % 3 in
      let answer = get_or fs position "" in
      forms it.target (sound_of it) position answer (options_for i answer (forms_at valid position))

  unfoldable pub reading_exercise : ℕ → PlayItem → ScriptExercise
  unfolding options_for
  reading_exercise i it =
      let s = sound_of it in
      let shown =
        if not (is_empty it.meaning) && not (str_eq it.meaning s) then some it.meaning else none in
      if i % 3 == 0
      then recognize it.target s (options_for i s (map sound_of valid)) shown
      else if i % 3 == 1 || not can_listen
      then recall s it.target (options_for i it.target (map (λ v. v.target) valid)) shown
      else listen it.target s (options_for i it.target (map (λ v. v.target) valid)) shown

  unfoldable pub script_exercise : ℕ → PlayItem → ScriptExercise
  unfolding compose_exercise forms_exercise reading_exercise
  script_exercise i it =
      if has_parts it
      then compose_exercise i it (parts_of it)
      else if length (forms_of it) == 4
      then forms_exercise i it (forms_of it)
      else reading_exercise i it

  -- The loop over the items; `traced` counts the tracing exercises so far.
  unfoldable pub script_exercises_from : ℕ → ℕ → List PlayItem → List ScriptExercise
  unfolding script_exercise trace_budget is_single_glyph
  script_exercises_from i traced [] = []
  script_exercises_from i traced (it ∷ its) =
      let tracing = script_exercises_from (suc i) (suc traced) its in
      let going_on = script_exercises_from (suc i) traced its in
      script_exercise i it
      ∷ (if ltb traced (trace_budget valid) && is_single_glyph it.target
          then trace it.target (sound_of it) it.strokes ∷ tracing
          else going_on)

  unfoldable pub script_match : List ScriptExercise
  unfolding shuffle
  script_match =
      if leb 3 (length valid)
      then match_pairs
          (map (λ it. (it.target, sound_of it)) (take 4 (shuffle (draw pairing) valid)))
        ∷ []
      else []

unfoldable pub build_script_exercises : (Site → ℕ → ℕ) → Bool → List PlayItem → List ScriptExercise
unfolding script_exercises_from script_match
build_script_exercises draw can_listen items =
    let valid = keep is_valid items in
    script_exercises_from draw can_listen valid 0 0 valid ++ script_match draw can_listen valid
