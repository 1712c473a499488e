-- ===== src/Learn/Fair.antt =====
-- frontend/src/lib/learnExercises.ts: the options, tokens and pairs that `buildExercises` shows.
use jolyne.Base.{
  ℕ, suc, ◌+◌, ◌%◌, ◌≤◌, ◌≡◌, refl, ◌∙◌, inl, inr, Bool, true, not, ◌&&◌, List, [], ◌∷◌, ◌++◌, map,
  length, length-map, length-take, if_cases, String, str_eq, arith, Bool-cases, eq_iff, All,
  All-append, keep, take, leb, ltb, ◌==◌,
}
use mathlib.Core.Path.{subst}
use text.Mathlib.TextPositions.{eq_refl}
use mathlib.Core.List.{flat_map}
use jolyne.Learn.Shuffle.{shuffle, sample_distinct, includes, words}
use jolyne.Learn.Counting.{
  count, count-append, count-shuffle, length-count, count-keep, sample_distinct_lem,
}
use jolyne.Learn.Lesson.{
  PlayItem, Exercise, choose, assemble, match_pairs, Site, sampling, ordering, pairing, exercise,
  exercises_from, match_exercise, build_exercises, is_valid,
}

-- The answer is among the options once, no option comes twice, and there are four at most.
abbrev pub AreOptions : String → List String → Type 0
AreOptions answer options =
    (count (str_eq answer) options ≡ 1)
    × ((w : String) → count (str_eq w) options ≤ 1)
    × (length options ≤ 4)

pub shuffle-AreOptions :
    (draw draw' : ℕ → ℕ) (answer : String) (pool : List String)
    → AreOptions answer (shuffle draw (answer ∷ sample_distinct draw' pool answer 3))
shuffle-AreOptions draw draw' answer pool =
    let all = answer ∷ sample_distinct draw' pool answer 3 in
    let (once, never, part, short) = sample_distinct_lem draw' pool answer 3 in
    (
      ground (arith, never, eq_refl answer, count-shuffle (str_eq answer) draw all),
      (λ w. ground (arith, never, once w, eq_iff w answer, count-shuffle (str_eq w) draw all)),
      ground (
        arith,
        short,
        length-count (shuffle draw all),
        length-count all,
        count-shuffle (λ x. true) draw all,
      ),
    )

-- The tokens hold each part of the answer as often as the answer does, no part is lost, and two
-- others are among them at most.
abbrev pub AreTokens : List String → List String → Type 0
AreTokens correct tokens =
    ((w : String) → count (str_eq w) correct ≤ count (str_eq w) tokens)
    × All (λ w. count (str_eq w) tokens ≡ count (str_eq w) correct) correct
    × (length tokens ≤ length correct + 2)

count-keep_absent :
    (w : String) (correct xs : List String)
    → includes w correct ≡ true
    → count (str_eq w) (keep (λ x. not (includes x correct)) xs) ≡ 0
count-keep_absent w correct [] h = refl
count-keep_absent w correct (x ∷ xs) h = elim (Bool-cases (str_eq w x)) [
  | inl e ↦
      (let same = (eq_iff w x).0 e in
        ground (
          arith,
          e,
          subst (λ y. includes y correct ≡ true) same h,
          count-keep_absent w correct xs h,
        ))
  | inr e ↦ ground (arith, count-keep_absent w correct xs h)
]

-- What holds of every text that the list includes holds of each of its elements.
All-includes :
    (P : String → Type 0) (ws : List String)
    → ((w : String) → includes w ws ≡ true → P w)
    → All P ws
All-includes P [] f = tt
All-includes P (w ∷ ws) f =
    (f w (rw (eq_refl w) refl), All-includes P ws (λ v h. f v (ground (arith, h))))

pub shuffle-AreTokens :
    (draw draw' : ℕ → ℕ) (correct pool : List String) (exclude : String)
    → AreTokens correct (
        shuffle draw
          (correct ++ keep (λ w. not (includes w correct)) (sample_distinct draw' pool exclude 2)))
shuffle-AreTokens draw draw' correct pool exclude =
    let sampled = sample_distinct draw' pool exclude 2 in
    let others = keep (λ w. not (includes w correct)) sampled in
    let counted = λ (p : String → Bool).
      count-shuffle p draw (correct ++ others) ∙ count-append p correct others in
    let (once, never, part, short) = sample_distinct_lem draw' pool exclude 2 in
    (
      (λ w. omega (arith, counted (str_eq w))),
      All-includes _ correct
          (λ w h. omega (arith, counted (str_eq w), count-keep_absent w correct sampled h)),
      omega (
        arith,
        short,
        counted (λ x. true),
        count-keep (λ x. true) (λ w. not (includes w correct)) sampled,
        length-count sampled,
        length-count correct,
        length-count (shuffle draw (correct ++ others)),
      ),
    )

-- What each kind of exercise promises.
unfoldable pub IsFair : Exercise → Type 0
IsFair (choose d question answer options target) =
    AreOptions answer options × includes target (answer ∷ question ∷ []) ≡ true
IsFair (assemble meaning target tokens) = AreTokens (words target) tokens
IsFair (match_pairs pairs) = (3 ≤ length pairs) × (length pairs ≤ 5)

module _ (draw : Site → ℕ → ℕ) (valid : List PlayItem) where
  exercise-IsFair : (i : ℕ) (it : PlayItem) → IsFair (exercise draw valid i it)
  unfolding exercise IsFair
  exercise-IsFair i it =
      if_cases IsFair (ltb 1 (length (words it.target)) && i % 2 == 1) _ _
        (λ _.
          shuffle-AreTokens (draw (ordering i)) (draw (sampling i)) (words it.target)
            (flat_map (λ v. words v.target) valid) it.target)
        (λ _.
          if_cases IsFair (i % 2 == 0) _ _
            (λ _. (
              shuffle-AreOptions (draw (ordering i)) (draw (sampling i)) it.meaning
                  (map (λ v. v.meaning) valid),
              ground (arith, eq_refl it.target),
            ))
            (λ _. (
              shuffle-AreOptions (draw (ordering i)) (draw (sampling i)) it.target
                  (map (λ v. v.target) valid),
              ground (arith, eq_refl it.target),
            )))

  exercises_from-IsFair :
      (i : ℕ) (its : List PlayItem) → All IsFair (exercises_from draw valid i its)
  unfolding exercises_from
  exercises_from-IsFair i [] = tt
  exercises_from-IsFair i (it ∷ its) = (exercise-IsFair i it, exercises_from-IsFair (suc i) its)

  match_exercise-IsFair : All IsFair (match_exercise draw valid)
  unfolding match_exercise IsFair
  match_exercise-IsFair =
      if_cases (All IsFair) (leb 3 (length valid)) _ _
        (λ enough. (
          ground (
            arith,
            enough,
            length-map {B = String × String} (λ it. (it.target, it.meaning))
                (take 5 (shuffle (draw pairing) valid)),
            length-take 5 (shuffle (draw pairing) valid),
            length-count (shuffle (draw pairing) valid),
            length-count valid,
            count-shuffle (λ x. true) (draw pairing) valid,
          ),
          tt,
        ))
        (λ _. tt)

-- Whatever is drawn, every exercise of a lesson is fair. The answer of a multiple choice is among its
-- options exactly once, no option comes twice, and there are four at most; the item that it is about
-- is its answer or its question. The tokens of a phrase hold each of its words exactly as often as the
-- phrase, and two others at most. The last exercise has three to five pairs.
pub build_exercises-IsFair :
    (draw : Site → ℕ → ℕ) (items : List PlayItem) → All IsFair (build_exercises draw items)
unfolding build_exercises
build_exercises-IsFair draw items =
    let valid = keep is_valid items in
    All-append IsFair (exercises_from draw valid 0 valid) _
      (exercises_from-IsFair draw valid 0 valid) (match_exercise-IsFair draw valid)
