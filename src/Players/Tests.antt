-- ===== src/Players/Tests.antt =====
-- The players on concrete lessons.
use mathlib.Core.List.{flat_map}
use jolyne.Base.{ℕ, ◌≡◌, refl, true, false, List, [], ◌∷◌, ◌++◌, map, some, none, Bool}
use jolyne.Learn.Tests.{lesson}
use jolyne.Learn.Lesson.{PlayItem}
use jolyne.Player
use jolyne.Player.{Effect, completes, closes, quits, finishes_exercise, retries, answered}
use jolyne.Players.Review
use jolyne.Players.Review.{ReviewGrade, again, good, reveals, grades, diligent, successes}
use jolyne.Players.Daily
use jolyne.Players.Daily.{DailyReviewItem, picks, goes_on, submits, plays, wrong, IsReport}
use jolyne.Players.Script
use jolyne.Players.Script.{starts, does, recap, core, confirmed_quits, react_all-started-core}

abbrev sign : PlayItem
sign = record {
  target = "か";
  meaning = "ka";
  sound = some "ka";
  forms = none;
  parts = none;
  strokes = none;
  example = some "かさ";
  example_sound = none;
  example_meaning = some "parapluie";
}

words : recap (sign ∷ []) ≡ ("かさ", "parapluie") ∷ []
unfolding recap flat_map
words = refl

abbrev hasty : List Review.Input
hasty = reveals ∷ grades good ∷ grades again ∷ Review.answered false ∷ grades again ∷ []

abbrev marks : List (ReviewGrade × Bool)
marks = (good, true) ∷ (again, false) ∷ []

diligent_example :
    let (t, calls) = Review.react_all (7 ∷ 9 ∷ []) (diligent marks) Review.started in
    (t.idx ≡ 2)
    × (t.reviewed ≡ 1)
    × (map (λ c. c.0) calls ≡ 7 ∷ 9 ∷ [])
    × (map (λ c. c.1) calls ≡ good ∷ again ∷ [])
diligent_example = Review.react_all-started-diligent (7 ∷ 9 ∷ []) marks refl

abbrev faults : List DailyReviewItem
faults =
    record { id = 3; original = "I goes"; corrected = "I go" }
    ∷ record { id = 5; original = "a apple"; corrected = "an apple" }
    ∷ []

abbrev twice : List (Daily.Input ℕ)
twice = picks "I goes" ∷ picks "I go" ∷ goes_on ∷ submits ∷ []

script_lesson_example :
    let (t, out) =
      Script.react_all ℕ false 5 1
        (map does (quits false ∷ [])
          ++ starts ∷ map does (finishes_exercise 1 ∷ answered none ∷ retries ∷ []))
        (Script.started ℕ) in
    let (u, lesson) =
      Player.react_all ℕ false 5 1
        (finishes_exercise 1 ∷ answered none ∷ retries ∷ [])
        (Player.started ℕ) in
    (core ℕ false 5 1 t ≡ u) × (out ≡ confirmed_quits ℕ false 5 1 (quits false ∷ []) ++ lesson)
script_lesson_example =
    react_all-started-core ℕ false 5 1 (quits false ∷ [])
      (finishes_exercise 1 ∷ answered none ∷ retries ∷ [])
