-- ===== src/Player/Tests.antt =====
-- A lesson of three exercises, and one in which the hearts run out.
use jolyne.Base.{ℕ, ◌≡◌, refl, true, false, List, [], ◌∷◌, none, some, All}
use jolyne.Player.{
  completes, out_of_hearts, closes, close_empty, Input, finishes_exercise, answered, retries,
  started, react_all, hearts_left,
}
use jolyne.Player.Report.{Inv, IsJust, react_all-started-Inv, react_all-started, exercises}

abbrev losing : List (Input ℕ)
losing =
    finishes_exercise 2 ∷ finishes_exercise 3 ∷ answered none ∷ retries ∷ answered (some 0) ∷ []

lost :
    (react_all ℕ false 5 3 losing (started ℕ)).1
    ≡ completes 5 true ∷ completes 5 true ∷ out_of_hearts ∷ []
unfolding react_all
lost = refl

nothing_to_play : close_empty ℕ false 5 0 ≡ closes false ∷ []
unfolding close_empty
nothing_to_play = refl

no_heart : hearts_left 5 7 ≡ 0
unfolding hearts_left
no_heart = refl

losing_example :
    Inv ℕ false 5 3 (react_all ℕ false 5 3 losing (started ℕ)).0
    × All (IsJust ℕ false 5 3) (react_all ℕ false 5 3 losing (started ℕ)).1
losing_example = react_all-started-Inv ℕ false 5 3 losing

passing_example :
    (react_all ℕ false 5 3 (exercises ℕ false 5 3 (1 ∷ 0 ∷ 2 ∷ [])) (started ℕ)).1
    ≡ completes 3 false ∷ []
passing_example = react_all-started ℕ false 5 3 1 (0 ∷ 2 ∷ []) refl refl
