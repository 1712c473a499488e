-- ===== src/ScriptCards/Tests.antt =====
-- The cards of a lesson on writing on concrete clicks.
use jolyne.Base.{ℕ, ◌≡◌, refl, true, [], ◌∷◌, some, none, All}
use jolyne.Learn.Lesson.{PlayItem}
use jolyne.Learn.Script.{build_script_exercises}
use jolyne.Learn.Tests.{draws}
use jolyne.Cards.{assembly}
use jolyne.ScriptCards.{
  put_tile, check_block, leave_block, gestures, leave_trace, starts, moves, ends, tracing,
}
use jolyne.ScriptCards.Solvable.{IsSolvable, build_script_exercises-IsSolvable}

wrong_order :
    (leave_block ("ㄱ" ∷ "ㅏ" ∷ []) ("ㅏ" ∷ "ㄱ" ∷ []) (
      check_block
        ("ㄱ" ∷ "ㅏ" ∷ [])
        (put_tile ("ㅏ" ∷ "ㄱ" ∷ []) 1 (put_tile ("ㅏ" ∷ "ㄱ" ∷ []) 0 assembly)))).1
    ≡ some 1
unfolding leave_block check_block put_tile
wrong_order = refl

too_short : leave_trace ℕ (gestures ℕ (starts 0 ∷ moves 1 ∷ ends ∷ moves 2 ∷ []) (tracing ℕ)) ≡ none
unfolding leave_trace gestures
too_short = refl

abbrev syllable : PlayItem
syllable = record {
  target = "가";
  meaning = "ga";
  sound = some "ga";
  forms = none;
  parts = some ("ㄱ" ∷ "ㅏ" ∷ []);
  strokes = none;
  example = none;
  example_sound = none;
  example_meaning = none;
}

IsSolvable-syllable : All IsSolvable (build_script_exercises draws true (syllable ∷ []))
IsSolvable-syllable = build_script_exercises-IsSolvable draws true (syllable ∷ [])
