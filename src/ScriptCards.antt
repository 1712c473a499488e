-- ===== src/ScriptCards.antt =====
-- The cards of a lesson on writing, all in frontend/src/components/learn: `ScriptChoose` of
-- ScriptLessonPlayer.tsx, HangulCompose.tsx, GlyphTrace.tsx, and their bar, ScriptFooter.tsx.
-- ArabicForms.tsx repeats the code of `ScriptChoose`, and `ScriptMatch` that of `MatchExercise` (Pairs).
pub mod Solvable
pub mod Tests
use jolyne.Base.{
  ℕ, zero, suc, Bool, true, false, not, ◌&&◌, List, [], ◌∷◌, ◌++◌, map, Option, none, some, any,
  get_or, ltb, leb, length, is_some, ◌==◌, String, str_eq, if◌then◌else◌,
}
use jolyne.Learn.Script.{
  ScriptExercise, recognize, recall, listen, compose, forms, trace, match_pairs,
}
use jolyne.Cards.{Footer, Choice, Assembly, has, without}

-- `ScriptFooter`; the second part of `advance` tells whether `onNext` is called.
unfoldable pub advance : Footer → Footer × Bool
advance f = if f.advancing then (f, false) else (record f { advancing = true }, true)

unfoldable pub press_check : Bool → Footer → Footer
press_check can_check f = if not f.checked && can_check then record f { checked = true } else f

unfoldable pub press_next : Footer → Footer × Bool
unfolding advance
press_next f = if f.checked then advance f else (f, false)

-- The answer and the options of a multiple choice; none for the other exercises.
unfoldable pub question : ScriptExercise → Option (String × List String)
question (recognize glyph sound options meaning) = some (sound, options)
question (recall sound glyph options meaning) = some (glyph, options)
question (listen glyph sound options meaning) = some (glyph, options)
question (forms glyph sound position answer options) = some (answer, options)
question _ = none

-- `selected === answer`
unfoldable pub is_right : String → Choice → Bool
is_right answer s = elim s.selected [ none ↦ false | some opt ↦ str_eq opt answer ]

-- A button of an option; it is disabled once the answer is checked.
unfoldable pub select : List String → String → Choice → Choice
select options opt s =
    if any (str_eq opt) options && not s.footer.checked then record s { selected = some opt } else s

unfoldable pub check_choice : Choice → Choice
unfolding press_check
check_choice s = record s { footer = press_check (is_some s.selected) s.footer }

-- The number of mistakes that `onDone` is called with, if it is called.
unfoldable pub leave_choice : String → Choice → Choice × Option ℕ
unfolding press_next is_right
leave_choice answer s =
    let (f, called) = press_next s.footer in
    (record s { footer = f }, if called then some (if is_right answer s then 0 else 1) else none)

-- `HangulCompose`: a jamo of the bank, and one of the block that is being built.
unfoldable pub put_tile : List String → ℕ → Assembly → Assembly
put_tile tiles i s =
    if ltb i (length tiles) && not (has i s.built) && not s.footer.checked
    then record s { built = s.built ++ i ∷ [] }
    else s

unfoldable pub take_tile : ℕ → Assembly → Assembly
take_tile pos s = if s.footer.checked then s else record s { built = without pos s.built }

abbrev pub sequence : List String → Assembly → List String
sequence tiles s = map (λ i. get_or tiles i "") s.built

-- `sequence.every((j, i) => j === parts[i])`
unfoldable pub every_part : List String → List String → Bool
every_part [] ps = true
every_part (j ∷ js) [] = false
every_part (j ∷ js) (p ∷ ps) = str_eq j p && every_part js ps

unfoldable pub is_composed : List String → List String → Assembly → Bool
unfolding every_part
is_composed parts tiles s =
    length (sequence tiles s) == length parts && every_part (sequence tiles s) parts

unfoldable pub check_block : List String → Assembly → Assembly
unfolding press_check
check_block parts s = record s { footer = press_check (length s.built == length parts) s.footer }

unfoldable pub leave_block : List String → List String → Assembly → Assembly × Option ℕ
unfolding press_next is_composed
leave_block parts tiles s =
    let (f, called) = press_next s.footer in
    (
      record s { footer = f },
      if called then some (if is_composed parts tiles s then 0 else 1) else none,
    )

-- `GlyphTrace`; a point of the canvas is a parameter.
abbrev pub min_points : ℕ
min_points = 12

module _ (Point : Type 0) where
  pub record Tracing : Type 0 where
    pub drawing : Bool
    pub last : Option Point
    pub points : ℕ

  abbrev pub tracing : Tracing
  tracing = record { drawing = false; last = none; points = 0 }

  pub data Gesture : Type 0 where
    starts : Point → Gesture
    moves : Point → Gesture
    ends : Gesture
    clears : Gesture

  unfoldable pub gesture : Gesture → Tracing → Tracing
  gesture (starts p) s = record s { drawing = true; last = some p }
  gesture (moves p) s =
      if not s.drawing
      then s
      else elim s.last [ none ↦ s | some q ↦ record s { last = some p; points = suc s.points } ]
  gesture ends s = record s { drawing = false; last = none }
  gesture clears s = record s { points = 0 }

  unfoldable pub gestures : List Gesture → Tracing → Tracing
  unfolding gesture
  gestures [] s = s
  gestures (g ∷ gs) s = gestures gs (gesture g s)

  -- The button of the trace, with the mistakes that `onDone` is called with.
  unfoldable pub leave_trace : Tracing → Option ℕ
  leave_trace s = if leb min_points s.points then some 0 else none
