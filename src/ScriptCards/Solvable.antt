-- ===== src/ScriptCards/Solvable.antt =====
-- Every exercise of a lesson on writing can be answered without a mistake.
use jolyne.Base.{
  ℕ, zero, suc, ◌≤◌, ◌≡◌, refl, sym, ap, ◌∙◌, true, List, [], ◌∷◌, map, none, some, get_or, length,
  String, str_eq, arith, All, All-map, length-map, Bool,
}
use text.Mathlib.TextPositions.{eq_refl}
use jolyne.Learn.Counting.{count}
use jolyne.Learn.Lesson.{PlayItem, Site}
use jolyne.Learn.Script.{
  ScriptExercise, recognize, recall, listen, compose, forms, trace, match_pairs,
  build_script_exercises,
}
use jolyne.Learn.ScriptFair.{IsFair, build_script_exercises-IsFair}
use jolyne.Cards.{choice, Assembly, assembly, put}
use jolyne.Cards.Picking.{left-count, pick}
use jolyne.Cards.Solvable.{puts, puts-built, any-count, IsMatched, match_solved}
use jolyne.ScriptCards.{
  question, select, check_choice, leave_choice, put_tile, is_composed, every_part, check_block,
  leave_block, Gesture, starts, moves, gestures, tracing, leave_trace, min_points,
}

-- The clicks on the tiles at the positions.
abbrev pub put_tiles : List String → List ℕ → Assembly → Assembly
put_tiles tiles [] s = s
put_tiles tiles (i ∷ is) s = put_tiles tiles is (put_tile tiles i s)

put_tiles-puts :
    (tiles : List String) (is : List ℕ) (s : Assembly) → put_tiles tiles is s ≡ puts tiles is s
unfolding put_tile put
put_tiles-puts tiles [] s = refl
put_tiles-puts tiles (i ∷ is) s = put_tiles-puts tiles is (put_tile tiles i s)

every_part_refl : (ps : List String) → every_part ps ps ≡ true
unfolding every_part
every_part_refl [] = refl
every_part_refl (p ∷ ps) = ground (arith, eq_refl p, every_part_refl ps)

-- Whoever moves over the canvas often enough.
abbrev pub scribbles : ℕ → List (Gesture ℕ)
scribbles zero = []
scribbles (suc n) = moves n ∷ scribbles n

-- There is a way to answer, at the end of which the exercise reports no mistake.
pub IsSolvable : ScriptExercise → Type 0
IsSolvable (compose glyph sound parts tiles) =
    (is : List ℕ) × ((leave_block parts tiles (check_block parts (put_tiles tiles is assembly))).1
      ≡ some 0)
IsSolvable (trace glyph sound strokes) =
    leave_trace ℕ (gestures ℕ (starts 0 ∷ scribbles min_points) (tracing ℕ)) ≡ some 0
IsSolvable (match_pairs pairs) = IsMatched (length pairs)
IsSolvable ex = elim (question ex) [
  | none ↦ ⊥
  | some (answer, options) ↦
      (leave_choice answer (check_choice (select options answer choice))).1 ≡ some 0
]

choice_solved :
    (answer : String) (options : List String)
    → count (str_eq answer) options ≡ 1
    → (leave_choice answer (check_choice (select options answer choice))).1 ≡ some 0
unfolding leave_choice check_choice select
choice_solved answer options h = ground (arith, any-count answer options h, eq_refl answer)

is_composed-parts :
    (parts tiles : List String) (s : Assembly)
    → map (λ i. get_or tiles i "") s.built ≡ parts
    → is_composed parts tiles s ≡ true
unfolding is_composed
is_composed-parts parts tiles s e = rw e (ground (arith, every_part_refl parts))

compose_solved :
    (parts tiles : List String)
    → 2 ≤ length parts
    → ((w : String) → count (str_eq w) parts ≤ count (str_eq w) tiles)
    → (is : List ℕ) × ((leave_block parts tiles (check_block parts (put_tiles tiles is assembly))).1
        ≡ some 0)
unfolding leave_block check_block
compose_solved parts tiles two h =
    let (is, e, f) = pick tiles parts [] (λ w. ground (arith, h w, left-count w 0 tiles)) in
    let made = put_tiles-puts tiles is assembly ∙ puts-built tiles is assembly refl f in
    let as_long : length is ≡ length parts =
      sym (length-map (λ i. get_or tiles i "") is) ∙ ap length e in
    let right = is_composed-parts parts tiles (record assembly { built = is }) e in
    (is, rw made (ground (arith, as_long, right)))

IsFair-IsSolvable : (ex : ScriptExercise) → IsFair ex → IsSolvable ex
unfolding IsFair IsSolvable question leave_trace gestures
IsFair-IsSolvable (recognize glyph sound options meaning) h = choice_solved sound options h.0
IsFair-IsSolvable (recall sound glyph options meaning) h = choice_solved glyph options h.0
IsFair-IsSolvable (listen glyph sound options meaning) h = choice_solved glyph options h.0
IsFair-IsSolvable (forms glyph sound position answer options) h = choice_solved answer options h.2.0
IsFair-IsSolvable (compose glyph sound parts tiles) (two, (enough, exact, few)) =
    compose_solved parts tiles two enough
IsFair-IsSolvable (trace glyph sound strokes) h = refl
IsFair-IsSolvable (match_pairs pairs) h = match_solved (length pairs)

-- Whatever is drawn, every exercise of a lesson on writing can be answered without a mistake: the
-- answer of a multiple choice can be selected and checked, the parts of a block can be clicked among
-- its tiles in their order, a sign can be traced, and the pairs of the last exercise can be chosen
-- until it is done.
pub build_script_exercises-IsSolvable :
    (draw : Site → ℕ → ℕ) (can_listen : Bool) (items : List PlayItem)
    → All IsSolvable (build_script_exercises draw can_listen items)
build_script_exercises-IsSolvable draw can_listen items =
    All-map IsFair IsSolvable (build_script_exercises draw can_listen items) IsFair-IsSolvable
      (build_script_exercises-IsFair draw can_listen items)
