-- ===== src/Cards.antt =====
-- frontend/src/components/learn/exercises.tsx: the multiple choice, the assembling of a phrase, and the
-- bar that checks an answer and goes on. `toLowerCase` is the parameter `lower`.
pub mod Spaces
pub mod Picking
pub mod Solvable
pub mod Tests
use Prim.Native.Char.{code}
use Prim.Native.String.{[], ◌∷◌}
use jolyne.Base.{
  ℕ, zero, suc, Bool, true, false, not, ◌&&◌, ◌||◌, List, [], ◌∷◌, ◌++◌, map, Option, none, some,
  any, get_or, ltb, length, is_some, ◌==◌, String, str_eq, if◌then◌else◌,
}
use jolyne.Base.Text.{is_space, trim, append}

-- `FooterBar`: whether the answer was checked, and whether the exercise was left.
pub record Footer : Type 0 where
  pub checked : Bool
  pub advancing : Bool

-- `advance`; the second part tells whether `onNext` is called.
unfoldable pub advance : Footer → Footer × Bool
advance f = if f.advancing then (f, false) else (record f { advancing = true }, true)

-- The two buttons of the bar: the first one stands there until the answer is checked, and works where
-- `can_check` holds; the second one after it.
unfoldable pub press_check : Bool → Footer → Footer
press_check can_check f = if not f.checked && can_check then record f { checked = true } else f

unfoldable pub press_next : Footer → Footer × Bool
unfolding advance
press_next f = if f.checked then advance f else (f, false)

abbrev pub fresh : Footer
fresh = record { checked = false; advancing = false }

-- `ChooseExercise`
pub record Choice : Type 0 where
  pub selected : Option String
  pub footer : Footer

abbrev pub choice : Choice
choice = record { selected = none; footer = fresh }

-- `selected === ex.answer`
unfoldable pub is_right : String → Choice → Bool
is_right answer s = elim s.selected [ none ↦ false | some opt ↦ str_eq opt answer ]

-- A button of an option; it is disabled once the answer is checked.
unfoldable pub select : List String → String → Choice → Choice
select options opt s =
    if any (str_eq opt) options && not s.footer.checked then record s { selected = some opt } else s

unfoldable pub check_choice : Choice → Choice
unfolding press_check
check_choice s = record s { footer = press_check (is_some s.selected) s.footer }

-- The number of mistakes that `onDone` is called with, if it is called.
unfoldable pub leave_choice : String → Choice → Choice × Option ℕ
unfolding press_next is_right
leave_choice answer s =
    let (f, called) = press_next s.footer in
    (record s { footer = f }, if called then some (if is_right answer s then 0 else 1) else none)

-- `s.replace(/\s+/g, " ")`; `inside` tells that the character before is white space.
unfoldable pub collapse : Bool → String → String
collapse inside [] = []
collapse inside (c ∷ s) =
    let outside = collapse false s in
    let later = collapse true s in
    if is_space (code c) then (if inside then later else " " ∷ later) else c ∷ outside

-- `xs.join(" ")`
unfoldable pub join : List String → String
join [] = ""
join (w ∷ []) = w
join (w ∷ v ∷ ws) = append w (" " ∷ join (v ∷ ws))

unfoldable pub norm : (String → String) → String → String
unfolding collapse trim is_space
norm lower s = lower (collapse false (trim s))

-- `AssembleExercise`: `built` holds the positions of the chosen tokens.
pub record Assembly : Type 0 where
  pub built : List ℕ
  pub footer : Footer

abbrev pub assembly : Assembly
assembly = record { built = []; footer = fresh }

-- `used.has(i)`
abbrev pub has : ℕ → List ℕ → Bool
has i is = any (λ j. i == j) is

-- A token of the bank, and a token of the answer at the position `pos`.
unfoldable pub put : List String → ℕ → Assembly → Assembly
put tokens i s =
    if ltb i (length tokens) && not (has i s.built) && not s.footer.checked
    then record s { built = s.built ++ i ∷ [] }
    else s

abbrev pub without : ℕ → List ℕ → List ℕ
without pos [] = []
without zero (i ∷ is) = is
without (suc pos) (i ∷ is) = i ∷ without pos is

unfoldable pub take_off : ℕ → Assembly → Assembly
take_off pos s = if s.footer.checked then s else record s { built = without pos s.built }

unfoldable pub answer_of : List String → Assembly → String
unfolding join
answer_of tokens s = join (map (λ i. get_or tokens i "") s.built)

unfoldable pub is_assembled : (String → String) → List String → String → Assembly → Bool
unfolding answer_of norm
is_assembled lower tokens target s = str_eq (norm lower (answer_of tokens s)) (norm lower target)

unfoldable pub check_assembly : Assembly → Assembly
unfolding press_check
check_assembly s = record s { footer = press_check (ltb 0 (length s.built)) s.footer }

unfoldable pub leave_assembly :
    (String → String) → List String → String → Assembly → Assembly × Option ℕ
unfolding press_next is_assembled
leave_assembly lower tokens target s =
    let (f, called) = press_next s.footer in
    (
      record s { footer = f },
      if called then some (if is_assembled lower tokens target s then 0 else 1) else none,
    )
