-- ===== src/MessageInput.antt =====
-- frontend/src/components/chat/MessageInput.tsx: the field where a message is written. Whether a text
-- has personal data (`detectPII`) is the parameter `detect`, and the answer of the check of grammar,
-- in the language of the user, is an input. A text is cut by UTF-16 units, between characters. `onTyping`
-- is given, as it is wherever the field is used.
pub mod Warned
pub mod Stale
pub mod Tests
use Prim.Native.Char.{code}
use Prim.Native.String.{[], ◌∷◌}
use jolyne.Base.{
  ℕ, zero, suc, ◌+◌, ◌-◌, Bool, true, false, not, ◌&&◌, ◌||◌, List, [], ◌∷◌, ◌++◌, Option, none,
  some, is_some, leb, ltb, get_elem?, String, if◌then◌else◌,
}
use jolyne.Base.Text.{is_empty, trim, append}

pub record GrammarMatch : Type 0 where
  pub offset : ℕ
  pub length : ℕ
  pub replacements : List String

pub data GrammarFailure : Type 0 where
  unavailable generic_error : GrammarFailure

-- `in_check` is the text that is being checked.
pub record MessageInput : Type 0 where
  pub draft : String
  pub checking : Bool
  pub matches : Option (List GrammarMatch)
  pub checked_against : String
  pub grammar_err : Option GrammarFailure
  pub pii_pending : Bool
  pub in_check : String

abbrev pub started : MessageInput
started = record {
  draft = "";
  checking = false;
  matches = none;
  checked_against = "";
  grammar_err = none;
  pii_pending = false;
  in_check = "";
}

-- The calls of `onSend` and `onTyping`, the check of grammar, and the warning that is shown.
pub data Effect : Type 0 where
  sends : (body : String) → Effect
  types : Effect
  checks : (text : String) → Effect
  warns : (body : String) → Effect

abbrev units : ℕ → ℕ
units c = if leb 0x10000 c then 2 else 1

-- `s.slice(0, n)` and `s.slice(n)`
unfoldable pub slice_to : ℕ → String → String
slice_to n [] = []
slice_to n (c ∷ s) =
    let rest = slice_to (n - units (code c)) s in if leb (units (code c)) n then c ∷ rest else []

unfoldable pub slice_from : ℕ → String → String
slice_from n [] = []
slice_from n (c ∷ s) =
    let rest = slice_from (n - units (code c)) s in if leb (units (code c)) n then rest else c ∷ s

unfoldable pub really_send : String → MessageInput → MessageInput × List Effect
really_send body s = (
  record s { draft = ""; matches = none; grammar_err = none; pii_pending = false },
  sends body ∷ [],
)

-- `GrammarPopover` offers the replacements of the matches that it shows.
unfoldable pub apply_replacement : ℕ → String → MessageInput → MessageInput
unfolding slice_to slice_from
apply_replacement match_index replacement s = elim s.matches [
  | none ↦ s
  | some ms ↦ elim (get_elem? ms match_index) [
    | none ↦ s
    | some m ↦ record s {
      draft =
          append (slice_to m.offset s.checked_against)
            (append replacement (slice_from (m.offset + m.length) s.checked_against));
      matches = none;
    }
  ]
]

-- `runCheck` from its await on.
unfoldable pub checked : List GrammarMatch → MessageInput → MessageInput
checked ms s = record s { matches = some ms; checked_against = s.in_check; checking = false }

unfoldable pub check_failed : GrammarFailure → MessageInput → MessageInput
check_failed e s = record s { grammar_err = some e; checking = false }

pub data Input : Type 0 where
  changes : String → Input
  submits : Input
  sends_anyway : Input
  runs_check : Input
  check_answers : List GrammarMatch → Input
  check_fails : GrammarFailure → Input
  applies : ℕ → String → Input
  closes_popover : Input

module _ (detect : String → Bool) (disabled : Bool) (wants : Bool) where
  unfoldable pub submit : MessageInput → MessageInput × List Effect
  unfolding trim really_send
  submit s =
      let body = trim s.draft in
      if disabled || is_empty body
      then (s, [])
      else if not s.pii_pending && detect body
      then (record s { pii_pending = true }, warns body ∷ [])
      else really_send body s

  unfoldable pub handle_change : String → MessageInput → MessageInput × List Effect
  handle_change v s = (
    record s { draft = v; matches = none; pii_pending = false },
    if is_empty v then [] else types ∷ [],
  )

  -- `runCheck`, up to its await.
  unfoldable pub run_check : MessageInput → MessageInput × List Effect
  unfolding trim
  run_check s =
      let text = trim s.draft in
      if is_empty text || not wants || s.checking
      then (s, [])
      else (record s { checking = true; grammar_err = none; in_check = text }, checks text ∷ [])

  unfoldable pub react : Input → MessageInput → MessageInput × List Effect
  unfolding submit handle_change run_check really_send apply_replacement checked check_failed trim
  react (changes v) s = if disabled then (s, []) else handle_change v s
  react submits s = submit s
  react sends_anyway s = if s.pii_pending then really_send (trim s.draft) s else (s, [])
  react runs_check s = if disabled then (s, []) else run_check s
  react (check_answers ms) s = if s.checking then (checked ms s, []) else (s, [])
  react (check_fails e) s = if s.checking then (check_failed e s, []) else (s, [])
  react (applies i replacement) s = (apply_replacement i replacement s, [])
  react closes_popover s = (record s { matches = none }, [])

  unfoldable pub react_all : List Input → MessageInput → MessageInput × List Effect
  unfolding react
  react_all [] s = (s, [])
  react_all (i ∷ is) s =
      let (s', out) = react i s in let (t, rest) = react_all is s' in (t, out ++ rest)
