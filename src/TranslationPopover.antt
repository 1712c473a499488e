-- ===== src/TranslationPopover.antt =====
-- frontend/src/components/chat/TranslationPopover.tsx: the popover that translates a selected text and
-- saves it to the notebook; and frontend/src/components/learn/SaveWordButton.tsx, a button that saves a
-- word of a course. The calls of the server are effects, and their answers inputs.
pub mod Current
pub mod Tests
use jolyne.Base.{
  ℕ, ◌+◌, Bool, true, false, not, ◌&&◌, ◌||◌, List, [], ◌∷◌, ◌++◌, Option, none, some, ◌==◌, String,
  str_eq, if◌then◌else◌,
}
use jolyne.Base.Text.{is_empty, trim}

-- The position of the popover, which only places it, is left out.
pub record TranslationRequest : Type 0 where
  pub text : String
  pub source : String
  pub target : String

-- The answer of `translateText`.
pub record Translation : Type 0 where
  pub translated : String
  pub detected : Option String
  pub romanization : Option String

-- `err true` is the failure of the server, and `err false` any other.
pub data State : Type 0 where
  loading : State
  ok : Translation → State
  err : (unavailable : Bool) → State

pub data SaveState : Type 0 where
  idle saving saved error : SaveState

-- What `saveVocab` is given.
pub record Entry : Type 0 where
  pub term : String
  pub translation : String
  pub source : String
  pub target : String

-- `run` numbers the runs of the effect, and the last one is the one whose `active` is true;
-- `save_state` is shared by all of them.
pub record Popover : Type 0 where
  pub request : TranslationRequest
  pub run : ℕ
  pub state : State
  pub save_state : SaveState

pub data Effect : Type 0 where
  translates : (run : ℕ) → TranslationRequest → Effect
  saves : Entry → Effect

-- The first rendering, and the effect that asks for the translation.
unfoldable pub mounted : TranslationRequest → Popover × List Effect
mounted r =
    (record { request = r; run = 0; state = loading; save_state = idle }, translates 0 r ∷ [])

abbrev pub same_request : TranslationRequest → TranslationRequest → Bool
same_request a b = str_eq a.text b.text && str_eq a.source b.source && str_eq a.target b.target

-- A rendering with a request; the effect runs again where it differs, or where the language of the
-- interface has changed.
unfoldable pub rendered : TranslationRequest → (relabelled : Bool) → Popover → Popover × List Effect
rendered r relabelled s =
    if same_request s.request r && not relabelled then (record s { request = r }, []) else (
      record { request = r; run = s.run + 1; state = loading; save_state = idle },
      translates (s.run + 1) r ∷ [],
    )

-- The end of `translateText` in a run of the effect.
unfoldable pub translated_in : (run : ℕ) → Translation → Popover → Popover
translated_in run t s = if run == s.run then record s { state = ok t } else s

unfoldable pub failed_in : (run : ℕ) (unavailable : Bool) → Popover → Popover
failed_in run unavailable s = if run == s.run then record s { state = err unavailable } else s

abbrev pub or_else : Option String → String → String
or_else none d = d
or_else (some s) d = s

abbrev pub entry_of : Translation → TranslationRequest → Entry
entry_of t r = record {
  term = r.text;
  translation = t.translated;
  source = or_else t.detected r.source;
  target = r.target;
}

abbrev pub is_saving_or_saved : SaveState → Bool
is_saving_or_saved saving = true
is_saving_or_saved saved = true
is_saving_or_saved _ = false

-- `handleSave`; its button is shown once the text is translated.
unfoldable pub handle_save : Popover → Popover × List Effect
handle_save s = elim s.state [
  | ok t ↦
      if is_saving_or_saved s.save_state
      then (s, [])
      else (record s { save_state = saving }, saves (entry_of t s.request) ∷ [])
  | _ ↦ (s, [])
]

-- The answer of `saveVocab`.
unfoldable pub save_answered : Bool → Popover → Popover
save_answered succeeded s = record s { save_state = if succeeded then saved else error }

pub data Input : Type 0 where
  renders : TranslationRequest → (relabelled : Bool) → Input
  translates_ok : (run : ℕ) → Translation → Input
  translates_err : (run : ℕ) (unavailable : Bool) → Input
  clicks_save : Input
  save_answers : (succeeded : Bool) → Input

unfoldable pub react : Input → Popover → Popover × List Effect
unfolding rendered translated_in failed_in handle_save save_answered
react (renders r relabelled) s = rendered r relabelled s
react (translates_ok run t) s = (translated_in run t s, [])
react (translates_err run unavailable) s = (failed_in run unavailable s, [])
react clicks_save s = handle_save s
react (save_answers succeeded) s = (save_answered succeeded s, [])

unfoldable pub react_all : List Input → Popover → Popover × List Effect
unfolding react
react_all [] s = (s, [])
react_all (i ∷ is) s =
    let (s', out) = react i s in let (t, rest) = react_all is s' in (t, out ++ rest)

-- `SaveWordButton`: none where it is not drawn, and what is saved otherwise.
unfoldable pub word_entry : (term translation lang ui_lang : String) → Option Entry
word_entry term translation lang ui_lang =
    if is_empty (trim term) || is_empty (trim translation) || str_eq lang ui_lang
    then none
    else some (record {
      term = trim term;
      translation = trim translation;
      source = lang;
      target = ui_lang;
    })

-- The click on the button, in its state.
unfoldable pub save_word : Option Entry → SaveState → SaveState × List Effect
save_word none state = (state, [])
save_word (some e) state = if is_saving_or_saved state then (state, []) else (saving, saves e ∷ [])
