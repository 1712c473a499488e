-- ===== src/TranslationPopover/Current.antt =====
-- frontend/src/components/chat/TranslationPopover.tsx: the popover with a server that answers its calls
-- in any order, and what it shows and saves then.
use jolyne.Base.{
  ℕ, ◌+◌, ◌≡◌, Bool, true, false, List, [], ◌∷◌, ◌++◌, Option, none, some, String, All, length,
  get_elem?, arith, ◌⊎◌,
}
use jolyne.TranslationPopover.{
  TranslationRequest, Translation, State, ok, saving, saved, Entry, Popover, Effect, translates,
  saves, mounted, same_request, rendered, translated_in, entry_of, handle_save, save_answered,
  Input, translates_ok, translates_err, react, react_all,
}

-- What happens: the answers to the calls come by the number of the run that made them.
pub data Event : Type 0 where
  renders : TranslationRequest → (relabelled : Bool) → Event
  answers : (run : ℕ) → Event
  fails : (run : ℕ) (unavailable : Bool) → Event
  clicks_save : Event
  save_answers : (succeeded : Bool) → Event

-- The calls that were made, the first first.
pub record World : Type 0 where
  pub popover : Popover
  pub calls : List TranslationRequest

abbrev calls_of : List Effect → List TranslationRequest
calls_of [] = []
calls_of (translates run r ∷ es) = r ∷ calls_of es
calls_of (saves e ∷ es) = calls_of es

abbrev saves_of : List Effect → List Entry
saves_of [] = []
saves_of (translates run r ∷ es) = saves_of es
saves_of (saves e ∷ es) = e ∷ saves_of es

abbrev Saving : Popover → Type 0
Saving s =
    (handle_save s ≡ (s, []))
    ⊎ ((t : Translation) × (s.state ≡ ok t)
        × (handle_save s ≡ (record s { save_state = saving }, saves (entry_of t s.request) ∷ [])))

module _ (serve : TranslationRequest → Translation) where
  abbrev pub answer_input : ℕ → Option TranslationRequest → Option Input
  answer_input run none = none
  answer_input run (some r) = some (translates_ok run (serve r))

  -- The input that an event is for the popover; an answer to a call that was not made is none.
  pub input_of : List TranslationRequest → Event → Option Input
  input_of calls (renders r relabelled) = some (Input.renders r relabelled)
  input_of calls (answers run) = answer_input run (get_elem? calls run)
  input_of calls (fails run unavailable) = some (translates_err run unavailable)
  input_of calls clicks_save = some Input.clicks_save
  input_of calls (save_answers succeeded) = some (Input.save_answers succeeded)

  abbrev after : Input → World → World
  after i w = record {
    popover = (react i w.popover).0;
    calls = w.calls ++ calls_of (react i w.popover).1;
  }

  abbrev pub happen_as : Option Input → World → World × List Entry
  happen_as none w = (w, [])
  happen_as (some i) w = (after i w, saves_of (react i w.popover).1)

  pub happen : Event → World → World × List Entry
  unfolding input_of
  happen e w = happen_as (input_of w.calls e) w

  pub happen_all : List Event → World → World × List Entry
  happen_all [] w = (w, [])
  happen_all (e ∷ es) w =
      let (w', out) = happen e w in let (u, rest) = happen_all es w' in (u, out ++ rest)

  pub begin : TranslationRequest → World
  begin r = record { popover = (mounted r).0; calls = r ∷ [] }

  -- The entry holds the server's translation of its term from some language, and the language that
  -- the server detected, if any.
  pub IsTranslated : Entry → Type 0
  IsTranslated e =
      (source : String) × (e ≡ (
        let r : TranslationRequest = record { text = e.term; source = source; target = e.target } in
        entry_of (serve r) r))

  abbrev IsServed : State → TranslationRequest → Type 0
  IsServed (ok t) r = t ≡ serve r
  IsServed _ r = Unit

  record Inv (w : World) : Type 0 where
    count : length w.calls ≡ w.popover.run + 1
    current : get_elem? w.calls w.popover.run ≡ some w.popover.request
    served : IsServed w.popover.state w.popover.request

  record Sound (o : World × List Entry) : Type 0 where
    inv : Inv o.0
    translated : All IsTranslated o.1

-- Where a save is pending as the popover is drawn with another request, and its answer comes after the
-- new translation, the popover says that the new word is saved, and its button saves nothing more:
-- the word has not been saved and cannot be.
pub react_all-save_late :
    (s : Popover) (r : TranslationRequest) (t : Translation)
    → same_request s.request r ≡ false
    → let (s', out) =
        react_all
          (Input.renders r false
            ∷ translates_ok (s.run + 1) t
            ∷ Input.save_answers true
            ∷ Input.clicks_save
            ∷ [])
          s in
      (s'.state ≡ ok t)
      × (s'.save_state ≡ saved)
      × (s'.request ≡ r)
      × (out ≡ translates (s.run + 1) r ∷ [])
unfolding react_all react rendered translated_in save_answered handle_save
react_all-save_late s r t e = ground arith
