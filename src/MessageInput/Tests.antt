-- ===== src/MessageInput/Tests.antt =====
-- The field on concrete inputs.
use jolyne.Base.{◌≡◌, Bool, true, false, List, [], ◌∷◌, some, none, String, str_eq}
use jolyne.MessageInput.{
  GrammarMatch, MessageInput, started, Input, changes, submits, sends_anyway, react_all,
}
use jolyne.MessageInput.Warned.{is_warned, react_all-started-is_warned}

abbrev is_phone : String → Bool
is_phone s = str_eq s "0612345678"

abbrev cautious : List Input
cautious =
    changes "0612345678"
    ∷ submits
    ∷ changes "hi"
    ∷ submits
    ∷ changes "0612345678"
    ∷ submits
    ∷ sends_anyway
    ∷ []

warned_example : is_warned is_phone none (react_all is_phone false true cautious started).1 ≡ true
warned_example =
    react_all-started-is_warned is_phone false true cautious
      (tt, (tt, (tt, (tt, (tt, (tt, (tt, tt)))))))

abbrev agreement : GrammarMatch
agreement = record { offset = 2; length = 4; replacements = "go" ∷ [] }

abbrev written : MessageInput
written = record started { draft = "I goes" }

abbrev confirming : MessageInput
confirming = record started {
  draft = "I goes";
  pii_pending = true;
  matches = some (agreement ∷ []);
  checked_against = "I goes";
}
