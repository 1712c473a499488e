-- ===== src/Vocab/Practice.antt =====
-- What a practice of the notebook asks for.
use jolyne.Base.{Bool, false, not, ◌&&◌, List, map, none, some, String, str_eq}
use jolyne.Base.Text.{is_empty}
use jolyne.Vocab.{VocabEntry, PracticeItem, sides}

module _ (lower : String → String) (lang : String) where
  abbrev pub keys : List PracticeItem → List String
  keys its = map (λ it. lower it.target) its

  -- The entry gives a word with the key k, and a meaning.
  abbrev pub gives : String → VocabEntry → Bool
  gives k e = elim (sides lang e) [
    | none ↦ false
    | some it ↦ not (is_empty it.target) && not (is_empty it.meaning) && str_eq k (lower it.target)
  ]
