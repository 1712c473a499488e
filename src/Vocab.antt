-- ===== src/Vocab.antt =====
-- frontend/src/lib/vocab.ts: the entries of the notebook, and the words to practise. `toLowerCase` is
-- the parameter `lower`.
pub mod Practice
pub mod Tests
use jolyne.Base.{
  ℕ, Bool, true, false, ◌||◌, List, [], ◌∷◌, Option, none, some, String, str_eq, if◌then◌else◌,
}
use jolyne.Base.Text.{is_empty, trim}
use jolyne.Sanitize.{decode_entities}
use jolyne.Learn.Shuffle.{includes}
use jolyne.Learn.Lesson.{PlayItem}

pub record VocabEntry : Type 0 where
  pub id : ℕ
  pub term : String
  pub translation : String
  pub source_lang : String
  pub target_lang : String
  pub created_at : String

unfoldable pub decode : VocabEntry → VocabEntry
unfolding decode_entities
decode e = record e { term = decode_entities e.term; translation = decode_entities e.translation }

pub record PracticeItem : Type 0 where
  pub target : String
  pub meaning : String

-- The two sides of an entry, the language that is learnt first; none where the entry has it on neither.
unfoldable pub sides : String → VocabEntry → Option PracticeItem
unfolding trim
sides lang e =
    if str_eq e.source_lang lang
    then some (record { target = trim e.term; meaning = trim e.translation })
    else if str_eq e.target_lang lang
    then some (record { target = trim e.translation; meaning = trim e.term })
    else none

-- The loop of `practiceItems`; `seen` holds the keys of the items that were taken.
module _ (lower : String → String) (lang : String) where
  unfoldable pub practice_from : List String → List VocabEntry → List PracticeItem
  practice_from seen [] = []
  practice_from seen (e ∷ es) =
      let skipped = practice_from seen es in
      elim (sides lang e) [
        | none ↦ skipped
        | some it ↦
            (let key = lower it.target in
              if is_empty it.target || is_empty it.meaning || includes key seen
              then skipped
              else it ∷ practice_from (key ∷ seen) es)
      ]

  unfoldable pub practice_items : List VocabEntry → List PracticeItem
  unfolding practice_from sides
  practice_items entries = practice_from [] entries

-- The items that `PracticePlayer` makes of the words.
unfoldable pub play_item : PracticeItem → PlayItem
play_item it = record {
  target = it.target;
  meaning = it.meaning;
  sound = none;
  forms = none;
  parts = none;
  strokes = none;
  example = none;
  example_sound = none;
  example_meaning = none;
}
