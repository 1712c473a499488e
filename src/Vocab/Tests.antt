-- ===== src/Vocab/Tests.antt =====
-- The notebook on concrete entries.
use jolyne.Base.{◌≡◌, refl, List, [], ◌∷◌, String}
use jolyne.Vocab.{VocabEntry, practice_items}

abbrev entry : String → String → String → String → VocabEntry
entry term translation source target = record {
  id = 1;
  term = term;
  translation = translation;
  source_lang = source;
  target_lang = target;
  created_at = "now";
}

abbrev notebook : List VocabEntry
notebook =
    entry "hola " "bonjour" "es" "fr"
    ∷ entry "salut" "hola" "fr" "es"
    ∷ entry "sea" "mer" "en" "fr"
    ∷ []

taken : practice_items (λ s. s) "es" notebook ≡ record { target = "hola"; meaning = "bonjour" } ∷ []
unfolding practice_items
taken = refl
