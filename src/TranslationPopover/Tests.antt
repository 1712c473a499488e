-- ===== src/TranslationPopover/Tests.antt =====
-- The popover on concrete requests; the server's translation is the text with a mark.
use jolyne.Base.{ℕ, ◌+◌, ◌≡◌, refl, false, true, List, [], ◌∷◌, none, some}
use jolyne.Base.Text.{append}
use jolyne.TranslationPopover.{
  TranslationRequest, Translation, ok, Popover, saving, word_entry, save_word, idle, saves,
}
use jolyne.TranslationPopover.Current.{Event}

abbrev serve : TranslationRequest → Translation
serve r = record { translated = append r.text "!"; detected = some "es"; romanization = none }

abbrev asks : TranslationRequest
asks = record { text = "hola"; source = "auto"; target = "fr" }

abbrev asks_next : TranslationRequest
asks_next = record { text = "gato"; source = "auto"; target = "fr" }

-- The answer to the first request comes last.
abbrev events : List Event
events =
    Event.renders asks_next false
    ∷ Event.answers 1
    ∷ Event.answers 0
    ∷ Event.clicks_save
    ∷ Event.save_answers false
    ∷ []

abbrev is_saving : Popover
is_saving = record { request = asks; run = 0; state = ok (serve asks); save_state = saving }

-- A word is saved without the spaces around it, once.
saves_word : save_word (word_entry " gato " "chat" "es" "fr") idle ≡ (
  saving,
  saves (record { term = "gato"; translation = "chat"; source = "es"; target = "fr" }) ∷ [],
)
unfolding save_word word_entry jolyne.Base.Text.trim
saves_word = refl
