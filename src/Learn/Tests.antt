-- ===== src/Learn/Tests.antt =====
-- The builders of exercises on concrete lessons.
use jolyne.Base.{ℕ, ◌+◌, ◌≡◌, refl, List, [], ◌∷◌, none, some, All, String}
use jolyne.Learn.Shuffle.{shuffle, sample_distinct, words}
use jolyne.Learn.Lesson.{PlayItem, Site, build_exercises}
use jolyne.Learn.Fair
use jolyne.Learn.Fair.{build_exercises-IsFair}

abbrev pub item : String → String → PlayItem
item target meaning = record {
  target = target;
  meaning = meaning;
  sound = none;
  forms = none;
  parts = none;
  strokes = none;
  example = none;
  example_sound = none;
  example_meaning = none;
}

abbrev pub lesson : List PlayItem
lesson =
    item "hola" "bonjour"
    ∷ item "buenas noches" "bonne nuit"
    ∷ item "" "rien"
    ∷ item "sí" "oui"
    ∷ []

abbrev pub draws : Site → ℕ → ℕ
draws (Site.sampling i) n = i + n
draws (Site.ordering i) n = i + 1
draws Site.pairing n = 0

abbrev syllable : PlayItem
syllable = record (item "한" "han") { parts = some ("ㅎ" ∷ "ㅏ" ∷ "ㄴ" ∷ []) }

abbrev signs : List PlayItem
signs = syllable ∷ item "あ" "a" ∷ item "い" "i" ∷ []

shuffled : shuffle {A = ℕ} (λ i. 0) (1 ∷ 2 ∷ 3 ∷ []) ≡ 2 ∷ 3 ∷ 1 ∷ []
unfolding shuffle
shuffled = refl

sampled : sample_distinct (λ i. i) ("a" ∷ "" ∷ "b" ∷ "a" ∷ "c" ∷ []) "b" 1 ≡ "a" ∷ []
unfolding sample_distinct
sampled = refl

split_words : words "  buenas   noches " ≡ "buenas" ∷ "noches" ∷ []
unfolding words
split_words = refl

build_exercises_example : All Fair.IsFair (build_exercises draws lesson)
build_exercises_example = build_exercises-IsFair draws lesson
