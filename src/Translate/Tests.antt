-- ===== src/Translate/Tests.antt =====
-- The translation of messages on concrete texts and histories.
use jolyne.Base.{◌≡◌, ◌≤◌, refl, true, List, [], ◌∷◌, ◌++◌, none, some}
use jolyne.Base.Text.{trim}
use jolyne.Base.Dict.{lookup}
use jolyne.Learn.Counting.{count}
use jolyne.Translate.{
  Item, Job, AutoTranslate, Input, guess_source_lang, renders, answers, react_all, started,
}
use jolyne.Translate.Once.{is_for, calls, count-calls-started}
use jolyne.Translate.Stale.{react_all-stale}

japanese : guess_source_lang "寿司を" (some "fr") ≡ "ja"
unfolding guess_source_lang
japanese = refl

chinese : guess_source_lang "你好 hello" (some "fr") ≡ "zh"
unfolding guess_source_lang
chinese = refl

expected_spanish : guess_source_lang "hola" (some "es") ≡ "es"
unfolding guess_source_lang
expected_spanish = refl

unknown_latin : guess_source_lang "hola" (some "ja") ≡ "auto"
unfolding guess_source_lang
unknown_latin = refl

abbrev hello : Item
hello = record { id = "m1"; body = "hello" }

abbrev history : List Input
history =
    renders true (some "en") (some "fr") (hello ∷ [])
    ∷ answers none
    ∷ renders true (some "en") (some "fr") (hello ∷ hello ∷ [])
    ∷ []

asked_once_example : count (is_for "m1") (calls (λ s. s) history (started (some "fr"))) ≤ 1
asked_once_example = count-calls-started "m1" (λ s. s) (some "fr") history (refl, (tt, (refl, tt)))

abbrev pending : Job
pending = record { id = "m1"; body = "hello"; source = "en"; target = "fr" }

abbrev waiting : AutoTranslate
waiting = record {
  translations = [];
  done = "m1" ∷ [];
  queue = pending ∷ [];
  last_target = some "fr";
}

stale_translation_example :
    let t =
      react_all
        (λ s. s)
        (renders true none (some "es") ([] ++ (record { id = "m1"; body = pending.body } ∷ []))
          ∷ answers (some "bonjour")
          ∷ [])
        waiting in
    (t.last_target ≡ some "es") × (lookup "m1" t.translations ≡ some "bonjour")
unfolding trim
stale_translation_example =
    react_all-stale (λ s. s) none "es" "bonjour" pending [] []
      (record { id = "m1"; body = pending.body }) [] waiting refl refl refl refl
