-- ===== src/Session/Tests.antt =====
-- The theorems of the session store at concrete inputs.
use jolyne.Base.{◌≡◌, refl, true, false, List, [], ◌∷◌, none, some}
use jolyne.Session.{Setting, initial, apply}
use jolyne.Session.Laws.{apply_all}

abbrev history : List Setting
history =
    Setting.sets_pseudo "Ana"
    ∷ Setting.sets_bot_mode true
    ∷ Setting.sets_scenario (some "cafe")
    ∷ Setting.accepts_age true
    ∷ []

scenario_dropped :
    (apply_all (Setting.sets_bot_mode false ∷ []) (apply_all history initial)).scenario ≡ none
unfolding apply
scenario_dropped = refl
