-- ===== src/Session.antt =====
-- frontend/src/stores/sessionStore.ts: the preferences of the user. Each setter of the store is a
-- function; `partialize` is the part that the library writes to localStorage.
pub mod Laws
pub mod Tests
use jolyne.Base.{Bool, true, false, Option, none, some, String, if◌then◌else◌}
use jolyne.Langs.{LangCode}

pub record SessionState : Type 0 where
  pub pseudo : String
  pub speaks : Option LangCode
  pub wants : Option LangCode
  pub age_accepted : Bool
  pub bot_mode : Bool
  pub scenario : Option String
  pub ui_lang : Option LangCode
  pub auto_translate : Bool

abbrev pub initial : SessionState
initial = record {
  pseudo = "";
  speaks = none;
  wants = none;
  age_accepted = false;
  bot_mode = false;
  scenario = none;
  ui_lang = none;
  auto_translate = false;
}

unfoldable pub set_pseudo : String → SessionState → SessionState
set_pseudo v s = record s { pseudo = v }

unfoldable pub set_langs : LangCode → Option LangCode → SessionState → SessionState
set_langs speaks wants s = record s { speaks = some speaks; wants = wants }

unfoldable pub accept_age : Bool → SessionState → SessionState
accept_age v s = record s { age_accepted = v }

unfoldable pub set_bot_mode : Bool → SessionState → SessionState
set_bot_mode v s =
    if v then record s { bot_mode = v } else record s { bot_mode = v; scenario = none }

unfoldable pub set_scenario : Option String → SessionState → SessionState
set_scenario v s = record s { scenario = v }

unfoldable pub set_ui_lang : Option LangCode → SessionState → SessionState
set_ui_lang v s = record s { ui_lang = v }

unfoldable pub set_auto_translate : Bool → SessionState → SessionState
set_auto_translate v s = record s { auto_translate = v }

unfoldable pub clear : SessionState → SessionState
clear s = initial

pub record Persisted : Type 0 where
  pub pseudo : String
  pub speaks : Option LangCode
  pub wants : Option LangCode
  pub age_accepted : Bool
  pub ui_lang : Option LangCode
  pub auto_translate : Bool

unfoldable pub partialize : SessionState → Persisted
partialize s = record {
  pseudo = s.pseudo;
  speaks = s.speaks;
  wants = s.wants;
  age_accepted = s.age_accepted;
  ui_lang = s.ui_lang;
  auto_translate = s.auto_translate;
}

pub data Setting : Type 0 where
  sets_pseudo : String → Setting
  sets_langs : LangCode → Option LangCode → Setting
  accepts_age sets_bot_mode sets_auto_translate : Bool → Setting
  sets_scenario : Option String → Setting
  sets_ui_lang : Option LangCode → Setting
  clears : Setting

unfoldable pub apply : Setting → SessionState → SessionState
unfolding set_pseudo set_langs accept_age set_bot_mode set_scenario set_ui_lang set_auto_translate
    clear
apply (sets_pseudo v) s = set_pseudo v s
apply (sets_langs speaks wants) s = set_langs speaks wants s
apply (accepts_age v) s = accept_age v s
apply (sets_bot_mode v) s = set_bot_mode v s
apply (sets_auto_translate v) s = set_auto_translate v s
apply (sets_scenario v) s = set_scenario v s
apply (sets_ui_lang v) s = set_ui_lang v s
apply clears s = clear s
