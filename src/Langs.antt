-- ===== src/Langs.antt =====
-- frontend/src/lib/langs.ts: the languages of the site and the pairs that can be matched.
pub mod Pairs
pub mod Tests
use mathlib.Core.List.{flat_map}
use jolyne.Base.{
  ◌≡◌, Bool, true, false, not, ◌&&◌, List, [], ◌∷◌, map, Option, none, some, any, keep, String,
  str_eq, if◌then◌else◌,
}

pub data LangCode : Type 0 where
  fr en es de pt it zh ja ko ar : LangCode

abbrev pub all_langs : List LangCode
all_langs = fr ∷ en ∷ es ∷ de ∷ pt ∷ it ∷ zh ∷ ja ∷ ko ∷ ar ∷ []

-- The codes are strings in the source, compared by `===`.
abbrev pub lang_code : LangCode → String
lang_code fr = "fr"
lang_code en = "en"
lang_code es = "es"
lang_code de = "de"
lang_code pt = "pt"
lang_code it = "it"
lang_code zh = "zh"
lang_code ja = "ja"
lang_code ko = "ko"
lang_code ar = "ar"

abbrev pub lang_eq : LangCode → LangCode → Bool
lang_eq a b = str_eq (lang_code a) (lang_code b)

abbrev pub lang_label : LangCode → String
lang_label fr = "Français"
lang_label en = "English"
lang_label es = "Español"
lang_label de = "Deutsch"
lang_label pt = "Português"
lang_label it = "Italiano"
lang_label zh = "中文"
lang_label ja = "日本語"
lang_label ko = "한국어"
lang_label ar = "\u{627}\u{644}\u{639}\u{631}\u{628}\u{64a}\u{629}"

-- `LANG_LABEL[s as keyof typeof LANG_LABEL]`: undefined where `s` is no code.
pub label_of_code : List LangCode → String → Option String
label_of_code [] s = none
label_of_code (l ∷ ls) s =
    if str_eq (lang_code l) s then some (lang_label l) else label_of_code ls s

pub record LangPair : Type 0 where
  pub speaks : LangCode
  pub wants : LangCode

abbrev pub pairs_from : LangCode → List LangPair
pairs_from s = map (λ w. record { speaks = s; wants = w }) (keep (λ w. not (lang_eq w s)) all_langs)

pub allowed_pairs : List LangPair
allowed_pairs = flat_map pairs_from all_langs

pub allowed_wants_for : Option LangCode → List LangCode
unfolding allowed_pairs flat_map
allowed_wants_for none = []
allowed_wants_for (some s) = map (λ p. p.wants) (keep (λ p. lang_eq p.speaks s) allowed_pairs)

pub is_pair_allowed : Option LangCode → Option LangCode → Bool
unfolding allowed_pairs flat_map
is_pair_allowed none wants = false
is_pair_allowed (some s) none = false
is_pair_allowed (some s) (some w) = any (λ p. lang_eq p.speaks s && lang_eq p.wants w) allowed_pairs
