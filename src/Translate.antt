-- ===== src/Translate.antt =====
-- frontend/src/lib/translate.ts, `guessSourceLang`, and frontend/src/lib/autoTranslate.ts,
-- `useAutoTranslations`. `toLowerCase` is the parameter `lower`; the server's answer is an input.
pub mod Once
pub mod Stale
pub mod Tests
use Prim.Native.Char.{code}
use Prim.Native.String.{[], ◌∷◌}
use jolyne.Base.{
  ℕ, Bool, true, false, not, ◌&&◌, ◌||◌, List, [], ◌∷◌, ◌++◌, Option, none, some, any, leb, String,
  str_eq, if◌then◌else◌,
}
use jolyne.Base.Text.{is_empty, trim}
use jolyne.Base.Dict.{lookup, insert}
use jolyne.Learn.Shuffle.{includes}

-- `/[…]/.test(text)`, for a class of characters.
abbrev pub test : (ℕ → Bool) → String → Bool
test p [] = false
test p (c ∷ s) = p (code c) || test p s

abbrev pub is_between : ℕ → ℕ → ℕ → Bool
is_between lo hi c = leb lo c && leb c hi

abbrev pub is_kana : ℕ → Bool
is_kana c = is_between 0x3040 0x30FF c

abbrev pub is_hangul : ℕ → Bool
is_hangul c = is_between 0xAC00 0xD7AF c

abbrev pub is_han : ℕ → Bool
is_han c = is_between 0x3400 0x4DBF c || is_between 0x4E00 0x9FFF c

abbrev pub is_arabic : ℕ → Bool
is_arabic c = is_between 0x600 0x6FF c

abbrev pub latin_script_langs : List String
latin_script_langs = "fr" ∷ "en" ∷ "es" ∷ "de" ∷ "pt" ∷ "it" ∷ []

-- An expected language that is null is none.
unfoldable pub guess_source_lang : String → Option String → String
guess_source_lang text expected =
    if test is_kana text
    then "ja"
    else if test is_hangul text
    then "ko"
    else if test is_han text
    then "zh"
    else if test is_arabic text
    then "ar"
    else elim expected [
      | none ↦ "auto"
      | some lang ↦ if includes lang latin_script_langs then lang else "auto"
    ]

pub record Item : Type 0 where
  pub id : String
  pub body : String

-- A call of `translateText` in the chain of promises.
pub record Job : Type 0 where
  pub id : String
  pub body : String
  pub source : String
  pub target : String

-- `done` holds the keys of the map `done`, whose values nobody reads; the head of `queue` is the call
-- that is not answered.
pub record AutoTranslate : Type 0 where
  pub translations : List (String × String)
  pub done : List String
  pub queue : List Job
  pub last_target : Option String

abbrev pub started : Option String → AutoTranslate
started target = record { translations = []; done = []; queue = []; last_target = target }

abbrev pub same_target : Option String → Option String → Bool
same_target none none = true
same_target (some a) (some b) = str_eq a b
same_target _ _ = false

-- The effect on a change of the target.
unfoldable pub set_target : Option String → AutoTranslate → AutoTranslate
set_target target s =
    if same_target s.last_target target
    then s
    else record s { last_target = target; done = []; translations = [] }

-- The loop of the second effect.
unfoldable pub enqueue : Option String → String → List Item → AutoTranslate → AutoTranslate
unfolding guess_source_lang
enqueue expected target [] s = s
enqueue expected target (item ∷ items) s =
    let job : Job = record {
      id = item.id;
      body = item.body;
      source = guess_source_lang item.body expected;
      target = target;
    } in
    enqueue expected target items (
      if includes item.id s.done
      then s
      else record s { done = item.id ∷ s.done; queue = s.queue ++ job ∷ [] })

-- A rendering of the hook: both effects, in their order.
unfoldable pub render :
    Bool → Option String → Option String → List Item → AutoTranslate → AutoTranslate
unfolding set_target enqueue
render enabled expected target items s =
    let s' = set_target target s in
    elim target [
      | none ↦ s'
      | some lang ↦ if enabled && not (is_empty lang) then enqueue expected lang items s' else s'
    ]

-- The answer to the first call of the queue: none where it fails.
unfoldable pub answered : (String → String) → Option String → AutoTranslate → AutoTranslate
unfolding trim
answered lower answer s = elim s.queue [
  | [] ↦ s
  | job ∷ jobs ↦
      (let s' = record s { queue = jobs } in
        elim answer [
          | none ↦ s'
          | some translated ↦
              if not (is_empty translated)
                && not (str_eq (lower (trim translated)) (lower (trim job.body)))
              then record s' { translations = insert job.id translated s.translations }
              else s'
        ])
]

pub data Input : Type 0 where
  renders : Bool → (expected target : Option String) → List Item → Input
  answers : Option String → Input

unfoldable pub react : (String → String) → Input → AutoTranslate → AutoTranslate
unfolding render answered
react lower (renders enabled expected target items) s = render enabled expected target items s
react lower (answers answer) s = answered lower answer s

unfoldable pub react_all : (String → String) → List Input → AutoTranslate → AutoTranslate
unfolding react
react_all lower [] s = s
react_all lower (i ∷ is) s = react_all lower is (react lower i s)
