-- ===== src/Pii.antt =====
-- frontend/src/lib/pii.ts: the search for personal data in a message. A regular expression is a list of
-- items; `matches` and `test` say what `RegExp.test` of the language does with such a list. A text is the
-- list of its characters.
pub mod Search
pub mod Phone
pub mod Tests
use jolyne.Base.{
  ℕ, zero, suc, ◌+◌, Bool, true, false, not, ◌&&◌, ◌||◌, List, [], ◌∷◌, ◌++◌, Option, none, some,
  any, leb, ◌==◌, String, if◌then◌else◌,
}
use jolyne.Base.Text.{is_space}
use jolyne.Profanity.{codes}

abbrev pub is_digit : ℕ → Bool
is_digit c = leb 0x30 c && leb c 0x39

-- `[a-z]` and `[A-Z]`, which the flag i makes one.
abbrev pub is_letter : ℕ → Bool
is_letter c = (leb 0x61 c && leb c 0x7A) || (leb 0x41 c && leb c 0x5A)

-- `\w`
abbrev pub is_word : ℕ → Bool
is_word c = is_letter c || is_digit c || c == 0x5F

-- An item: the boundary `\b`, or a class of characters that stands once, at most once, at least once, or
-- any number of times.
pub data Item : Type 0 where
  boundary : Item
  one opt plus star : (ℕ → Bool) → Item

abbrev pub starts_word : List ℕ → Bool
starts_word [] = false
starts_word (c ∷ cs) = is_word c

abbrev pub differ : Bool → Bool → Bool
differ true b = not b
differ false b = b

-- `after_word` tells whether the character before is one of `\w`.
unfoldable pub matches : List Item → (after_word : Bool) → List ℕ → Bool
matches [] w cs = true
matches (boundary ∷ p) w cs = elim (differ w (starts_word cs)) [
  | true ↦ matches p w cs
  | false ↦ false
]
matches (one k ∷ p) w [] = false
matches (one k ∷ p) w (c ∷ cs) = elim (k c) [ true ↦ matches p (is_word c) cs | false ↦ false ]
matches (opt k ∷ p) w [] = matches p w []
matches (opt k ∷ p) w (c ∷ cs) = elim (k c) [
  | true ↦ elim (matches p (is_word c) cs) [ true ↦ true | false ↦ matches p w (c ∷ cs) ]
  | false ↦ matches p w (c ∷ cs)
]
matches (plus k ∷ p) w [] = false
matches (plus k ∷ p) w (c ∷ cs) = elim (k c) [
  | true ↦ elim (matches (plus k ∷ p) (is_word c) cs) [
    | true ↦ true
    | false ↦ matches p (is_word c) cs
  ]
  | false ↦ false
]
matches (star k ∷ p) w [] = matches p w []
matches (star k ∷ p) w (c ∷ cs) = elim (k c) [
  | true ↦ elim (matches (star k ∷ p) (is_word c) cs) [ true ↦ true | false ↦ matches p w (c ∷ cs) ]
  | false ↦ matches p w (c ∷ cs)
]

-- `re.test(text)`: the items match somewhere.
unfoldable pub test_from : List Item → (after_word : Bool) → List ℕ → Bool
unfolding matches
test_from p w [] = matches p w []
test_from p w (c ∷ cs) = elim (matches p w (c ∷ cs)) [
  | true ↦ true
  | false ↦ test_from p (is_word c) cs
]

abbrev pub test : List Item → List ℕ → Bool
test p cs = test_from p false cs

-- A character of a text, and a letter in both cases.
abbrev pub exactly : ℕ → Item
exactly x = one (λ c. c == x)

abbrev pub either_case : ℕ → Item
either_case x = one (λ c. c == x || c + 32 == x)

abbrev pub not_space : ℕ → Bool
not_space c = not (is_space c)

-- `\bhttps?:\/\/\S+`, `\bwww\.\S+` and `\b[\w.-]+\.[a-z]{2,}\/\S*`, the alternatives of `URL_RE`.
abbrev pub http_re : List Item
http_re =
    boundary
    ∷ either_case 0x68
    ∷ either_case 0x74
    ∷ either_case 0x74
    ∷ either_case 0x70
    ∷ opt (λ c. c == 0x73 || c + 32 == 0x73)
    ∷ exactly 0x3A
    ∷ exactly 0x2F
    ∷ exactly 0x2F
    ∷ plus not_space
    ∷ []

abbrev pub www_re : List Item
www_re =
    boundary
    ∷ either_case 0x77
    ∷ either_case 0x77
    ∷ either_case 0x77
    ∷ exactly 0x2E
    ∷ plus not_space
    ∷ []

abbrev pub is_host : ℕ → Bool
is_host c = is_word c || c == 0x2E || c == 0x2D

abbrev pub path_re : List Item
path_re =
    boundary
    ∷ plus is_host
    ∷ exactly 0x2E
    ∷ one is_letter
    ∷ plus is_letter
    ∷ exactly 0x2F
    ∷ star not_space
    ∷ []

-- `EMAIL_RE`
abbrev pub is_mailbox : ℕ → Bool
is_mailbox c = is_host c || c == 0x2B

abbrev pub email_re : List Item
email_re =
    boundary
    ∷ plus is_mailbox
    ∷ exactly 0x40
    ∷ plus is_host
    ∷ exactly 0x2E
    ∷ one is_letter
    ∷ plus is_letter
    ∷ boundary
    ∷ []

-- `PHONE_RE`: nothing follows the groups, so that eight of them are enough.
abbrev pub is_separator : ℕ → Bool
is_separator c = is_space c || c == 0x2E || c == 0x2D || c == 0x28 || c == 0x29

abbrev pub groups : ℕ → List Item
groups zero = []
groups (suc n) = opt is_separator ∷ one is_digit ∷ groups n

abbrev pub phone_re : List Item
phone_re = opt (λ c. c == 0x2B) ∷ one is_digit ∷ groups 8

-- `HANDLE_RE`, which has no flag, but whose class has both cases.
abbrev pub is_handle : ℕ → Bool
is_handle c = is_word c || c == 0x2E

abbrev pub handle_re : List Item
handle_re = exactly 0x40 ∷ one is_handle ∷ one is_handle ∷ plus is_handle ∷ boundary ∷ []

pub data PiiKind : Type 0 where
  url email phone handle : PiiKind

unfoldable pub detect_pii : String → Option PiiKind
unfolding test_from
detect_pii text =
    let cs = codes text in
    if test http_re cs || test www_re cs || test path_re cs
    then some url
    else if test email_re cs
    then some email
    else if test phone_re cs
    then some phone
    else if test handle_re cs
    then some handle
    else none
