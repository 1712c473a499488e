-- ===== src/Sanitize/Entities.antt =====
-- The decoding of what the server escapes.
use Prim.Native.Char.{Char, code}
use Prim.Native.String.{[], ◌∷◌}
use jolyne.Base.{
  zero, ◌≡◌, refl, ap, ◌∙◌, true, false, inl, inr, String, arith, ◌==◌, if◌then◌else◌, Bool-cases,
}
use text.Mathlib.TextEquality.{Char-path}
use jolyne.Sanitize.{entity_at, decode_from, decode_entities}

-- Go's `html.EscapeString`, which the server applies to each message: five characters are replaced.
abbrev escape_char : Char → String → String
escape_char c rest =
    if code c == b'<'
    then "&" ∷ "l" ∷ "t" ∷ ";" ∷ rest
    else if code c == b'>'
    then "&" ∷ "g" ∷ "t" ∷ ";" ∷ rest
    else if code c == b'&'
    then "&" ∷ "a" ∷ "m" ∷ "p" ∷ ";" ∷ rest
    else if code c == 39
    then "&" ∷ "#" ∷ "3" ∷ "9" ∷ ";" ∷ rest
    else if code c == 34
    then "&" ∷ "#" ∷ "3" ∷ "4" ∷ ";" ∷ rest
    else c ∷ rest

pub html_escape : String → String
html_escape [] = []
html_escape (c ∷ s) = escape_char c (html_escape s)

cons_code : (d c : Char) (t : String) → (code c == code d) ≡ true → ◌≡◌ {A = String} (d ∷ t) (c ∷ t)
cons_code d c t h = ap (λ x. x ∷ t) (Char-path d c (ground arith))

decode_from_plain :
    (c : Char) (s : String)
    → (code c == b'&') ≡ false
    → decode_from zero (c ∷ s) ≡ c ∷ decode_from zero s
unfolding decode_from entity_at
decode_from_plain c s h = let differs : (b'&' == code c) ≡ false = ground arith in ground arith

decode_from-escape_char :
    (c : Char) (s : String) → decode_from zero (escape_char c s) ≡ c ∷ decode_from zero s
unfolding decode_from entity_at
decode_from-escape_char c s = elim (Bool-cases (code c == b'<')) [
  | inl e ↦ rw e (cons_code "<" c _ e)
  | inr a ↦ elim (Bool-cases (code c == b'>')) [
    | inl e ↦ rw (a, e) (cons_code ">" c _ e)
    | inr b ↦ elim (Bool-cases (code c == b'&')) [
      | inl e ↦ rw (a, b, e) (cons_code "&" c _ e)
      | inr d ↦ elim (Bool-cases (code c == 39)) [
        | inl e ↦ rw (a, b, d, e) (cons_code "'" c _ e)
        | inr f ↦ elim (Bool-cases (code c == 34)) [
          | inl e ↦ rw (a, b, d, f, e) (cons_code "\"" c _ e)
          | inr g ↦ rw (a, b, d, f, g) (decode_from_plain c s d)
        ]
      ]
    ]
  ]
]

-- Whatever text the server escapes, decoding gives that text back.
pub decode_entities-html_escape : (s : String) → decode_entities (html_escape s) ≡ s
unfolding decode_entities html_escape decode_from
decode_entities-html_escape [] = refl
decode_entities-html_escape (c ∷ s) =
    decode_from-escape_char c (html_escape s) ∙ ap (λ t. c ∷ t) (decode_entities-html_escape s)

-- No character of the text begins an entity.
abbrev pub HasNoAmpersand : String → Type 0
HasNoAmpersand [] = Unit
HasNoAmpersand (c ∷ s) = ((code c == b'&') ≡ false) × HasNoAmpersand s

-- A text with no ampersand is left as it is.
pub decode_entities_plain : (s : String) → HasNoAmpersand s → decode_entities s ≡ s
unfolding decode_entities decode_from
decode_entities_plain [] h = refl
decode_entities_plain (c ∷ s) (h, hs) =
    decode_from_plain c s h ∙ ap (λ t. c ∷ t) (decode_entities_plain s hs)
