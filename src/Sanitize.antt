-- ===== src/Sanitize.antt =====
-- frontend/src/lib/sanitize.ts: what is done to a text of the peer before it is shown. DOMPurify,
-- called with no allowed tag, is the parameter `purify`; `has_window` tells a browser from a server.
pub mod Entities
pub mod Tests
use Prim.Native.Char.{Char, code}
use Prim.Native.String.{[], ◌∷◌}
use jolyne.Base.{ℕ, zero, suc, Bool, Option, none, some, String, ◌==◌, if◌then◌else◌}

-- The text behind a prefix.
abbrev pub strip : String → String → Option String
strip [] s = some s
strip (c ∷ p) [] = none
strip (c ∷ p) (d ∷ s) = if code c == code d then strip p s else none

abbrev or_else : Option (Char × ℕ) → Option (Char × ℕ) → Option (Char × ℕ)
or_else (some r) other = some r
or_else none other = other

-- The match of one alternative: its character, and how many characters stand behind the first one.
abbrev entity : String → Char → ℕ → String → Option (Char × ℕ)
entity name c more s = elim (strip name s) [ none ↦ none | some rest ↦ some (c, more) ]

-- The match of the pattern at the start of a text, by `ENTITY_MAP`.
unfoldable pub entity_at : String → Option (Char × ℕ)
entity_at s = or_else (entity "&lt;" "<" 3 s) (
    or_else (entity "&gt;" ">" 3 s) (
      or_else (entity "&amp;" "&" 4 s)
        (or_else (entity "&#39;" "'" 4 s) (entity "&#34;" "\"" 4 s))))

-- `s.replace(/&(?:lt|gt|amp|#39|#34);/g, …)`: the first argument counts the characters that the
-- last match still covers.
unfoldable pub decode_from : ℕ → String → String
decode_from k [] = []
decode_from (suc k) (c ∷ s) = decode_from k s
decode_from zero (c ∷ s) = elim (entity_at (c ∷ s)) [
  | none ↦ c ∷ decode_from zero s
  | some (d, k) ↦ d ∷ decode_from k s
]

unfoldable pub decode_entities : String → String
decode_entities s = decode_from zero s

unfoldable pub sanitize_message : (String → String) → Bool → String → String
sanitize_message purify has_window raw =
    let decoded = decode_entities raw in if has_window then purify decoded else decoded
