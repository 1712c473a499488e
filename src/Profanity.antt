-- ===== src/Profanity.antt =====
-- frontend/src/lib/profanity.ts: the list of refused words. `toLowerCase` and the test
-- `/[\p{L}\p{N}]/u` of a character are parameters.
pub mod Disguise
pub mod Tests
use Prim.Native.Char.{Char, code}
use Prim.Native.String.{[], ◌∷◌}
use jolyne.Base.{
  ℕ, Bool, true, false, ◌&&◌, ◌||◌, List, [], ◌∷◌, any, String, ◌==◌, leb, if◌then◌else◌,
}

abbrev pub terms : List String
terms =
    "porn" ∷ "sexe" ∷ "fuck" ∷ "puta" ∷ "pute" ∷ "anal" ∷ "nigger" ∷ "faggot" ∷ "tranny" ∷ "cp"
    ∷ "loli" ∷ "pedo" ∷ "pedophile" ∷ "pedofilo" ∷ []

-- `ACCENT_MAP[raw] ?? raw`, on numbers of characters.
unfoldable pub strip_accent : ℕ → ℕ
strip_accent c =
    if leb 0xE0 c && leb c 0xE5
    then 0x61
    else if leb 0xE8 c && leb c 0xEB
    then 0x65
    else if leb 0xEC c && leb c 0xEF
    then 0x69
    else if leb 0xF2 c && leb c 0xF6
    then 0x6F
    else if leb 0xF9 c && leb c 0xFC
    then 0x75
    else if c == 0xF1
    then 0x6E
    else if c == 0xE7
    then 0x63
    else c

-- `LEET_MAP[stripped] ?? stripped`
unfoldable pub unleet : ℕ → ℕ
unleet c =
    if c == 0x30
    then 0x6F
    else if c == 0x31 || c == 0x21
    then 0x69
    else if c == 0x33
    then 0x65
    else if c == 0x34 || c == 0x40
    then 0x61
    else if c == 0x35 || c == 0x24
    then 0x73
    else if c == 0x37
    then 0x74
    else c

-- The numbers of the characters of a text.
abbrev pub codes : String → List ℕ
codes [] = []
codes (c ∷ s) = code c ∷ codes s

module _ (lower : String → String) (is_alnum : ℕ → Bool) where
  unfoldable pub normalize_codes : List ℕ → List ℕ
  unfolding strip_accent unleet
  normalize_codes [] = []
  normalize_codes (raw ∷ s) =
      let out = normalize_codes s in
      let c = unleet (strip_accent raw) in if is_alnum c then c ∷ out else out

  unfoldable pub normalize : String → List ℕ
  unfolding normalize_codes
  normalize s = normalize_codes (codes (lower s))

abbrev pub starts_with : List ℕ → List ℕ → Bool
starts_with [] s = true
starts_with (t ∷ ts) [] = false
starts_with (t ∷ ts) (c ∷ s) = t == c && starts_with ts s

-- `s.includes(t)`
unfoldable pub has_part : List ℕ → List ℕ → Bool
has_part t [] = starts_with t []
has_part t (c ∷ s) = let later = has_part t s in starts_with t (c ∷ s) || later

module _ (lower : String → String) (is_alnum : ℕ → Bool) where
  unfoldable pub contains_profanity : String → Bool
  unfolding normalize has_part
  contains_profanity s = any (λ t. has_part (codes t) (normalize lower is_alnum s)) terms
