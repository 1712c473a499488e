-- ===== src/Auth/Password.antt =====
-- frontend/src/lib/password.ts, beside `ValidatePassword` of backend/internal/users/store.go. The
-- classes of Unicode that both consult are parameters, on the numbers of the characters.
use Prim.Native.Char.{code}
use Prim.Native.String.{[], ◌∷◌}
use jolyne.Base.{
  ℕ, suc, ◌+◌, ◌≤◌, ◌≡◌, Bool, true, false, not, ◌&&◌, ◌||◌, List, [], ◌∷◌, leb, ltb, String,
  if◌then◌else◌, arith,
}

-- `s.length`: characters beyond the first plane take two units.
unfoldable pub utf16_length : String → ℕ
utf16_length [] = 0
utf16_length (c ∷ s) = (if leb 0x10000 (code c) then 2 else 1) + utf16_length s

-- `/\p{…}/u.test(s)`
unfoldable pub contains : (ℕ → Bool) → String → Bool
contains p [] = false
contains p (c ∷ s) = p (code c) || contains p s

pub data PasswordCriterion : Type 0 where
  length upper lower digit : PasswordCriterion

abbrev pub password_criteria : List PasswordCriterion
password_criteria = length ∷ upper ∷ lower ∷ digit ∷ []

abbrev pub password_min : ℕ
password_min = 8

module _ (is_upper is_lower is_digit : ℕ → Bool) where
  unfoldable pub check_password_criterion : PasswordCriterion → String → Bool
  unfolding utf16_length contains
  check_password_criterion length password = leb 8 (utf16_length password)
  check_password_criterion upper password = contains is_upper password
  check_password_criterion lower password = contains is_lower password
  check_password_criterion digit password = contains is_digit password

  abbrev pub every_criterion : List PasswordCriterion → String → Bool
  every_criterion [] password = true
  every_criterion (c ∷ cs) password =
      check_password_criterion c password && every_criterion cs password

  unfoldable pub password_valid : String → Bool
  unfolding check_password_criterion
  password_valid password = every_criterion password_criteria password

  -- The loop of the server's `ValidatePassword`: whether the classes were met, and the characters.
  pub record Scan : Type 0 where
    pub met_upper : Bool
    pub met_lower : Bool
    pub met_digit : Bool
    pub runes : ℕ

  unfoldable pub scan_rune : ℕ → Scan → Scan
  scan_rune c s =
      let s' = record s { runes = suc s.runes } in
      if is_upper c
      then record s' { met_upper = true }
      else if is_lower c
      then record s' { met_lower = true }
      else if is_digit c
      then record s' { met_digit = true }
      else s'

  unfoldable pub scan : String → Scan → Scan
  unfolding scan_rune
  scan [] s = s
  scan (c ∷ pw) s = scan pw (scan_rune (code c) s)

  unfoldable pub validate_password : String → Bool
  unfolding scan
  validate_password pw =
      let s =
        scan pw record { met_upper = false; met_lower = false; met_digit = false; runes = 0 } in
      not (ltb s.runes password_min || not s.met_upper || not s.met_lower || not s.met_digit)

-- The number of characters.
abbrev pub rune_count : String → ℕ
rune_count [] = 0
rune_count (c ∷ s) = suc (rune_count s)

rune_count_le : (s : String) → rune_count s ≤ utf16_length s
unfolding utf16_length
rune_count_le [] = omega arith
rune_count_le (c ∷ s) = ground (arith, rune_count_le s)

module _ (is_upper is_lower is_digit : ℕ → Bool) where
  -- No character is of two of the classes.
  abbrev pub AreDisjoint : Type 0
  AreDisjoint =
      (c : ℕ)
      → ((is_upper c && is_lower c) ≡ false)
        × ((is_upper c && is_digit c) ≡ false)
        × ((is_lower c && is_digit c) ≡ false)

  scan_lem :
      AreDisjoint
      → (pw : String) (s : Scan is_upper is_lower is_digit)
      → scan is_upper is_lower is_digit pw s ≡ record {
        met_upper = s.met_upper || contains is_upper pw;
        met_lower = s.met_lower || contains is_lower pw;
        met_digit = s.met_digit || contains is_digit pw;
        runes = s.runes + rune_count pw;
      }
  unfolding scan contains
  scan_lem d [] s = ground arith
  scan_lem d (c ∷ pw) s =
      ground (arith, d (code c), scan_lem d pw (scan_rune is_upper is_lower is_digit (code c) s))

  -- The criteria of the form accept exactly the passwords that the server accepts, and those with an
  -- upper-case letter, a lower-case one and a digit that have fewer than eight characters but eight
  -- UTF-16 units or more, which the server refuses; no character being of two of the classes.
  pub password_valid-validate_password :
      AreDisjoint
      → (pw : String)
      → password_valid is_upper is_lower is_digit pw ≡ (
          validate_password is_upper is_lower is_digit pw
          || (contains is_upper pw
              && contains is_lower pw
              && contains is_digit pw
              && ltb (rune_count pw) 8
              && leb 8 (utf16_length pw)))
  unfolding password_valid validate_password
  password_valid-validate_password d pw = ground (
    arith,
    scan_lem d pw record { met_upper = false; met_lower = false; met_digit = false; runes = 0 },
    rune_count_le pw,
  )
