-- ===== src/Auth/Tests.antt =====
-- The form on concrete texts.
use jolyne.Base.{ℕ, ◌≡◌, refl, ◌↔◌, Bool, true, false, ◌&&◌, ◌||◌, All, leb, ltb, arith}
use jolyne.Base.Text.{is_space}
use jolyne.Auth.Password.{
  AreDisjoint, password_valid, validate_password, contains, rune_count, utf16_length,
  password_valid-validate_password,
}
use jolyne.Auth.Email.{is_email, IsAddress, is_email_iff}
use jolyne.Auth.Form.{AuthForm, started, signup, submits, react}
use jolyne.Auth.Calls.{IsValidIn, react-IsValidIn}

abbrev is_upper : ℕ → Bool
is_upper c = leb 0x41 c && leb c 0x5A

abbrev is_lower : ℕ → Bool
is_lower c = leb 0x61 c && leb c 0x7A

abbrev is_digit : ℕ → Bool
is_digit c = leb 0x30 c && leb c 0x39

AreDisjoint-ascii : AreDisjoint is_upper is_lower is_digit
AreDisjoint-ascii c = ground arith

-- Six characters, nine units.
divergent : validate_password is_upper is_lower is_digit "Aa1😀😀😀" ≡ false
unfolding validate_password
divergent = refl

password_example : password_valid is_upper is_lower is_digit "Aa1😀😀😀" ≡ (
    validate_password is_upper is_lower is_digit "Aa1😀😀😀"
    || (contains is_upper "Aa1😀😀😀"
        && contains is_lower "Aa1😀😀😀"
        && contains is_digit "Aa1😀😀😀"
        && ltb (rune_count "Aa1😀😀😀") 8
        && leb 8 (utf16_length "Aa1😀😀😀")))
password_example =
    password_valid-validate_password is_upper is_lower is_digit AreDisjoint-ascii "Aa1😀😀😀"

email_example : (is_email "ana@mail.jolyne.app" ≡ true) ↔ IsAddress "ana@mail.jolyne.app"
email_example = is_email_iff "ana@mail.jolyne.app"

two_signs : is_email "ana@ana@jolyne.app" ≡ false
unfolding is_email is_space
two_signs = refl

abbrev filled : AuthForm ℕ
filled = record (started ℕ signup) {
  email = " ana@jolyne.app ";
  password = "Bonjour1";
  password_confirm = "Bonjour1";
}

IsValidIn-filled :
    All
      (IsValidIn ℕ is_upper is_lower is_digit filled)
      (react ℕ is_upper is_lower is_digit submits filled).1
IsValidIn-filled = react-IsValidIn ℕ is_upper is_lower is_digit submits filled
