-- ===== src/Pii/Tests.antt =====
-- The search for personal data on concrete messages.
use jolyne.Base.{
  ℕ, ◌≡◌, ◌++◌, refl, true, false, List, [], ◌∷◌, none, some, is_some, String, map, ◌↔◌,
}
use jolyne.Base.Text.{trim}
use jolyne.Profanity.{codes}
use jolyne.MessageInput.{MessageInput, started, warns, submit}
use jolyne.Pii.{url, email, phone, handle, detect_pii, phone_re, test}
use jolyne.Pii.Search.{Occurs, test_iff}
use jolyne.Pii.Phone.{Group, submit_phone}

finds_url : detect_pii "vois WWW.Exemple" ≡ some url
unfolding detect_pii jolyne.Base.Text.is_space
finds_url = refl

finds_path : detect_pii "t.me/ana" ≡ some url
unfolding detect_pii jolyne.Base.Text.is_space
finds_path = refl

finds_email : detect_pii "a.b+c@mail.example.fr !" ≡ some email
unfolding detect_pii jolyne.Base.Text.is_space
finds_email = refl

finds_phone : detect_pii "+33 6.12-34(56)78" ≡ some phone
unfolding detect_pii jolyne.Base.Text.is_space
finds_phone = refl

finds_handle : detect_pii "insta @ana_b" ≡ some handle
unfolding detect_pii jolyne.Base.Text.is_space
finds_handle = refl

finds_none : detect_pii "rdv @12 le 01/02/2024" ≡ none
unfolding detect_pii jolyne.Base.Text.is_space
finds_none = refl

test_example :
    (test phone_re (codes "tel 061234567") ≡ true) ↔ Occurs phone_re false (codes "tel 061234567")
test_example = test_iff phone_re (codes "tel 061234567")

abbrev draft : MessageInput
draft = record started { draft = " tel 06.12345678 " }

abbrev plain : ℕ → Group
plain d = record { separator = none; digit = d }

abbrev after_zero : List Group
after_zero =
    plain 0x36
    ∷ record { separator = some 0x2E; digit = 0x31 }
    ∷ plain 0x32
    ∷ plain 0x33
    ∷ plain 0x34
    ∷ plain 0x35
    ∷ plain 0x36
    ∷ plain 0x37
    ∷ []

phone_example :
    submit (λ body. is_some (detect_pii body)) false true draft
    ≡ (record draft { pii_pending = true }, warns (trim draft.draft) ∷ [])
unfolding trim
phone_example = submit_phone draft true (codes "tel ") 0x30 after_zero (codes "8") refl refl refl (
  (tt, refl),
  (
    (refl, refl),
    ((tt, refl), ((tt, refl), ((tt, refl), ((tt, refl), ((tt, refl), ((tt, refl), tt)))))),
  ),
)
