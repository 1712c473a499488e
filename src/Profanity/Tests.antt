-- ===== src/Profanity/Tests.antt =====
-- The list of refused words on concrete texts.
use jolyne.Base.{ℕ, ◌≡◌, refl, Bool, true, false, ◌||◌, [], ◌∷◌}
use jolyne.Profanity.{contains_profanity}
use jolyne.Profanity.Disguise.{
  is_letter, is_digit, ended, letter, noise, contains_profanity-Disguise,
}

abbrev is_alnum : ℕ → Bool
is_alnum c = is_letter c || is_digit c

hidden_example : contains_profanity (λ s. s) is_alnum "ok l0-lí" ≡ true
hidden_example =
    contains_profanity-Disguise (λ s. s) is_alnum (λ c h. h) "loli" "ok l0-lí"
      (0x6F ∷ 0x6B ∷ 0x20 ∷ []) (0x6C ∷ 0x30 ∷ 0x2D ∷ 0x6C ∷ 0xED ∷ []) [] refl
      (letter 0x6C 0x6C refl refl (
        letter 0x6F 0x30 refl refl
          (noise 0x2D refl (letter 0x6C 0x6C refl refl (letter 0x69 0xED refl refl ended)))))
      refl

harmless : contains_profanity (λ s. s) is_alnum "bonjour" ≡ false
unfolding contains_profanity
harmless = refl
