-- ===== src/Profanity/Disguise.antt =====
-- Refused words that are disguised.
use jolyne.Base.{
  ℕ, ◌≡◌, refl, sym, ap, ◌∙◌, Bool, true, false, not, ◌&&◌, ◌||◌, List, [], ◌∷◌, ◌++◌, any, String,
  str_eq, eq_iff, ◌==◌, leb, if◌then◌else◌, if_cases, All, arith, Bool-cases, inl, inr,
}
use mathlib.Core.Path.{subst}
use jolyne.Learn.Shuffle.{includes}
use jolyne.Profanity.{
  terms, strip_accent, unleet, codes, normalize_codes, normalize, starts_with, has_part,
  contains_profanity,
}

abbrev pub is_letter : ℕ → Bool
is_letter c = leb 0x61 c && leb c 0x7A

abbrev pub is_digit : ℕ → Bool
is_digit c = leb 0x30 c && leb c 0x39

abbrev forms_of_a : List ℕ
forms_of_a = 0xE0 ∷ 0xE1 ∷ 0xE2 ∷ 0xE3 ∷ 0xE4 ∷ 0xE5 ∷ 0x34 ∷ 0x40 ∷ []

abbrev forms_of_c : List ℕ
forms_of_c = 0xE7 ∷ []

abbrev forms_of_e : List ℕ
forms_of_e = 0xE8 ∷ 0xE9 ∷ 0xEA ∷ 0xEB ∷ 0x33 ∷ []

abbrev forms_of_i : List ℕ
forms_of_i = 0xEC ∷ 0xED ∷ 0xEE ∷ 0xEF ∷ 0x31 ∷ 0x21 ∷ []

abbrev forms_of_n : List ℕ
forms_of_n = 0xF1 ∷ []

abbrev forms_of_o : List ℕ
forms_of_o = 0xF2 ∷ 0xF3 ∷ 0xF4 ∷ 0xF5 ∷ 0xF6 ∷ 0x30 ∷ []

abbrev forms_of_s : List ℕ
forms_of_s = 0x35 ∷ 0x24 ∷ []

abbrev forms_of_t : List ℕ
forms_of_t = 0x37 ∷ []

abbrev forms_of_u : List ℕ
forms_of_u = 0xF9 ∷ 0xFA ∷ 0xFB ∷ 0xFC ∷ []

-- The other characters that a letter is written with.
abbrev pub disguises_of : ℕ → List ℕ
disguises_of t =
    if t == 0x61
    then forms_of_a
    else if t == 0x63
    then forms_of_c
    else if t == 0x65
    then forms_of_e
    else if t == 0x69
    then forms_of_i
    else if t == 0x6E
    then forms_of_n
    else if t == 0x6F
    then forms_of_o
    else if t == 0x73
    then forms_of_s
    else if t == 0x74
    then forms_of_t
    else if t == 0x75
    then forms_of_u
    else []

abbrev pub looks_like : ℕ → ℕ → Bool
looks_like t x = x == t || any (λ d. x == d) (disguises_of t)

-- The character is read as the letter.
abbrev Reads : ℕ → ℕ → Type 0
Reads t x = unleet (strip_accent x) ≡ t

fits : (t k : ℕ) (ds : List ℕ) → (t == k) ≡ true → All (Reads k) ds → All (Reads t) ds
fits t k ds e h = subst (λ u. All (Reads u) ds) (ground (arith, e)) h

disguises_of-Reads : (t : ℕ) → All (Reads t) (disguises_of t)
unfolding unleet strip_accent
disguises_of-Reads t =
    if_cases (All (Reads t)) (t == 0x61) _ _
      (λ e.
        fits t 0x61 forms_of_a e (refl, (refl, (refl, (refl, (refl, (refl, (refl, (refl, tt)))))))))
      (λ _.
        if_cases (All (Reads t)) (t == 0x63) _ _ (λ e. fits t 0x63 forms_of_c e (refl, tt))
          (λ _.
            if_cases (All (Reads t)) (t == 0x65) _ _
              (λ e. fits t 0x65 forms_of_e e (refl, (refl, (refl, (refl, (refl, tt))))))
              (λ _.
                if_cases (All (Reads t)) (t == 0x69) _ _
                  (λ e. fits t 0x69 forms_of_i e (refl, (refl, (refl, (refl, (refl, (refl, tt)))))))
                  (λ _.
                    if_cases (All (Reads t)) (t == 0x6E) _ _
                      (λ e. fits t 0x6E forms_of_n e (refl, tt))
                      (λ _.
                        if_cases (All (Reads t)) (t == 0x6F) _ _
                          (λ e.
                            fits t 0x6F forms_of_o e
                              (refl, (refl, (refl, (refl, (refl, (refl, tt)))))))
                          (λ _.
                            if_cases (All (Reads t)) (t == 0x73) _ _
                              (λ e. fits t 0x73 forms_of_s e (refl, (refl, tt)))
                              (λ _.
                                if_cases (All (Reads t)) (t == 0x74) _ _
                                  (λ e. fits t 0x74 forms_of_t e (refl, tt))
                                  (λ _.
                                    if_cases (All (Reads t)) (t == 0x75) _ _
                                      (λ e.
                                        fits t 0x75 forms_of_u e (refl, (refl, (refl, (refl, tt)))))
                                      (λ _. tt)))))))))

any-Reads : (t x : ℕ) (ds : List ℕ) → All (Reads t) ds → any (λ d. x == d) ds ≡ true → Reads t x
any-Reads t x [] h e = ground (arith, e)
any-Reads t x (d ∷ ds) (now, later) e = elim (Bool-cases (x == d)) [
  | inl b ↦ subst (Reads t) (ground (arith, b)) now
  | inr b ↦ any-Reads t x ds later (ground (arith, b, e))
]

letter-Reads : (t : ℕ) → is_letter t ≡ true → Reads t t
unfolding unleet strip_accent
letter-Reads t l = ground (arith, l)

looks_like-Reads : (t x : ℕ) → is_letter t ≡ true → looks_like t x ≡ true → Reads t x
looks_like-Reads t x l h = elim (Bool-cases (x == t)) [
  | inl b ↦ subst (Reads t) (ground (arith, b)) (letter-Reads t l)
  | inr b ↦ any-Reads t x (disguises_of t) (disguises_of-Reads t) (ground (arith, b, h))
]

module _ (is_alnum : ℕ → Bool) where
  -- An ASCII character that is neither a letter, nor a digit, nor one of "!", "$" and "@".
  abbrev pub is_noise : ℕ → Bool
  is_noise x =
      leb x 0x7F && not (is_alnum x) && not (x == 0x21) && not (x == 0x24) && not (x == 0x40)

  -- The characters spell the word, with noise between them and each letter in one of its disguises.
  pub data Disguise : List ℕ → List ℕ → Type 0 where
    ended : Disguise [] []
    letter :
        (t x : ℕ) {ts xs : List ℕ}
        → is_letter t ≡ true
        → looks_like t x ≡ true
        → Disguise ts xs
        → Disguise (t ∷ ts) (x ∷ xs)
    noise : (x : ℕ) {ts xs : List ℕ} → is_noise x ≡ true → Disguise ts xs → Disguise ts (x ∷ xs)

  -- Small letters and digits are letters or digits.
  abbrev pub IsAlnum : Type 0
  IsAlnum = (c : ℕ) → (is_letter c || is_digit c) ≡ true → is_alnum c ≡ true

  noise_lem : IsAlnum → (x : ℕ) → is_noise x ≡ true → is_alnum (unleet (strip_accent x)) ≡ false
  unfolding unleet strip_accent
  noise_lem a x h = ground (arith, h, a x)

starts_with-append : (t s : List ℕ) → starts_with t (t ++ s) ≡ true
starts_with-append [] s = refl
starts_with-append (c ∷ t) s = ground (arith, starts_with-append t s)

has_part-append : (before t after : List ℕ) → has_part t (before ++ (t ++ after)) ≡ true
unfolding has_part
has_part-append [] [] [] = refl
has_part-append [] [] (c ∷ after) = refl
has_part-append [] (c ∷ t) after = ground (arith, starts_with-append t after)
has_part-append (c ∷ before) t after = ground (arith, has_part-append before t after)

any-includes :
    (p : String → Bool) (w : String) (ws : List String)
    → includes w ws ≡ true
    → p w ≡ true
    → any p ws ≡ true
any-includes p w [] i h = ground (arith, i)
any-includes p w (v ∷ ws) i h = elim (Bool-cases (str_eq w v)) [
  | inl e ↦ ground (arith, subst (λ u. p u ≡ true) ((eq_iff w v).0 e) h)
  | inr e ↦ ground (arith, any-includes p w ws (ground (arith, i, e)) h)
]

module _ (lower : String → String) (is_alnum : ℕ → Bool) (alnum : IsAlnum is_alnum) where
  normalize_codes-append :
      (xs ys : List ℕ)
      → normalize_codes lower is_alnum (xs ++ ys)
        ≡ normalize_codes lower is_alnum xs ++ normalize_codes lower is_alnum ys
  unfolding normalize_codes
  normalize_codes-append [] ys = refl
  normalize_codes-append (x ∷ xs) ys = ground (arith, normalize_codes-append xs ys)

  normalize_codes-Disguise :
      (ts xs : List ℕ) → Disguise is_alnum ts xs → normalize_codes lower is_alnum xs ≡ ts
  unfolding normalize_codes
  normalize_codes-Disguise ts xs ended = refl
  normalize_codes-Disguise ts xs (letter t x {ts = us} {xs = ys} l h d) =
      rw (looks_like-Reads t x l h) (ground (arith, alnum t, l, normalize_codes-Disguise us ys d))
  normalize_codes-Disguise ts xs (noise x {ts = us} {xs = ys} h d) =
      ground (arith, noise_lem is_alnum alnum x h, normalize_codes-Disguise us ys d)

  -- A refused word is found wherever it stands in the text, whatever stands around it, even with noise
  -- between its letters and with letters written as digits, signs or with accents; for tests of
  -- characters that take small letters and digits as such.
  pub contains_profanity-Disguise :
      (term s : String) (before xs after : List ℕ)
      → includes term terms ≡ true
      → Disguise is_alnum (codes term) xs
      → codes (lower s) ≡ before ++ (xs ++ after)
      → contains_profanity lower is_alnum s ≡ true
  unfolding contains_profanity normalize
  contains_profanity-Disguise term s before xs after i d e =
      let n = normalize_codes lower is_alnum in
      let found : n (codes (lower s)) ≡ n before ++ (codes term ++ n after) =
        ap n e
        ∙ (normalize_codes-append before (xs ++ after)
            ∙ ap (λ u. n before ++ u)
                (normalize_codes-append xs after
                  ∙ ap (λ u. u ++ n after) (normalize_codes-Disguise (codes term) xs d))) in
      any-includes (λ t. has_part (codes t) (n (codes (lower s)))) term terms i
        (subst (λ u. has_part (codes term) u ≡ true) (sym found)
          (has_part-append (n before) (codes term) (n after)))
