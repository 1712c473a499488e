-- ===== src/Langs/Pairs.antt =====
-- Which pairs of languages `isPairAllowed` and `allowedWantsFor` admit.
use jolyne.Base.{
  ℕ, ◌≡◌, refl, sym, ap, ◌∙◌, ◌≢◌, ◌↔◌, Bool, true, false, not, ◌&&◌, Option, none, some, arith,
  List, [], ◌∷◌, keep, get_or, ◌==◌,
}
use jolyne.Langs.{
  LangCode, fr, en, es, de, pt, it, zh, ja, ko, ar, all_langs, allowed_wants_for, is_pair_allowed,
}

abbrev every : (LangCode → Bool) → List LangCode → Bool
every p [] = true
every p (l ∷ ls) = p l && every p ls

-- `all_langs` holds every language, so a test over it covers them.
every_sound : (p : LangCode → Bool) → every p all_langs ≡ true → (l : LangCode) → p l ≡ true
every_sound p h fr = ground arith
every_sound p h en = ground arith
every_sound p h es = ground arith
every_sound p h de = ground arith
every_sound p h pt = ground arith
every_sound p h it = ground arith
every_sound p h zh = ground arith
every_sound p h ja = ground arith
every_sound p h ko = ground arith
every_sound p h ar = ground arith

abbrev agree : Bool → Bool → Bool
agree true b = b
agree false b = not b

agree_sound : (a b : Bool) → agree a b ≡ true → a ≡ b
agree_sound a b h = ground arith

abbrev rank : LangCode → ℕ
rank fr = 0
rank en = 1
rank es = 2
rank de = 3
rank pt = 4
rank it = 5
rank zh = 6
rank ja = 7
rank ko = 8
rank ar = 9

-- What a test over all pairs of languages shows.
every_pair :
    (p : LangCode → LangCode → Bool)
    → every (λ s. every (λ w. p s w) all_langs) all_langs ≡ true
    → (s w : LangCode) → p s w ≡ true
every_pair p h s w = every_sound (p s) (every_sound (λ v. every (p v) all_langs) h s) w

pairs_agree :
    every
      (λ s.
        every (λ w. agree (is_pair_allowed (some s) (some w)) (not (rank s == rank w))) all_langs)
      all_langs
    ≡ true
unfolding is_pair_allowed
pairs_agree = refl

is_pair_allowed-rank : (s w : LangCode) → is_pair_allowed (some s) (some w) ≡ not (rank s == rank w)
is_pair_allowed-rank s w = agree_sound _ _ (
    every_pair (λ u v. agree (is_pair_allowed (some u) (some v)) (not (rank u == rank v)))
      pairs_agree s w)

abbrev at : ℕ → LangCode
at n = get_or all_langs n fr

at-rank : (l : LangCode) → at (rank l) ≡ l
at-rank fr = refl
at-rank en = refl
at-rank es = refl
at-rank de = refl
at-rank pt = refl
at-rank it = refl
at-rank zh = refl
at-rank ja = refl
at-rank ko = refl
at-rank ar = refl

eq_of_rank : (s w : LangCode) → rank s ≡ rank w → s ≡ w
eq_of_rank s w e = sym (at-rank s) ∙ ap at e ∙ at-rank w

-- A pair is allowed exactly when both languages are given and they differ.
pub is_pair_allowed_iff :
    (speaks wants : Option LangCode)
    → (is_pair_allowed speaks wants ≡ true) ↔ ((speaks ≢ none) × (wants ≢ none) × (speaks ≢ wants))
is_pair_allowed_iff none wants =
    (λ e. absurd (unfold is_pair_allowed in cc e), λ h. absurd (h.0 refl))
is_pair_allowed_iff (some s) none =
    (λ e. absurd (unfold is_pair_allowed in cc e), λ h. absurd (h.1 refl))
is_pair_allowed_iff (some s) (some w) = (
  λ e. (
    λ d. cc,
    λ d. cc,
    λ d. ground (
      arith,
      is_pair_allowed-rank s w,
      ap {B = ℕ} (λ o. elim o [ none ↦ 0 | some l ↦ rank l ]) d,
    ),
  ),
  λ h.
      ground (
        arith,
        is_pair_allowed-rank s w,
        λ (e : rank s ≡ rank w). h.2 (ap some (eq_of_rank s w e)),
      ),
)

-- `allowedWantsFor` lists exactly the languages that `isPairAllowed` admits, in the order of display.
pub allowed_wants_for-is_pair_allowed :
    (s : LangCode)
    → allowed_wants_for (some s) ≡ keep (λ w. is_pair_allowed (some s) (some w)) all_langs
unfolding allowed_wants_for is_pair_allowed
allowed_wants_for-is_pair_allowed fr = refl
allowed_wants_for-is_pair_allowed en = refl
allowed_wants_for-is_pair_allowed es = refl
allowed_wants_for-is_pair_allowed de = refl
allowed_wants_for-is_pair_allowed pt = refl
allowed_wants_for-is_pair_allowed it = refl
allowed_wants_for-is_pair_allowed zh = refl
allowed_wants_for-is_pair_allowed ja = refl
allowed_wants_for-is_pair_allowed ko = refl
allowed_wants_for-is_pair_allowed ar = refl
