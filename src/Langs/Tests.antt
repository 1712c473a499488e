-- ===== src/Langs/Tests.antt =====
-- Tests of the language tables.
use jolyne.Base.{◌≡◌, refl, some, [], ◌∷◌}
use jolyne.Langs.{fr, en, es, de, pt, it, zh, ja, ko, ar, allowed_wants_for}

wants_of_ja : allowed_wants_for (some ja) ≡ fr ∷ en ∷ es ∷ de ∷ pt ∷ it ∷ zh ∷ ko ∷ ar ∷ []
unfolding allowed_wants_for
wants_of_ja = refl
