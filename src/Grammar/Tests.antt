-- ===== src/Grammar/Tests.antt =====
-- The cache of the checks on a concrete server.
use jolyne.Base.{ℕ, ◌≡◌, refl, List, [], ◌∷◌, map, String, str_eq, if◌then◌else◌}
use jolyne.Grammar.{Answer, ok, fails, grammar_error, check_all, check_grammar}
use jolyne.Grammar.Bounded.{IsSound, check_all-nil}

abbrev server : String × String → Answer ℕ
server k = if str_eq k.1 "bad" then fails (grammar_error 503) else ok 1

abbrev asked : List (String × String)
asked = ("fr", "salut") ∷ ("fr", "bad") ∷ ("es", "salut") ∷ ("fr", "salut") ∷ []

once_more : (check_grammar ℕ "salut" "fr" (fails (grammar_error 503)) (ok 1) []).1 ≡ ok 1
unfolding check_grammar
once_more = refl

cached_example :
    IsSound ℕ server (check_all ℕ server asked []).0
    × ((check_all ℕ server asked []).1 ≡ map server asked)
cached_example = check_all-nil ℕ server asked
