-- ===== src/Grammar.antt =====
-- frontend/src/lib/grammar.ts: the cache of the checks of grammar, and the second try. The answers of
-- `postCheck` are arguments, in the order of its calls. A `Map` is an association list in the order of
-- its insertions; a key holds the language and the text, as the two are joined by a character that no
-- language has. Checks come one after the other, as the field makes them.
pub mod Bounded
pub mod Tests
use jolyne.Base.{
  ℕ, zero, suc, ◌+◌, Bool, true, false, not, ◌&&◌, ◌||◌, List, [], ◌∷◌, ◌++◌, Option, none, some,
  keep, any, leb, ltb, length, String, str_eq, if◌then◌else◌,
}

-- What `postCheck` fails with; a status that an error does not have counts as 0.
pub data Failure : Type 0 where
  grammar_error : (status : ℕ) → Failure
  network_error : Failure
  timeout : Failure

unfoldable pub is_transient : Failure → Bool
is_transient (grammar_error status) = leb 500 status
is_transient network_error = true
is_transient timeout = false

abbrev pub cache_max : ℕ
cache_max = 200

module _ (Matches : Type 0) where
  pub data Answer : Type 0 where
    ok : Matches → Answer
    fails : Failure → Answer

  abbrev pub Cache : Type 0
  Cache = List ((String × String) × Matches)

  abbrev pub same_key : String × String → String × String → Bool
  same_key a b = str_eq a.0 b.0 && str_eq a.1 b.1

  -- `cache.get`
  abbrev pub get : String × String → Cache → Option Matches
  get k [] = none
  get k (e ∷ cache) = let later = get k cache in if same_key k e.0 then some e.1 else later

  -- `cache.delete`
  abbrev pub delete : String × String → Cache → Cache
  delete k cache = keep (λ e. not (same_key k e.0)) cache

  -- `cache.set`: a key that is there keeps its place.
  abbrev pub set_at : String × String → Matches → Cache → Cache
  set_at k v [] = (k, v) ∷ []
  set_at k v (e ∷ cache) =
      let later = set_at k v cache in if same_key k e.0 then (e.0, v) ∷ cache else e ∷ later

  -- `cache.delete(cache.keys().next().value)`
  abbrev pub delete_oldest : Cache → Cache
  delete_oldest [] = []
  delete_oldest (e ∷ cache) = cache

  -- `checkGrammar` on a hit.
  unfoldable pub refresh : String × String → Matches → Cache → Cache
  refresh k hit cache = set_at k hit (delete k cache)

  unfoldable pub store : String × String → Matches → Cache → Cache
  store k matches cache =
      let cache' = set_at k matches cache in
      if ltb cache_max (length cache') then delete_oldest cache' else cache'

  -- `checkGrammar` where the cache does not have the key, whose answers are those to the first call of
  -- `postCheck` and to the second one: the new cache, the result, and the number of calls.
  unfoldable pub miss : String × String → (first second : Answer) → Cache → Cache × Answer × ℕ
  unfolding store is_transient
  miss k (ok matches) second cache = (store k matches cache, ok matches, 1)
  miss k (fails e) (ok matches) cache =
      if is_transient e then (store k matches cache, ok matches, 2) else (cache, fails e, 1)
  miss k (fails e) (fails e') cache =
      if is_transient e then (cache, fails e', 2) else (cache, fails e, 1)

  -- `checkGrammar`
  unfoldable pub check_grammar :
      String → String → (first second : Answer) → Cache → Cache × Answer × ℕ
  unfolding refresh miss
  check_grammar text lang first second cache = elim (get (lang, text) cache) [
    | none ↦ miss (lang, text) first second cache
    | some hit ↦ (refresh (lang, text) hit cache, ok hit, 0)
  ]

  -- Checks one after the other, of languages and texts, where the server answers the same to the same
  -- key.
  unfoldable pub check_all :
      (String × String → Answer) → List (String × String) → Cache → Cache × List Answer
  unfolding check_grammar
  check_all server [] cache = (cache, [])
  check_all server (k ∷ ks) cache =
      let (cache', result, tries) = check_grammar k.1 k.0 (server k) (server k) cache in
      let (end, results) = check_all server ks cache' in (end, result ∷ results)
