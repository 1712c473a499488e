-- ===== src/Grammar/Bounded.antt =====
-- What the cache holds, and how much.
use jolyne.Base.{
  ℕ, suc, ◌≤◌, ◌≡◌, refl, sym, ap, ◌∙◌, true, not, List, [], ◌∷◌, map, none, some, length, ltb,
  String, eq_iff, if_cases, arith, All, Bool-cases, Option-cases, inl, inr,
}
use mathlib.Core.Path.{subst}
use jolyne.Grammar.{
  is_transient, cache_max, Answer, ok, fails, Cache, same_key, get, delete, set_at, delete_oldest,
  refresh, store, check_grammar, miss, check_all,
}

module _ (Matches : Type 0) (server : String × String → Answer Matches) where
  -- The entry is what the server answers.
  abbrev pub IsTrue : (String × String) × Matches → Type 0
  IsTrue e = server e.0 ≡ ok e.1

  same_key-server : (k j : String × String) → same_key Matches k j ≡ true → server k ≡ server j
  same_key-server k j h =
      ap (λ a. server (a, k.1)) ((eq_iff k.0 j.0).0 (ground (arith, h)))
      ∙ ap (λ b. server (j.0, b)) ((eq_iff k.1 j.1).0 (ground (arith, h)))

  length-delete :
      (k : String × String) (cache : Cache Matches) → length (delete Matches k cache) ≤ length cache
  length-delete k [] = omega arith
  length-delete k (e ∷ cache) = ground (arith, length-delete k cache)

  get-IsTrue :
      (k : String × String) (hit : Matches) (cache : Cache Matches)
      → All IsTrue cache
      → get Matches k cache ≡ some hit
      → (server k ≡ ok hit) × (suc (length (delete Matches k cache)) ≤ length cache)
  get-IsTrue k hit [] a h = absurd (ground (arith, h))
  get-IsTrue k hit (e ∷ cache) (now, a) h = elim (Bool-cases (same_key Matches k e.0)) [
    | inl b ↦ (
      same_key-server k e.0 b ∙ (now ∙ ap ok (ground (arith, b, h))),
      ground (arith, b, length-delete k cache),
    )
    | inr b ↦
        (let (true_hit, shorter) = get-IsTrue k hit cache a (ground (arith, b, h)) in
          (true_hit, ground (arith, b, shorter)))
  ]

  delete-IsTrue :
      (k : String × String) (cache : Cache Matches)
      → All IsTrue cache
      → All IsTrue (delete Matches k cache)
  delete-IsTrue k [] a = tt
  delete-IsTrue k (e ∷ cache) (now, a) =
      if_cases (All IsTrue) (not (same_key Matches k e.0)) (e ∷ delete Matches k cache)
        (delete Matches k cache) (λ _. (now, delete-IsTrue k cache a))
        (λ _. delete-IsTrue k cache a)

  set_at-IsTrue :
      (k : String × String) (v : Matches) (cache : Cache Matches)
      → server k ≡ ok v
      → All IsTrue cache
      → All IsTrue (set_at Matches k v cache)
  set_at-IsTrue k v [] h a = (h, tt)
  set_at-IsTrue k v (e ∷ cache) h (now, a) =
      if_cases (All IsTrue) (same_key Matches k e.0) ((e.0, v) ∷ cache)
        (e ∷ set_at Matches k v cache) (λ b. (sym (same_key-server k e.0 b) ∙ h, a))
        (λ _. (now, set_at-IsTrue k v cache h a))

  length-set_at :
      (k : String × String) (v : Matches) (cache : Cache Matches)
      → length (set_at Matches k v cache) ≤ suc (length cache)
  length-set_at k v [] = omega arith
  length-set_at k v (e ∷ cache) = ground (arith, length-set_at k v cache)

  -- The cache holds what the server answers, and at most 200 entries.
  pub record IsSound (cache : Cache Matches) : Type 0 where
    pub is_true : All IsTrue cache
    pub is_bounded : length cache ≤ cache_max

  oldest-IsSound :
      (cache : Cache Matches)
      → All IsTrue cache
      → length cache ≤ suc cache_max
      → IsSound (delete_oldest Matches cache)
  oldest-IsSound [] a l = record { is_true = tt; is_bounded = omega arith }
  oldest-IsSound (e ∷ cache) (now, a) l = record { is_true = a; is_bounded = omega (arith, l) }

  store-IsSound :
      (k : String × String) (v : Matches) (cache : Cache Matches)
      → server k ≡ ok v
      → IsSound cache
      → IsSound (store Matches k v cache)
  unfolding store
  store-IsSound k v cache h s =
      let a = set_at-IsTrue k v cache h s.is_true in
      let l = length-set_at k v cache in
      if_cases IsSound (ltb cache_max (length (set_at Matches k v cache)))
        (delete_oldest Matches (set_at Matches k v cache)) (set_at Matches k v cache)
        (λ b. oldest-IsSound (set_at Matches k v cache) a (omega (arith, l, s.is_bounded)))
        (λ b. record { is_true = a; is_bounded = ground (arith, b) })

  refresh-IsSound :
      (k : String × String) (hit : Matches) (cache : Cache Matches)
      → get Matches k cache ≡ some hit
      → IsSound cache
      → IsSound (refresh Matches k hit cache)
  unfolding refresh
  refresh-IsSound k hit cache h s =
      let (here, shorter) = get-IsTrue k hit cache s.is_true h in
      record {
        is_true =
            set_at-IsTrue k hit (delete Matches k cache) here (delete-IsTrue k cache s.is_true);
        is_bounded =
            omega (arith, shorter, s.is_bounded, length-set_at k hit (delete Matches k cache));
      }

  -- A check leaves a sound cache, and has the result that the server gives.
  abbrev IsFaithful : Answer Matches → Cache Matches × Answer Matches × ℕ → Type 0
  IsFaithful answer r = IsSound r.0 × (r.1 ≡ answer) × (r.2 ≤ 2)

  miss-IsFaithful :
      (k : String × String) (answer : Answer Matches) (cache : Cache Matches)
      → server k ≡ answer
      → IsSound cache
      → IsFaithful answer (miss Matches k answer answer cache)
  unfolding miss
  miss-IsFaithful k (ok matches) cache h s = (store-IsSound k matches cache h s, refl, omega arith)
  miss-IsFaithful k (fails e) cache h s =
      if_cases (IsFaithful (fails e)) (is_transient e) (cache, fails e, 2) (cache, fails e, 1)
        (λ _. (s, refl, omega arith)) (λ _. (s, refl, omega arith))

  check_grammar-IsFaithful :
      (k : String × String) (cache : Cache Matches)
      → IsSound cache
      → IsFaithful (server k) (check_grammar Matches k.1 k.0 (server k) (server k) cache)
  unfolding check_grammar
  check_grammar-IsFaithful k cache s = elim (Option-cases (get Matches k cache)) [
    | inl e ↦
        subst
          (λ o. IsFaithful (server k) (elim o [
            | none ↦ miss Matches k (server k) (server k) cache
            | some hit ↦ (refresh Matches k hit cache, ok hit, 0)
          ]))
          (sym e) (miss-IsFaithful k (server k) cache refl s)
    | inr (hit, e) ↦
        subst
          (λ o. IsFaithful (server k) (elim o [
            | none ↦ miss Matches k (server k) (server k) cache
            | some hit ↦ (refresh Matches k hit cache, ok hit, 0)
          ]))
          (sym e)
          (refresh-IsSound k hit cache e s, sym (get-IsTrue k hit cache s.is_true e).0, omega arith)
  ]

  check_all-IsSound :
      (ks : List (String × String)) (cache : Cache Matches)
      → IsSound cache
      → IsSound (check_all Matches server ks cache).0
        × ((check_all Matches server ks cache).1 ≡ map server ks)
  unfolding check_all
  check_all-IsSound [] cache s = (s, refl)
  check_all-IsSound (k ∷ ks) cache s =
      let (sound, same, few) = check_grammar-IsFaithful k cache s in
      let (end, results) =
        check_all-IsSound ks (check_grammar Matches k.1 k.0 (server k) (server k) cache).0 sound in
      (
        end,
        ap
              (λ a.
                a
                ∷ (check_all Matches server ks
                    (check_grammar Matches k.1 k.0 (server k) (server k) cache).0).1)
              same
            ∙ ap (λ l. server k ∷ l) results,
      )

  -- Where the server answers the same to the same text in the same language, whatever is checked in
  -- whatever order has the results that the server gives, failures included, and the cache never holds
  -- more than 200 of them, each as the server gives it.
  pub check_all-nil :
      (ks : List (String × String))
      → IsSound (check_all Matches server ks []).0
        × ((check_all Matches server ks []).1 ≡ map server ks)
  check_all-nil ks = check_all-IsSound ks [] record { is_true = tt; is_bounded = omega arith }
