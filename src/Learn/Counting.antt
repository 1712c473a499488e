-- ===== src/Learn/Counting.antt =====
-- What a shuffle and a sample keep, by counting the elements that pass a test.
use jolyne.Base.{
  ℕ, zero, suc, ◌+◌, ◌-◌, ◌%◌, ◌≤◌, ◌≡◌, refl, ◌∙◌, inl, inr, Bool, true, List, [], ◌∷◌, ◌++◌, some,
  length, set, get_elem?, String, str_eq, if◌then◌else◌, ◌==◌, arith, Bool-cases, Option-cases,
  eq_iff, keep, map, take,
}
use text.Mathlib.TextPositions.{eq_refl}
use jolyne.Learn.Shuffle.{swap, shuffle_from, shuffle, sample_from, sample_distinct, includes}

module _ {ℓ} {A : Type ℓ} where
  -- How many elements pass the test.
  abbrev pub count : (A → Bool) → List A → ℕ
  count p [] = 0
  count p (x ∷ xs) = (if p x then 1 else 0) + count p xs

  pub count-append : (p : A → Bool) (xs ys : List A) → count p (xs ++ ys) ≡ count p xs + count p ys
  count-append p [] ys = omega arith
  count-append p (x ∷ xs) ys = omega (arith, count-append p xs ys)

  count-set :
      (p : A → Bool) (xs : List A) (i : ℕ) (v w : A)
      → get_elem? xs i ≡ some w
      → count p (set xs i v) + (if p w then 1 else 0) ≡ count p xs + (if p v then 1 else 0)
  count-set p [] i v w h = ground arith
  count-set p (x ∷ xs) zero v w h = ground arith
  count-set p (x ∷ xs) (suc i) v w h = omega (arith, count-set p xs i v w h)

  get_elem?-set :
      (xs : List A) (i j : ℕ) (v y : A)
      → get_elem? xs j ≡ some y
      → get_elem? (set xs i v) j ≡ some (if i == j then v else y)
  get_elem?-set [] i j v y h = ground arith
  get_elem?-set (x ∷ xs) zero zero v y h = refl
  get_elem?-set (x ∷ xs) zero (suc j) v y h = ground arith
  get_elem?-set (x ∷ xs) (suc i) zero v y h = ground arith
  get_elem?-set (x ∷ xs) (suc i) (suc j) v y h = ground (arith, get_elem?-set xs i j v y h)

  count-swap : (p : A → Bool) (i j : ℕ) (a : List A) → count p (swap i j a) ≡ count p a
  unfolding swap
  count-swap p i j a = elim (Option-cases (get_elem? a i)) [
    | inl e ↦ rw (e, swap) refl
    | inr (x, e) ↦
        rw (e, swap)
          (elim (Option-cases (get_elem? a j)) [
            | inl k ↦ rw k refl
            | inr (y, k) ↦ rw k (
                ground (
                  arith,
                  count-set p a i y x e,
                  count-set p (set a i y) j x (if i == j then y else y) (get_elem?-set a i j y y k),
                ))
          ])
  ]

  count-shuffle_from :
      (p : A → Bool) (draw : ℕ → ℕ) (i : ℕ) (a : List A)
      → count p (shuffle_from draw i a) ≡ count p a
  unfolding shuffle_from
  count-shuffle_from p draw zero a = refl
  count-shuffle_from p draw (suc i) a =
      count-shuffle_from p draw i _ ∙ count-swap p (suc i) (draw (suc i) % suc (suc i)) a

  pub count-shuffle :
      (p : A → Bool) (draw : ℕ → ℕ) (a : List A) → count p (shuffle draw a) ≡ count p a
  unfolding shuffle
  count-shuffle p draw a = count-shuffle_from p draw (length a - 1) a

  pub length-count : (xs : List A) → length xs ≡ count (λ x. true) xs
  length-count [] = refl
  length-count (x ∷ xs) = omega (arith, length-count xs)

  pub count-keep : (p q : A → Bool) (xs : List A) → count p (keep q xs) ≤ count p xs
  count-keep p q [] = omega arith
  count-keep p q (x ∷ xs) = ground (arith, count-keep p q xs)

  pub count-take : (p : A → Bool) (n : ℕ) (xs : List A) → count p (take n xs) ≤ count p xs
  count-take p zero xs = omega arith
  count-take p (suc n) [] = omega arith
  count-take p (suc n) (x ∷ xs) = omega (arith, count-take p n xs)

pub count-map {ℓ ℓ'} :
    {A : Type ℓ}
    → {B : Type ℓ'} → (p : B → Bool) (f : A → B) (xs : List A)
    → count p (map f xs) ≡ count (λ x. p (f x)) xs
count-map p f [] = refl
count-map p f (x ∷ xs) = omega (arith, count-map p f xs)

-- A value that the sample excludes, or has already taken, is not sampled.
count-sample_from_seen :
    (w : String) (pool seen : List String) (n : ℕ)
    → includes w seen ≡ true
    → count (str_eq w) (sample_from pool seen n) ≡ 0
unfolding sample_from
count-sample_from_seen w [] seen n h = refl
count-sample_from_seen w (v ∷ vs) seen zero h = refl
count-sample_from_seen w (v ∷ vs) seen (suc n) h = ground (
  arith,
  eq_iff w v,
  count-sample_from_seen w vs seen (suc n) h,
  count-sample_from_seen w vs (v ∷ seen) n (ground arith),
)

count-sample_from_once :
    (w : String) (pool seen : List String) (n : ℕ) → count (str_eq w) (sample_from pool seen n) ≤ 1
unfolding sample_from
count-sample_from_once w [] seen n = omega arith
count-sample_from_once w (v ∷ vs) seen zero = omega arith
count-sample_from_once w (v ∷ vs) seen (suc n) = elim (Bool-cases (str_eq w v)) [
  | inl e ↦ ground (
    arith,
    count-sample_from_once w vs seen (suc n),
    count-sample_from_seen w vs (v ∷ seen) n (ground arith),
  )
  | inr e ↦
      ground
        (arith, count-sample_from_once w vs seen (suc n), count-sample_from_once w vs (v ∷ seen) n)
]

count-sample_from :
    (p : String → Bool) (pool seen : List String) (n : ℕ)
    → count p (sample_from pool seen n) ≤ count p pool
unfolding sample_from
count-sample_from p [] seen n = omega arith
count-sample_from p (v ∷ vs) seen zero = omega arith
count-sample_from p (v ∷ vs) seen (suc n) =
    ground (arith, count-sample_from p vs seen (suc n), count-sample_from p vs (v ∷ seen) n)

length-sample_from : (pool seen : List String) (n : ℕ) → length (sample_from pool seen n) ≤ n
unfolding sample_from
length-sample_from [] seen n = omega arith
length-sample_from (v ∷ vs) seen zero = omega arith
length-sample_from (v ∷ vs) seen (suc n) =
    ground (arith, length-sample_from vs seen (suc n), length-sample_from vs (v ∷ seen) n)

module _ (draw : ℕ → ℕ) (pool : List String) (exclude : String) (n : ℕ) where
  -- `sample_distinct` draws at most n values of the pool, each once, and never the excluded one.
  pub sample_distinct_lem :
      ((w : String) → count (str_eq w) (sample_distinct draw pool exclude n) ≤ 1)
      × (count (str_eq exclude) (sample_distinct draw pool exclude n) ≡ 0)
      × ((p : String → Bool) → count p (sample_distinct draw pool exclude n) ≤ count p pool)
      × (length (sample_distinct draw pool exclude n) ≤ n)
  unfolding sample_distinct
  sample_distinct_lem = (
    (λ w. count-sample_from_once w (shuffle draw pool) _ n),
    count-sample_from_seen exclude (shuffle draw pool) _ n (rw (eq_refl exclude) refl),
    (λ p. omega (
      arith,
      count-sample_from p (shuffle draw pool) (exclude ∷ []) n,
      count-shuffle p draw pool,
    )),
    length-sample_from (shuffle draw pool) _ n,
  )
