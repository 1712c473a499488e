-- ===== src/Cards/Picking.antt =====
-- Tokens that hold the words of a phrase can be put in the order of the phrase.
use jolyne.Base.{
  ℕ, zero, suc, ◌+◌, ◌≤◌, ◌<◌, ◌≡◌, refl, Bool, true, false, not, ◌&&◌, ◌||◌, inl, inr, List, [],
  ◌∷◌, ◌++◌, map, some, get_elem?, get_or, length, String, str_eq, eq_iff, ◌==◌, ltb, if◌then◌else◌,
  arith, Bool-cases,
}
use mathlib.Core.Path.{subst}
use text.Mathlib.TextPositions.{eq_refl}
use jolyne.Learn.Counting.{count}
use jolyne.Cards.{has}

-- How many tokens from the position i on are the word w and are not taken.
abbrev pub left : String → List ℕ → ℕ → List String → ℕ
left w built i [] = 0
left w built i (x ∷ xs) =
    (if str_eq w x && not (has i built) then 1 else 0) + left w built (suc i) xs

pub left-count : (w : String) (i : ℕ) (xs : List String) → left w [] i xs ≡ count (str_eq w) xs
left-count w i [] = refl
left-count w i (x ∷ xs) = ground (arith, left-count w (suc i) xs)

has-append : (k p : ℕ) (is : List ℕ) → has k (is ++ p ∷ []) ≡ (has k is || k == p)
has-append k p [] = ground arith
has-append k p (i ∷ is) = ground (arith, has-append k p is)

left-before :
    (w : String) (built : List ℕ) (p i : ℕ) (xs : List String)
    → p < i
    → left w (built ++ p ∷ []) i xs ≡ left w built i xs
left-before w built p i [] h = refl
left-before w built p i (x ∷ xs) h =
    ground (arith, has-append i p built, left-before w built p (suc i) xs (omega arith))

-- Taking a token takes one from its word, and none from another one.
left-append :
    (w x : String) (built : List ℕ) (p i j : ℕ) (xs : List String)
    → p ≡ i + j
    → get_elem? xs j ≡ some x
    → has p built ≡ false
    → left w (built ++ p ∷ []) i xs + (if str_eq w x then 1 else 0) ≡ left w built i xs
left-append w x built p i j [] e g n = ground (arith, g)
left-append w x built p i zero (y ∷ ys) e g n =
    ground (arith, e, g, n, has-append i p built, left-before w built p (suc i) ys (omega arith))
left-append w x built p i (suc j) (y ∷ ys) e g n =
    ground
      (arith, e, n, has-append i p built, left-append w x built p (suc i) j ys (omega arith) g n)

-- A word that is left stands at some position.
find :
    (w : String) (built : List ℕ) (i : ℕ) (xs : List String)
    → 0 < left w built i xs
    → (j : ℕ) × (get_elem? xs j ≡ some w) × (has (i + j) built ≡ false)
find w built i [] h = absurd (omega arith)
find w built i (x ∷ xs) h = elim (Bool-cases (str_eq w x && not (has i built))) [
  | inl e ↦ (0, ground (arith, e, eq_iff w x), ground (arith, e))
  | inr e ↦
      (let (j, g, n) = find w built (suc i) xs (ground (arith, e)) in
        (suc j, g, subst (λ k. has k built ≡ false) (omega arith) n))
]

get_or-get_elem? :
    (xs : List String) (j : ℕ) (w : String)
    → get_elem? xs j ≡ some w
    → (get_or xs j "" ≡ w) × (j < length xs)
get_or-get_elem? [] j w g = ground (arith, g)
get_or-get_elem? (x ∷ xs) zero w g = ground (arith, g)
get_or-get_elem? (x ∷ xs) (suc j) w g = ground (arith, get_or-get_elem? xs j w g)

-- The positions is can be clicked one after the other, from `built` on.
abbrev pub are_free : ℕ → List ℕ → List ℕ → Bool
are_free n built [] = true
are_free n built (i ∷ is) = ltb i n && not (has i built) && are_free n (built ++ i ∷ []) is

-- Where each word is left as often as it is needed, positions of the words can be chosen in order.
pub pick :
    (tokens ws : List String) (built : List ℕ)
    → ((w : String) → count (str_eq w) ws ≤ left w built 0 tokens)
    → (is : List ℕ) × (map (λ i. get_or tokens i "") is ≡ ws)
      × (are_free (length tokens) built is ≡ true)
pick tokens [] built h = ([], refl, refl)
pick tokens (w ∷ ws) built h =
    let (j, g, n) = find w built 0 tokens (ground (arith, h w, eq_refl w)) in
    let free : has j built ≡ false = subst (λ k. has k built ≡ false) (omega arith) n in
    let (is, e, f) =
      pick tokens ws (built ++ j ∷ [])
        (λ v. ground (arith, h v, left-append v w built j 0 j tokens (omega arith) g free)) in
    let (at, below) = get_or-get_elem? tokens j w g in (j ∷ is, cc, ground (arith, below, free, f))
