-- ===== src/Pii/Search.antt =====
-- frontend/src/lib/pii.ts: what it means for a text to match, with no order of trying in it.
use jolyne.Base.{
  ℕ, ◌≡◌, refl, Bool, true, false, List, [], ◌∷◌, ◌↔◌, arith, Bool-cases, ◌⊎◌, inl, inr,
}
use jolyne.Pii.{
  Item, boundary, one, opt, plus, star, is_word, starts_word, differ, matches, test_from, test,
}

-- The beginning of the text matches the items.
pub data Matches : List Item → Bool → List ℕ → Type 0 where
  all : {w : Bool} {cs : List ℕ} → Matches [] w cs
  edge :
      {p : List Item} {w : Bool} {cs : List ℕ}
      → differ w (starts_word cs) ≡ true
      → Matches p w cs
      → Matches (boundary ∷ p) w cs
  takes :
      {k : ℕ → Bool} {p : List Item} {w : Bool} {c : ℕ} {cs : List ℕ}
      → k c ≡ true
      → Matches p (is_word c) cs
      → Matches (one k ∷ p) w (c ∷ cs)
  leaves :
      {k : ℕ → Bool} {p : List Item} {w : Bool} {cs : List ℕ}
      → Matches p w cs
      → Matches (opt k ∷ p) w cs
  has :
      {k : ℕ → Bool} {p : List Item} {w : Bool} {c : ℕ} {cs : List ℕ}
      → k c ≡ true
      → Matches p (is_word c) cs
      → Matches (opt k ∷ p) w (c ∷ cs)
  last :
      {k : ℕ → Bool} {p : List Item} {w : Bool} {c : ℕ} {cs : List ℕ}
      → k c ≡ true
      → Matches p (is_word c) cs
      → Matches (plus k ∷ p) w (c ∷ cs)
  more :
      {k : ℕ → Bool} {p : List Item} {w : Bool} {c : ℕ} {cs : List ℕ}
      → k c ≡ true
      → Matches (plus k ∷ p) (is_word c) cs
      → Matches (plus k ∷ p) w (c ∷ cs)
  ends :
      {k : ℕ → Bool} {p : List Item} {w : Bool} {cs : List ℕ}
      → Matches p w cs
      → Matches (star k ∷ p) w cs
  goes_on :
      {k : ℕ → Bool} {p : List Item} {w : Bool} {c : ℕ} {cs : List ℕ}
      → k c ≡ true
      → Matches (star k ∷ p) (is_word c) cs
      → Matches (star k ∷ p) w (c ∷ cs)

matches-opt :
    (k : ℕ → Bool) (p : List Item) (w : Bool) (cs : List ℕ)
    → matches p w cs ≡ true
    → matches (opt k ∷ p) w cs ≡ true
unfolding matches
matches-opt k p w [] h = h
matches-opt k p w (c ∷ cs) h = ground (arith, h)

matches-star :
    (k : ℕ → Bool) (p : List Item) (w : Bool) (cs : List ℕ)
    → matches p w cs ≡ true
    → matches (star k ∷ p) w cs ≡ true
unfolding matches
matches-star k p w [] h = h
matches-star k p w (c ∷ cs) h = ground (arith, h)

test_here :
    (p : List Item) (w : Bool) (cs : List ℕ) → matches p w cs ≡ true → test_from p w cs ≡ true
unfolding test_from
test_here p w [] h = h
test_here p w (c ∷ cs) h = ground (arith, h)

Matches→matches : {p : List Item} {w : Bool} {cs : List ℕ} → Matches p w cs → matches p w cs ≡ true
unfolding matches
Matches→matches all = refl
Matches→matches (edge e m) = ground (arith, e, Matches→matches m)
Matches→matches (takes e m) = ground (arith, e, Matches→matches m)
Matches→matches (leaves {k} {p} {w} {cs} m) = matches-opt k p w cs (Matches→matches m)
Matches→matches (has e m) = ground (arith, e, Matches→matches m)
Matches→matches (last e m) = ground (arith, e, Matches→matches m)
Matches→matches (more e m) = ground (arith, e, Matches→matches m)
Matches→matches (ends {k} {p} {w} {cs} m) = matches-star k p w cs (Matches→matches m)
Matches→matches (goes_on e m) = ground (arith, e, Matches→matches m)

-- A test, then one of two ways to go on, or only the second way if the test fails.
OneWay : Bool → Bool → Bool → Type 0
OneWay k a b = ((k ≡ true) × (a ≡ true)) ⊎ (b ≡ true)

cases_of_plus :
    (k a b : Bool)
    → (elim k [ true ↦ elim a [ true ↦ true | false ↦ b ] | false ↦ false ]) ≡ true
    → (k ≡ true) × ((a ≡ true) ⊎ (b ≡ true))
cases_of_plus true true b h = (refl, inl refl)
cases_of_plus true false b h = (refl, inr h)
cases_of_plus false a b h = cc

cases_of_opt :
    (k a b : Bool)
    → (elim k [ true ↦ elim a [ true ↦ true | false ↦ b ] | false ↦ b ]) ≡ true
    → OneWay k a b
unfolding OneWay
cases_of_opt true true b h = inl (refl, refl)
cases_of_opt true false b h = inr h
cases_of_opt false a b h = inr h

both : (k a : Bool) → (elim k [ true ↦ a | false ↦ false ]) ≡ true → (k ≡ true) × (a ≡ true)
both true a h = (refl, h)
both false a h = cc

matches→Matches : (p : List Item) (w : Bool) (cs : List ℕ) → matches p w cs ≡ true → Matches p w cs
unfolding matches OneWay
matches→Matches [] w cs h = all
matches→Matches (boundary ∷ p) w cs h =
    let (e, m) = both (differ w (starts_word cs)) (matches p w cs) h in
    edge e (matches→Matches p w cs m)
matches→Matches (one k ∷ p) w [] h = absurd (cc)
matches→Matches (one k ∷ p) w (c ∷ cs) h =
    let (e, m) = both (k c) (matches p (is_word c) cs) h in
    takes e (matches→Matches p (is_word c) cs m)
matches→Matches (opt k ∷ p) w [] h = leaves (matches→Matches p w [] h)
matches→Matches (opt k ∷ p) w (c ∷ cs) h =
    elim (cases_of_opt (k c) (matches p (is_word c) cs) (matches p w (c ∷ cs)) h) [
      | inl (e, m) ↦ has e (matches→Matches p (is_word c) cs m)
      | inr m ↦ leaves (matches→Matches p w (c ∷ cs) m)
    ]
matches→Matches (plus k ∷ p) w [] h = absurd (cc)
matches→Matches (plus k ∷ p) w (c ∷ cs) h =
    let (e, way) =
      cases_of_plus (k c) (matches (plus k ∷ p) (is_word c) cs) (matches p (is_word c) cs) h in
    elim way [
      | inl m ↦ more e (matches→Matches (plus k ∷ p) (is_word c) cs m)
      | inr m ↦ last e (matches→Matches p (is_word c) cs m)
    ]
matches→Matches (star k ∷ p) w [] h = ends (matches→Matches p w [] h)
matches→Matches (star k ∷ p) w (c ∷ cs) h =
    elim (cases_of_opt (k c) (matches (star k ∷ p) (is_word c) cs) (matches p w (c ∷ cs)) h) [
      | inl (e, m) ↦ goes_on e (matches→Matches (star k ∷ p) (is_word c) cs m)
      | inr m ↦ ends (matches→Matches p w (c ∷ cs) m)
    ]

-- The items match somewhere in the text.
pub data Occurs : List Item → Bool → List ℕ → Type 0 where
  here : {p : List Item} {w : Bool} {cs : List ℕ} → Matches p w cs → Occurs p w cs
  later :
      {p : List Item} {w : Bool} {c : ℕ} {cs : List ℕ}
      → Occurs p (is_word c) cs
      → Occurs p w (c ∷ cs)

Occurs→test_from :
    {p : List Item} {w : Bool} {cs : List ℕ} → Occurs p w cs → test_from p w cs ≡ true
unfolding test_from
Occurs→test_from (here {p} {w} {cs} m) = test_here p w cs (Matches→matches m)
Occurs→test_from (later o) = ground (arith, Occurs→test_from o)

test_from→Occurs :
    (p : List Item) (w : Bool) (cs : List ℕ) → test_from p w cs ≡ true → Occurs p w cs
unfolding test_from
test_from→Occurs p w [] h = here (matches→Matches p w [] h)
test_from→Occurs p w (c ∷ cs) h = elim (Bool-cases (matches p w (c ∷ cs))) [
  | inl e ↦ here (matches→Matches p w (c ∷ cs) e)
  | inr e ↦ later (test_from→Occurs p (is_word c) cs (ground (arith, h, e)))
]

-- The search finds a match exactly where the items match somewhere in the text, whichever way is tried
-- first.
pub test_iff : (p : List Item) (cs : List ℕ) → (test p cs ≡ true) ↔ Occurs p false cs
test_iff p cs = (test_from→Occurs p false cs, Occurs→test_from)
