-- ===== src/Pairs/Matched.antt =====
-- What the exercise of pairs counts.
use mathlib.Core.Path.{subst}
use mathlib.Core.List.{append-nil, append_assoc}
use jolyne.Base.{
  ℕ, ◌≤◌, ◌<◌, ◌≡◌, refl, sym, ◌∙◌, Bool, true, false, not, ◌&&◌, ◌||◌, List, [], ◌∷◌, ◌++◌, none,
  length, ltb, ◌==◌, if◌then◌else◌, arith, Bool-cases, inl, inr,
}
use jolyne.Pairs.{
  Matching, Event, clicks_left, clicks_right, timer_fires, has, add, run, handle, is_done, initial,
}

-- No number stands twice.
abbrev pub is_distinct : List ℕ → Bool
is_distinct [] = true
is_distinct (i ∷ is) = not (has i is) && is_distinct is

abbrev pub all_below : ℕ → List ℕ → Bool
all_below n [] = true
all_below n (i ∷ is) = ltb i n && all_below n is

pub record Inv (pairs : ℕ) (s : Matching) : Type 0 where
  pub distinct : is_distinct s.matched ≡ true
  pub below : all_below pairs s.matched ≡ true
  pub timed : (if s.wrong then 1 else 0) ≤ s.timers
  pub counted : s.timers ≤ s.mistakes

has-append : (i j : ℕ) (is : List ℕ) → has i (is ++ j ∷ []) ≡ (has i is || i == j)
has-append i j [] = ground arith
has-append i j (k ∷ is) = ground (arith, has-append i j is)

is_distinct-append :
    (j : ℕ) (is : List ℕ)
    → has j is ≡ false
    → is_distinct is ≡ true
    → is_distinct (is ++ j ∷ []) ≡ true
is_distinct-append j [] h d = refl
is_distinct-append j (i ∷ is) h d = ground (arith, has-append i j is, is_distinct-append j is)

all_below-append :
    (n j : ℕ) (is : List ℕ) → j < n → all_below n is ≡ true → all_below n (is ++ j ∷ []) ≡ true
all_below-append n j [] h d = ground arith
all_below-append n j (i ∷ is) h d = ground (arith, all_below-append n j is h)

add-lists :
    (n j : ℕ) (is : List ℕ)
    → j < n
    → (is_distinct is && all_below n is) ≡ true
    → (is_distinct (add j is) && all_below n (add j is)) ≡ true
add-lists n j is h d = elim (Bool-cases (has j is)) [
  | inl e ↦ rw e d
  | inr e ↦ rw e (ground (arith, is_distinct-append j is e, all_below-append n j is h))
]

handle-Inv : (pairs : ℕ) (e : Event) (s : Matching) → Inv pairs s → Inv pairs (handle pairs e s)
unfolding handle
handle-Inv pairs (clicks_left id) s h = ground (arith, h, add-lists pairs id s.matched)
handle-Inv pairs (clicks_right id) s h = ground (arith, h, add-lists pairs id s.matched)
handle-Inv pairs timer_fires s h = ground (arith, h)

run-Inv : (pairs : ℕ) (es : List Event) (s : Matching) → Inv pairs s → Inv pairs (run pairs es s)
unfolding run
run-Inv pairs [] s h = h
run-Inv pairs (e ∷ es) s h = run-Inv pairs es (handle pairs e s) (handle-Inv pairs e s h)

-- After every sequence of clicks and timers, the matched pairs are pairs of the exercise, each once; a
-- wrong choice that is still shown has a timer that will take it back; and no more timers are pending
-- than mistakes were counted.
pub run-initial-Inv : (pairs : ℕ) (es : List Event) → Inv pairs (run pairs es initial)
run-initial-Inv pairs es =
    run-Inv pairs es initial
      (record { distinct = refl; below = refl; timed = omega arith; counted = omega arith })

-- The clicks of somebody who knows the pairs.
abbrev pub knowing : List ℕ → List Event
knowing [] = []
knowing (i ∷ is) = clicks_left i ∷ clicks_right i ∷ knowing is

abbrev are_new : List ℕ → List ℕ → Bool
are_new [] ms = true
are_new (i ∷ is) ms = not (has i ms) && are_new is ms

are_new-append :
    (i : ℕ) (is ms : List ℕ)
    → has i is ≡ false
    → are_new is ms ≡ true
    → are_new is (ms ++ i ∷ []) ≡ true
are_new-append i [] ms h n = refl
are_new-append i (j ∷ is) ms h n = ground (arith, has-append j i ms, are_new-append i is ms)

are_new_empty : (is : List ℕ) → are_new is [] ≡ true
are_new_empty [] = refl
are_new_empty (i ∷ is) = are_new_empty is

-- The choice of both halves of a pair, one after the other.
handle-pair :
    (pairs i : ℕ) (s : Matching)
    → s.sel_left ≡ none
    → s.sel_right ≡ none
    → i < pairs
    → has i s.matched ≡ false
    → handle pairs (clicks_right i) (handle pairs (clicks_left i) s)
      ≡ record s { matched = s.matched ++ i ∷ []; sel_left = none; sel_right = none }
unfolding handle
handle-pair pairs i s l r b n = ground (arith, l, r, b, n)

run-knowing :
    (pairs : ℕ) (is : List ℕ) (s : Matching)
    → s.sel_left ≡ none
    → s.sel_right ≡ none
    → all_below pairs is ≡ true
    → is_distinct is ≡ true
    → are_new is s.matched ≡ true
    → let t = run pairs (knowing is) s in (t.matched ≡ s.matched ++ is) × (t.mistakes ≡ s.mistakes)
unfolding run
run-knowing pairs [] s l r b d n = (sym (append-nil s.matched), refl)
run-knowing pairs (i ∷ is) s l r b d n =
    let t = record s { matched = s.matched ++ i ∷ []; sel_left = none; sel_right = none } in
    let e = handle-pair pairs i s l r (ground arith) (ground arith) in
    let (m, k) =
      run-knowing pairs is t refl refl (ground arith) (ground arith)
        (are_new-append i is s.matched (ground arith) (ground arith)) in
    subst
      (λ u.
        ((run pairs (knowing is) u).matched ≡ s.matched ++ i ∷ is)
        × ((run pairs (knowing is) u).mistakes ≡ s.mistakes))
      (sym e) (m ∙ append_assoc s.matched (i ∷ []) is, k)

-- Whoever chooses each pair of the exercise once, in any order, is done without a mistake: the matched
-- pairs are the chosen ones, in their order.
pub run-knowing-initial :
    (is : List ℕ)
    → all_below (length is) is ≡ true
    → is_distinct is ≡ true
    → let t = run (length is) (knowing is) initial in
      (is_done (length is) t ≡ true) × (t.matched ≡ is) × (t.mistakes ≡ 0)
unfolding is_done
run-knowing-initial is b d =
    let (m, k) = run-knowing (length is) is initial refl refl b d (are_new_empty is) in
    (rw m (ground arith), m, k)
