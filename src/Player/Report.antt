-- ===== src/Player/Report.antt =====
-- What a lesson reports to the server.
use mathlib.Core.Path.{subst}
use mathlib.Core.List.{append-nil}
use jolyne.Base.{
  sum, ℕ, ◌+◌, ◌<◌, ◌≡◌, refl, sym, ap, ◌∙◌, Bool, true, false, not, ◌&&◌, ◌||◌, List, [], ◌∷◌,
  ◌++◌, Option, none, some, is_some, leb, ltb, length, if◌then◌else◌, arith, All, All-append,
  List-cases, inl, inr,
}
use jolyne.Player.{
  Player, Effect, completes, Input, finishes_exercise, answered, retries, quits, leaves, started,
  react, react_all, is_playing,
}

module _ (Result : Type 0) (premium : Bool) (hearts total : ℕ) where
  -- A lesson fails exactly where hearts are limited and the mistakes use them up.
  abbrev pub is_just : ℕ → Bool → Bool
  is_just m failed = if failed then not premium && leb hearts m else premium || ltb m hearts

  abbrev pub IsJust : Effect Result → Type 0
  IsJust (completes m failed) = is_just m failed ≡ true
  IsJust _ = Unit {0}

  abbrev pub all_just : List (ℕ × Bool) → Bool
  all_just [] = true
  all_just ((m, failed) ∷ calls) = is_just m failed && all_just calls

  abbrev pub error_just : Option (ℕ × Bool) → Bool
  error_just none = true
  error_just (some (m, failed)) = is_just m failed

  -- One call is in flight while the component submits, and none otherwise; and what is or was sent is
  -- just.
  pub record Inv (s : Player Result) : Type 0 where
    pub single : length s.in_flight ≡ (if s.submitting then 1 else 0)
    pub sent : all_just s.in_flight ≡ true
    pub failed_call : error_just s.submit_error ≡ true
    pub idle : (s.submitting && is_some s.submit_error) ≡ false

  react-Inv :
      (i : Input Result) (s : Player Result)
      → Inv s
      → Inv (react Result premium hearts total i s).0
        × All IsJust (react Result premium hearts total i s).1
  unfolding react
  react-Inv (finishes_exercise m) s h = elim (List-cases s.in_flight) [
    | inl e ↦ ground (arith, h, e)
    | inr (c, cs, e) ↦ ground (arith, h, e)
  ]
  react-Inv (answered none) s h = elim (List-cases s.in_flight) [
    | inl e ↦ ground (arith, h, e)
    | inr (c, cs, e) ↦ ground (arith, h, e)
  ]
  react-Inv (answered (some r)) s h = elim (List-cases s.in_flight) [
    | inl e ↦ ground (arith, h, e)
    | inr (c, cs, e) ↦ ground (arith, h, e)
  ]
  react-Inv retries s h = elim (List-cases s.in_flight) [
    | inl e ↦ ground (arith, h, e)
    | inr (c, cs, e) ↦ ground (arith, h, e)
  ]
  react-Inv (quits confirmed) s h = ground (arith, h)
  react-Inv leaves s h = ground (arith, h)

  react_all-Inv :
      (is : List (Input Result)) (s : Player Result)
      → Inv s
      → Inv (react_all Result premium hearts total is s).0
        × All IsJust (react_all Result premium hearts total is s).1
  unfolding react_all
  react_all-Inv [] s h = (h, tt)
  react_all-Inv (i ∷ is) s h =
      let (h', now) = react-Inv i s h in
      let (end, later) = react_all-Inv is (react Result premium hearts total i s).0 h' in
      (end, All-append IsJust (react Result premium hearts total i s).1 _ now later)

  -- Through every history of exercises, answers of the server, failures and retries, the player has
  -- one call in flight while it submits and none otherwise, it does not submit while it shows that a
  -- call failed, and each report, sent or waiting to be sent again, is just: it says that the lesson
  -- failed exactly where hearts are limited and the mistakes that it reports use them up.
  pub react_all-started-Inv :
      (is : List (Input Result))
      → Inv (react_all Result premium hearts total is (started Result)).0
        × All IsJust (react_all Result premium hearts total is (started Result)).1
  react_all-started-Inv is =
      react_all-Inv is (started Result)
        (record { single = refl; sent = refl; failed_call = refl; idle = refl })

  abbrev pub exercises : List ℕ → List (Input Result)
  exercises [] = []
  exercises (m ∷ ms) = finishes_exercise m ∷ exercises ms

  react-last :
      (m : ℕ) (s : Player Result)
      → is_playing Result premium hearts total s ≡ true
      → s.idx + 1 ≡ total
      → is_just (s.mistakes + m) false ≡ true
      → (react Result premium hearts total (finishes_exercise m) s).1
        ≡ completes (s.mistakes + m) false ∷ []
  unfolding react
  react-last m s p i j = ground (arith, p, i, j)

  react-next :
      (m : ℕ) (s : Player Result)
      → is_playing Result premium hearts total s ≡ true
      → s.idx + 1 < total
      → is_just (s.mistakes + m) false ≡ true
      → react Result premium hearts total (finishes_exercise m) s
        ≡ (record s { mistakes = s.mistakes + m; idx = s.idx + 1 }, [])
  unfolding react
  react-next m s p i j = ground (arith, p, i, j)

  react_all-exercises :
      (m : ℕ) (ms : List ℕ) (s : Player Result)
      → is_playing Result premium hearts total s ≡ true
      → s.idx + length (m ∷ ms) ≡ total
      → is_just (s.mistakes + sum (m ∷ ms)) false ≡ true
      → (react_all Result premium hearts total (exercises (m ∷ ms)) s).1
        ≡ completes (s.mistakes + sum (m ∷ ms)) false ∷ []
  unfolding react_all is_playing
  react_all-exercises m [] s p i j =
      append-nil _
      ∙ (react-last m s p i (ground (arith, j)) ∙ ap (λ n. completes n false ∷ []) (omega arith))
  react_all-exercises m (n ∷ ms) s p i j =
      let t = record s { mistakes = s.mistakes + m; idx = s.idx + 1 } in
      subst
        (λ u.
          u.1 ++ (react_all Result premium hearts total (exercises (n ∷ ms)) u.0).1
          ≡ completes (s.mistakes + sum (m ∷ n ∷ ms)) false ∷ [])
        (sym (react-next m s p (omega (arith, i)) (ground (arith, j))))
        (react_all-exercises n ms t (ground (arith, p, i)) (omega (arith, i)) (ground (arith, j))
          ∙ ap (λ k. completes k false ∷ []) (omega arith))

  -- A lesson of one exercise or more whose mistakes do not use up the hearts, or with unlimited hearts,
  -- ends with exactly one report: that it succeeded, with the sum of the mistakes of its exercises.
  pub react_all-started :
      (m : ℕ) (ms : List ℕ)
      → length (m ∷ ms) ≡ total
      → is_just (sum (m ∷ ms)) false ≡ true
      → (react_all Result premium hearts total (exercises (m ∷ ms)) (started Result)).1
        ≡ completes (sum (m ∷ ms)) false ∷ []
  unfolding is_playing
  react_all-started m ms i j =
      react_all-exercises m ms (started Result) (ground (arith, i)) (omega (arith, i))
        (ground (arith, j))
      ∙ ap (λ n. completes n false ∷ []) (omega arith)
