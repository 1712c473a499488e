-- ===== src/Players/Review.antt =====
-- frontend/src/components/vocab/ReviewPlayer.tsx: the review of the cards that are due. A card has its
-- number; the words on it, and their sound, are left out.
use jolyne.Base.{
  ℕ, suc, ◌+◌, ◌≤◌, ◌≡◌, refl, sym, ◌∙◌, Bool, true, false, not, ◌&&◌, List, [], ◌∷◌, ◌++◌, map,
  none, some, get_elem?, take, take-snoc, take_all, get_elem?-none, length, ltb, leb, if◌then◌else◌,
  arith, Option-cases, Bool-cases, inl, inr,
}
use mathlib.Core.Path.{subst}
use mathlib.Core.List.{append_assoc, append-nil, map-append}

pub data ReviewGrade : Type 0 where
  again : ReviewGrade
  hard : ReviewGrade
  good : ReviewGrade
  easy : ReviewGrade

pub record Review : Type 0 where
  pub idx : ℕ
  pub revealed : Bool
  pub grading : Bool
  pub reviewed : ℕ

abbrev pub started : Review
started = record { idx = 0; revealed = false; grading = false; reviewed = 0 }

pub data Input : Type 0 where
  reveals : Input
  grades : ReviewGrade → Input
  answered : (is_ok : Bool) → Input

-- The cards that are due, by their numbers.
module _ (entries : List ℕ) where
  -- `grade`, up to its await, with the calls of `gradeVocab`.
  unfoldable pub grade : ReviewGrade → Review → Review × List (ℕ × ReviewGrade)
  grade g s = elim (get_elem? entries s.idx) [
    | none ↦ (s, [])
    | some id ↦ if s.grading then (s, []) else (record s { grading = true }, (id, g) ∷ [])
  ]

  -- `grade` from its await on.
  unfoldable pub graded : Bool → Review → Review
  graded is_ok s = record s {
    reviewed = if is_ok then suc s.reviewed else s.reviewed;
    grading = false;
    revealed = false;
    idx = suc s.idx;
  }

  -- What the screen offers: the answer can be shown while there is a card, and the grades can be
  -- pressed while it is shown and none is being sent.
  unfoldable pub react : Input → Review → Review × List (ℕ × ReviewGrade)
  unfolding grade graded
  react reveals s = (if ltb s.idx (length entries) then record s { revealed = true } else s, [])
  react (grades g) s = if s.revealed && not s.grading then grade g s else (s, [])
  react (answered is_ok) s = (if s.grading then graded is_ok s else s, [])

  unfoldable pub react_all : List Input → Review → Review × List (ℕ × ReviewGrade)
  unfolding react
  react_all [] s = (s, [])
  react_all (i ∷ is) s =
      let (s', out) = react i s in let (t, rest) = react_all is s' in (t, out ++ rest)

-- How many cards were sent.
abbrev pub sent : Review → ℕ
sent s = s.idx + (if s.grading then 1 else 0)

module _ (entries : List ℕ) where
  -- What was sent before and is sent now makes up a beginning of the pile.
  pub record IsOrdered (s : Review) (calls : List (ℕ × ReviewGrade)) : Type 0 where
    pub in_order : map (λ c. c.0) calls ≡ take (sent s) entries
    pub within : leb (sent s) (length entries) ≡ true
    pub counted : leb s.reviewed s.idx ≡ true

  react-IsOrdered :
      (i : Input) (s : Review) (calls : List (ℕ × ReviewGrade))
      → IsOrdered s calls
      → IsOrdered (react entries i s).0 (calls ++ (react entries i s).1)
  unfolding react
  react-IsOrdered reveals s calls h = ground (arith, h, append-nil calls)
  react-IsOrdered (grades g) s calls h = elim (Option-cases (get_elem? entries s.idx)) [
    | inl e ↦ ground (arith, h, e, append-nil calls)
    | inr (id, e) ↦ elim (Bool-cases s.grading) [
      | inl b ↦ ground (arith, h, e, b, append-nil calls)
      | inr b ↦ ground (
        arith,
        h,
        e,
        b,
        append-nil calls,
        map-append (λ c. c.0) calls ((id, g) ∷ []),
        take-snoc s.idx entries id e,
      )
    ]
  ]
  react-IsOrdered (answered is_ok) s calls h = ground (arith, h, append-nil calls)

  react_all-IsOrdered :
      (is : List Input) (s : Review) (calls : List (ℕ × ReviewGrade))
      → IsOrdered s calls
      → IsOrdered (react_all entries is s).0 (calls ++ (react_all entries is s).1)
  unfolding react_all
  react_all-IsOrdered [] s calls h = subst (λ l. IsOrdered s l) (sym (append-nil calls)) h
  react_all-IsOrdered (i ∷ is) s calls h =
      let (s', out) = react entries i s in
      subst (λ l. IsOrdered (react_all entries is s').0 l)
        (append_assoc calls out (react_all entries is s').1)
        (react_all-IsOrdered is s' (calls ++ out) (react-IsOrdered i s calls h))

  -- Whatever is pressed and answered, the cards are graded in their order and each once at most: those
  -- that were sent to be graded are the first ones of the pile, as many as the player has passed and
  -- the one that waits for its answer; and no more cards are counted as reviewed than were passed.
  pub react_all-started-IsOrdered :
      (is : List Input)
      → IsOrdered (react_all entries is started).0 (react_all entries is started).1
  react_all-started-IsOrdered is =
      react_all-IsOrdered is started []
        record { in_order = refl; within = ground arith; counted = refl }

-- The whole pile with a grade for each card; whether each call succeeds.
abbrev pub diligent : List (ReviewGrade × Bool) → List Input
diligent [] = []
diligent ((g, is_ok) ∷ gs) = reveals ∷ grades g ∷ answered is_ok ∷ diligent gs

abbrev pub successes : List (ReviewGrade × Bool) → ℕ
successes [] = 0
successes ((g, is_ok) ∷ gs) = (if is_ok then 1 else 0) + successes gs

module _ (entries : List ℕ) where
  one_card :
      (g : ReviewGrade) (is_ok : Bool) (is : List Input) (s : Review) (id : ℕ)
      → s.grading ≡ false
      → get_elem? entries s.idx ≡ some id
      → suc s.idx ≤ length entries
      → let (t, calls) = react_all entries is (graded entries is_ok s) in
        react_all entries (reveals ∷ grades g ∷ answered is_ok ∷ is) s ≡ (t, (id, g) ∷ calls)
  unfolding react_all
  one_card g is_ok is s id b e h = ground (arith, b, e, h)

  -- From the first state the pile leads to the second one: a card was passed for each grade, the calls
  -- that succeeded are counted, and the grades were sent.
  pub record Passed (gs : List (ReviewGrade × Bool)) (s t : Review) (calls : List (ℕ × ReviewGrade))
      : Type 0 where
    pub passed : t.idx ≡ s.idx + length gs
    pub all_counted : t.reviewed ≡ s.reviewed + successes gs
    pub as_given : map (λ c. c.1) calls ≡ map (λ c. c.0) gs

  react_all-diligent :
      (gs : List (ReviewGrade × Bool)) (s : Review)
      → s.grading ≡ false
      → s.idx + length gs ≤ length entries
      → let (t, calls) = react_all entries (diligent gs) s in Passed gs s t calls
  unfolding react_all graded
  react_all-diligent [] s b h = ground (arith, b)
  react_all-diligent ((g, is_ok) ∷ gs) s b h = elim (Option-cases (get_elem? entries s.idx)) [
    | inl e ↦ ground (arith, h, get_elem?-none s.idx entries e)
    | inr (id, e) ↦
        (let ih = react_all-diligent gs (graded entries is_ok s) refl (omega (arith, h)) in
          subst (λ r. Passed ((g, is_ok) ∷ gs) s r.0 r.1)
            (sym (one_card g is_ok (diligent gs) s id b e (omega (arith, h)))) (ground (arith, ih)))
  ]

  -- Whoever looks at each card and grades it ends the review: every card is sent with its grade, in the
  -- order of the pile, and counted as reviewed exactly where its call succeeds.
  pub react_all-started-diligent :
      (gs : List (ReviewGrade × Bool))
      → length gs ≡ length entries
      → let (t, calls) = react_all entries (diligent gs) started in
        (t.idx ≡ length entries)
        × (t.reviewed ≡ successes gs)
        × (map (λ c. c.0) calls ≡ entries)
        × (map (λ c. c.1) calls ≡ map (λ c. c.0) gs)
  react_all-started-diligent gs h =
      let (t, calls) = react_all entries (diligent gs) started in
      let p = react_all-diligent gs started refl (omega (arith, h)) in
      let inv = react_all-started-IsOrdered entries (diligent gs) in
      (
        omega (arith, p.passed, h),
        omega (arith, p.all_counted),
        inv.in_order ∙ take_all (sent t) entries (omega (arith, p.passed, h)),
        p.as_given,
      )
