-- ===== src/Players/Daily.antt =====
-- frontend/src/components/learn/DailyLessonPlayer.tsx: the lesson of the day. The result of the server
-- is a parameter, and so is the draw of `Math.random() < 0.5` for each item.
use jolyne.Base.{
  ℕ, suc, ◌+◌, ◌≡◌, refl, sym, ap, ◌∙◌, Bool, true, false, not, ◌&&◌, List, [], ◌∷◌, ◌++◌, map, any,
  Option, none, some, is_some, get_elem?, take-snoc, length, leb, if◌then◌else◌, arith,
  Option-cases, inl, inr, ◌<◌, get_elem?-append, length-append, String, str_eq, All, All-append,
}
use text.Mathlib.TextPositions.{eq_refl}
use mathlib.Core.Path.{subst}
use mathlib.Core.List.{append_assoc}

pub record DailyReviewItem : Type 0 where
  pub id : ℕ
  pub original : String
  pub corrected : String

module _ (Result : Type 0) where
  pub record Daily : Type 0 where
    pub idx : ℕ
    pub picked : Option String
    pub mistakes : ℕ
    pub result : Option Result
    pub submitting : Bool

  abbrev pub started : Daily
  started = record { idx = 0; picked = none; mistakes = 0; result = none; submitting = false }

  pub data Effect : Type 0 where
    completes : (ids : List ℕ) → Effect
    closes : (completed : Bool) → Effect

  pub data Input : Type 0 where
    picks : String → Input
    goes_on : Input
    submits : Input
    answered : Option Result → Input
    leaves : Input

  module _ (items : List DailyReviewItem) (draw : ℕ → Bool) where
    unfoldable pub options : Daily → List String
    options s = elim (get_elem? items s.idx) [
      | none ↦ []
      | some it ↦
          if draw it.id then it.corrected ∷ it.original ∷ [] else it.original ∷ it.corrected ∷ []
    ]

    unfoldable pub pick : String → Daily → Daily
    pick option s = elim (get_elem? items s.idx) [
      | none ↦ s
      | some it ↦ if is_some s.picked then s else record s {
        picked = some option;
        mistakes = if str_eq option it.corrected then s.mistakes else suc s.mistakes;
      }
    ]

    unfoldable pub next : Daily → Daily
    next s = record s { picked = none; idx = suc s.idx }

    -- `submit`, up to its await.
    unfoldable pub submit : Daily → Daily × List Effect
    submit s =
        if s.submitting
        then (s, [])
        else (record s { submitting = true }, completes (map (λ it. it.id) items) ∷ [])

    -- `submit` from its await on; none where the call fails.
    unfoldable pub submitted : Option Result → Daily → Daily × List Effect
    submitted none s = (record s { submitting = false }, closes false ∷ [])
    submitted (some r) s = (record s { result = some r; submitting = false }, [])

    -- `done || !current`
    unfoldable pub is_over : Daily → Bool
    is_over s = leb (length items) s.idx

    -- One input; what the screen does not offer does nothing.
    unfoldable pub react : Input → Daily → Daily × List Effect
    unfolding options pick next submit submitted is_over
    react (picks option) s =
        (if any (str_eq option) (options s) && not (is_some s.picked) then pick option s else s, [])
    react goes_on s = (if not (is_over s) && is_some s.picked then next s else s, [])
    react submits s = if is_over s && not (is_some s.result) then submit s else (s, [])
    react (answered r) s = if s.submitting then submitted r s else (s, [])
    react leaves s =
        if is_over s
        then (s, if is_some s.result then closes true ∷ [] else [])
        else (s, closes false ∷ [])

    unfoldable pub react_all : List Input → Daily → Daily × List Effect
    unfolding react
    react_all [] s = (s, [])
    react_all (i ∷ is) s =
        let (s', out) = react i s in let (t, rest) = react_all is s' in (t, out ++ rest)

module _ (Result : Type 0) (items : List DailyReviewItem) (draw : ℕ → Bool) where
  -- Every item is answered once at most, and the lesson is submitted after the last one only.
  pub record IsBounded (s : Daily Result) : Type 0 where
    pub bounded : leb s.mistakes (s.idx + (if is_some s.picked then 1 else 0)) ≡ true
    pub within : leb (s.idx + (if is_some s.picked then 1 else 0)) (length items) ≡ true
    pub late : (s.submitting && not (leb (length items) s.idx)) ≡ false

  abbrev pub IsReport : Effect Result → Type 0
  IsReport (completes ids) = ids ≡ map (λ it. it.id) items
  IsReport (closes completed) = Unit {0}

  react-IsBounded :
      (i : Input Result) (s : Daily Result)
      → IsBounded s
      → IsBounded (react Result items draw i s).0 × All IsReport (react Result items draw i s).1
  unfolding react
  react-IsBounded (picks option) s h = elim (Option-cases (get_elem? items s.idx)) [
    | inl e ↦ ground (arith, h, e)
    | inr (it, e) ↦ ground (arith, h, e, take-snoc s.idx items it e)
  ]
  react-IsBounded goes_on s h = ground (arith, h)
  react-IsBounded submits s h = ground (arith, h)
  react-IsBounded (answered none) s h = ground (arith, h)
  react-IsBounded (answered (some r)) s h = ground (arith, h)
  react-IsBounded leaves s h = ground (arith, h)

  react_all-IsBounded :
      (is : List (Input Result)) (s : Daily Result)
      → IsBounded s
      → IsBounded (react_all Result items draw is s).0
        × All IsReport (react_all Result items draw is s).1
  unfolding react_all
  react_all-IsBounded [] s h = (h, tt)
  react_all-IsBounded (i ∷ is) s h =
      let (h', now) = react-IsBounded i s h in
      let (end, later) = react_all-IsBounded is (react Result items draw i s).0 h' in
      (end, All-append IsReport (react Result items draw i s).1 _ now later)

  -- Whatever is pressed and answered, each item counts one mistake at most, and only once it is
  -- answered; a lesson is being submitted only after its last item was answered, and every report
  -- names all its items.
  pub react_all-started-IsBounded :
      (is : List (Input Result))
      → IsBounded (react_all Result items draw is (started Result)).0
        × All IsReport (react_all Result items draw is (started Result)).1
  react_all-started-IsBounded is =
      react_all-IsBounded is (started Result)
        record { bounded = refl; within = ground arith; late = refl }

-- A learner who picks the correction of the items that it knows, and the original of the others.
module _ (Result : Type 0) (knows : DailyReviewItem → Bool) where
  abbrev pub choice_of : DailyReviewItem → String
  choice_of it = if knows it then it.corrected else it.original

  abbrev pub plays : List DailyReviewItem → List (Input Result) → List (Input Result)
  plays [] end = end
  plays (it ∷ its) end = picks (choice_of it) ∷ goes_on ∷ plays its end

  abbrev pub wrong : List DailyReviewItem → ℕ
  wrong [] = 0
  wrong (it ∷ its) = (if str_eq (choice_of it) it.corrected then 0 else 1) + wrong its

  module _ (draw : ℕ → Bool) where
    offered :
        (items : List DailyReviewItem) (it : DailyReviewItem) (s : Daily Result)
        → get_elem? items s.idx ≡ some it
        → any (str_eq (choice_of it)) (options Result items draw s) ≡ true
    unfolding options
    offered items it s e = ground (arith, e, eq_refl it.corrected, eq_refl it.original)

    abbrev after : DailyReviewItem → Daily Result → Daily Result
    after it s = record s {
      idx = suc s.idx;
      picked = none;
      mistakes = if str_eq (choice_of it) it.corrected then s.mistakes else suc s.mistakes;
    }

    one_item :
        (items : List DailyReviewItem) (it : DailyReviewItem) (is : List (Input Result))
        → (s : Daily Result) → get_elem? items s.idx ≡ some it
        → s.idx < length items
        → s.picked ≡ none
        → react_all Result items draw (picks (choice_of it) ∷ goes_on ∷ is) s
          ≡ react_all Result items draw is (after it s)
    unfolding react_all
    one_item items it is s e l p = ground (arith, e, l, p, offered items it s e)

    abbrev at : Daily Result → ℕ → ℕ → Daily Result
    at s i m = record s { idx = i; picked = none; mistakes = m }

    react_all-plays :
        (before rest : List DailyReviewItem) (end : List (Input Result)) (s : Daily Result) (m : ℕ)
        → s.idx ≡ length before
        → s.picked ≡ none
        → m ≡ s.mistakes + wrong rest
        → react_all Result (before ++ rest) draw (plays rest end) s
          ≡ react_all Result (before ++ rest) draw end (at s (length (before ++ rest)) m)
    react_all-plays before [] end s m i p e =
        ap (λ u. react_all Result (before ++ []) draw end u)
          (ground (arith, i, p, e, length-append before []))
    react_all-plays before (it ∷ rest) end s m i p e =
        let next = before ++ it ∷ [] in
        one_item (before ++ it ∷ rest) it (plays rest end) s
          (subst (λ n. get_elem? (before ++ it ∷ rest) n ≡ some it) (sym i)
            (get_elem?-append before rest it))
          (omega (arith, i, length-append before (it ∷ rest))) p
        ∙ subst
            (λ items.
              react_all Result items draw (plays rest end) (after it s)
              ≡ react_all Result items draw end (at s (length items) m))
            (append_assoc before (it ∷ []) rest)
            (react_all-plays next rest end (after it s) m
              (omega (arith, i, length-append before (it ∷ []))) refl (ground (arith, e)))

    submitted_once :
        (items : List DailyReviewItem) (r : Result) (m : ℕ)
        → react_all Result items draw
            (submits ∷ answered (some r) ∷ leaves ∷ [])
            (at (started Result) (length items) m)
          ≡ (
            record (started Result) { idx = length items; mistakes = m; result = some r },
            completes (map (λ it. it.id) items) ∷ closes true ∷ [],
          )
    unfolding react_all
    submitted_once items r m = ground arith

  -- Whoever picks an option of each item, goes on, and has the lesson submitted, ends it: the mistakes
  -- are the items whose correction was not picked, and if the call succeeds the lesson is reported
  -- once, with all its items, and closed as completed.
  pub react_all-started-plays :
      (items : List DailyReviewItem) (draw : ℕ → Bool) (r : Result)
      → react_all Result items draw
          (plays items (submits ∷ answered (some r) ∷ leaves ∷ []))
          (started Result)
        ≡ (
          record (started Result) { idx = length items; mistakes = wrong items; result = some r },
          completes (map (λ it. it.id) items) ∷ closes true ∷ [],
        )
  react_all-started-plays items draw r =
      react_all-plays draw [] items (submits ∷ answered (some r) ∷ leaves ∷ []) (started Result)
        (wrong items) refl refl (omega arith)
      ∙ submitted_once draw items r (wrong items)
