-- ===== src/Players/Script.antt =====
-- frontend/src/components/learn/ScriptLessonPlayer.tsx: the course of a lesson on writing. It has the
-- state of the lesson player, the calls and the answers of which are those of Player, and an
-- introduction before the first exercise.
use jolyne.Base.{
  ℕ, ◌+◌, ◌≡◌, refl, ap, ◌∙◌, Bool, true, false, not, ◌&&◌, List, [], ◌∷◌, ◌++◌, map, Option, none,
  some, is_some, leb, ltb, String, str_eq, if◌then◌else◌, arith, List-cases, inl, inr,
}
use mathlib.Core.List.{flat_map}
use jolyne.Base.Text.{is_empty}
use jolyne.Learn.Lesson.{PlayItem}
use jolyne.Player
use jolyne.Player.{
  Player, Effect, completes, out_of_hearts, closes, finishes_exercise, answered, retries, quits,
  leaves,
}

pub data Phase : Type 0 where
  intro : Phase
  play : Phase

module _ (Result : Type 0) where
  pub record ScriptPlayer : Type 0 where
    pub phase : Phase
    pub idx : ℕ
    pub mistakes : ℕ
    pub result : Option Result
    pub submitting : Bool
    pub submit_error : Option (ℕ × Bool)
    pub in_flight : List (ℕ × Bool)

  pub data Input : Type 0 where
    starts : Input
    does : Player.Input Result → Input

  abbrev pub started : ScriptPlayer
  started = record {
    phase = intro;
    idx = 0;
    mistakes = 0;
    result = none;
    submitting = false;
    submit_error = none;
    in_flight = [];
  }

  -- `finish`, up to its await.
  unfoldable pub finish : ℕ → Bool → ScriptPlayer → ScriptPlayer × List (Effect Result)
  finish final_mistakes failed s = (
    record s {
      submit_error = none;
      submitting = true;
      in_flight = s.in_flight ++ (final_mistakes, failed) ∷ [];
    },
    completes final_mistakes failed ∷ [],
  )

  -- `finish` from its await on; none where the call fails.
  unfoldable pub finished :
      ℕ → Bool → Option Result → ScriptPlayer → ScriptPlayer × List (Effect Result)
  finished final_mistakes failed none s =
      (record s { submit_error = some (final_mistakes, failed); submitting = false }, [])
  finished final_mistakes failed (some r) s =
      if failed
      then (record s { submitting = false }, out_of_hearts ∷ [])
      else (record s { result = some r; submitting = false }, [])

  module _ (premium : Bool) (initial_hearts total : ℕ) where
    unfoldable pub handle_exercise_done : ℕ → ScriptPlayer → ScriptPlayer × List (Effect Result)
    unfolding finish
    handle_exercise_done ex_mistakes s =
        let next_mistakes = s.mistakes + ex_mistakes in
        let s' = record s { mistakes = next_mistakes } in
        if not premium && leb initial_hearts next_mistakes
        then finish next_mistakes true s'
        else if leb total (s.idx + 1)
        then finish next_mistakes false s'
        else (record s' { idx = s.idx + 1 }, [])

    -- An exercise is on the screen.
    unfoldable pub is_playing : ScriptPlayer → Bool
    is_playing s =
        not (is_some s.submit_error)
        && not (is_some s.result)
        && (elim s.phase [ intro ↦ false | play ↦ true ])
        && not s.submitting
        && ltb s.idx total

    unfoldable pub confirm_quit : Bool → List (Effect Result)
    confirm_quit confirmed = if confirmed then closes false ∷ [] else []

    -- One input; what the screen does not offer does nothing. Answers come in the order of the calls.
    unfoldable pub react : Input → ScriptPlayer → ScriptPlayer × List (Effect Result)
    unfolding handle_exercise_done is_playing finish finished confirm_quit
    react starts s = (
      if is_some s.submit_error
          then s
          else if is_some s.result
          then s
          else record s { phase = play },
      [],
    )
    react (does (finishes_exercise m)) s =
        if is_playing s then handle_exercise_done m s else (s, [])
    react (does (answered r)) s = elim s.in_flight [
      | [] ↦ (s, [])
      | (final_mistakes, failed) ∷ rest ↦
          finished final_mistakes failed r (record s { in_flight = rest })
    ]
    react (does retries) s = elim s.submit_error [
      | none ↦ (s, [])
      | some (final_mistakes, failed) ↦ finish final_mistakes failed s
    ]
    react (does (quits confirmed)) s = (
      s,
      if is_some s.submit_error
          then closes false ∷ []
          else if is_some s.result
          then []
          else confirm_quit confirmed,
    )
    react (does leaves) s = (s, if is_some s.result then closes true ∷ [] else [])

    unfoldable pub react_all : List Input → ScriptPlayer → ScriptPlayer × List (Effect Result)
    unfolding react
    react_all [] s = (s, [])
    react_all (i ∷ is) s =
        let (s', out) = react i s in let (t, rest) = react_all is s' in (t, out ++ rest)

-- The words of the last screen.
unfoldable pub recap : List PlayItem → List (String × String)
recap items =
    let sound_or : PlayItem → String = λ it. elim it.sound [ none ↦ "" | some s ↦ s ] in
    let meant : PlayItem → List (String × String) = λ it.
      if not (is_empty it.meaning) && not (str_eq it.meaning (sound_or it))
      then (it.target, it.meaning) ∷ []
      else [] in
    let shown : PlayItem → List (String × String) = λ it. elim it.example [
      | none ↦ []
      | some example ↦ elim it.example_meaning [
        | none ↦ []
        | some meaning ↦
            if not (is_empty example) && not (is_empty meaning) then (example, meaning) ∷ [] else []
      ]
    ] in
    flat_map (λ it. meant it ++ shown it) items

module _ (Result : Type 0) (premium : Bool) (hearts total : ℕ) where
  -- The player without its phase.
  abbrev pub core : ScriptPlayer Result → Player Result
  core s = record {
    idx = s.idx;
    mistakes = s.mistakes;
    result = s.result;
    submitting = s.submitting;
    submit_error = s.submit_error;
    in_flight = s.in_flight;
  }

  -- What quitting sends during the introduction.
  abbrev pub confirmed_quits : List (Player.Input Result) → List (Effect Result)
  confirmed_quits [] = []
  confirmed_quits (quits true ∷ is) = closes false ∷ confirmed_quits is
  confirmed_quits (_ ∷ is) = confirmed_quits is

  react-core :
      (i : Player.Input Result) (s : ScriptPlayer Result)
      → s.phase ≡ play
      → ((
        core (react Result premium hearts total (does i) s).0,
        (react Result premium hearts total (does i) s).1,
      )
          ≡ Player.react Result premium hearts total i (core s))
        × ((react Result premium hearts total (does i) s).0.phase ≡ play)
  unfolding react Player.react
  react-core (finishes_exercise m) s h = ground (arith, h)
  react-core (answered none) s h = elim (List-cases s.in_flight) [
    | inl e ↦ ground (arith, h, e)
    | inr (c, cs, e) ↦ ground (arith, h, e)
  ]
  react-core (answered (some r)) s h = elim (List-cases s.in_flight) [
    | inl e ↦ ground (arith, h, e)
    | inr (c, cs, e) ↦ ground (arith, h, e)
  ]
  react-core retries s h = ground (arith, h)
  react-core (quits confirmed) s h = ground (arith, h)
  react-core leaves s h = ground (arith, h)

  react_all-core :
      (is : List (Player.Input Result)) (s : ScriptPlayer Result)
      → s.phase ≡ play
      → let (t, out) = react_all Result premium hearts total (map does is) s in
        (core t, out) ≡ Player.react_all Result premium hearts total is (core s)
  unfolding react_all Player.react_all
  react_all-core [] s h = refl
  react_all-core (i ∷ is) s h =
      let (now, still) = react-core i s h in
      let ih = react_all-core is (react Result premium hearts total (does i) s).0 still in
      ap (λ r. (r.0, (react Result premium hearts total (does i) s).1 ++ r.1)) ih
      ∙ ap
          (λ r.
            let (t, out) = Player.react_all Result premium hearts total is r.0 in (t, r.1 ++ out))
          now

  -- The introduction: only quitting does anything.
  react_all_intro :
      (before : List (Player.Input Result)) (is : List (Input Result))
      → let (t, out) = react_all Result premium hearts total is (started Result) in
        react_all Result premium hearts total (map does before ++ is) (started Result)
        ≡ (t, confirmed_quits before ++ out)
  unfolding react_all
  react_all_intro [] is = refl
  react_all_intro (finishes_exercise m ∷ before) is = react_all_intro before is
  react_all_intro (answered r ∷ before) is = react_all_intro before is
  react_all_intro (retries ∷ before) is = react_all_intro before is
  react_all_intro (quits true ∷ before) is =
      ap (λ r. (r.0, closes false ∷ r.1)) (react_all_intro before is)
  react_all_intro (quits false ∷ before) is = react_all_intro before is
  react_all_intro (leaves ∷ before) is = react_all_intro before is

  -- A lesson on writing is a lesson after an introduction: whatever is done before it starts, only
  -- confirmed quitting has an effect, and from then on the player goes through the states of the
  -- lesson player, and has its effects.
  pub react_all-started-core :
      (before is : List (Player.Input Result))
      → let (t, out) =
          react_all Result premium hearts total
            (map does before ++ starts ∷ map does is)
            (started Result) in
        let (u, lesson) = Player.react_all Result premium hearts total is (Player.started Result) in
        (core t ≡ u) × (out ≡ confirmed_quits before ++ lesson)
  unfolding react_all
  react_all-started-core before is =
      let e = react_all_intro before (starts ∷ map does is) in
      let c = react_all-core is (record (started Result) { phase = play }) refl in
      (
        ap (λ r. core r.0) e ∙ ap (λ r. r.0) c,
        ap (λ r. r.1) e ∙ ap (λ r. confirmed_quits before ++ r.1) c,
      )
