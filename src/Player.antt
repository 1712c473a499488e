-- ===== src/Player.antt =====
-- frontend/src/components/learn/LessonPlayer.tsx: the course of a lesson. The component's state is
-- `Player`; `in_flight` holds the calls of `completeLesson` that are not answered, with what they
-- report. The result of the server is a parameter.
pub mod Report
pub mod Tests
use jolyne.Base.{
  ℕ, suc, ◌+◌, ◌-◌, Bool, true, false, not, ◌&&◌, List, [], ◌∷◌, ◌++◌, Option, none, some, is_some,
  leb, ltb, ◌==◌, if◌then◌else◌,
}

module _ (Result : Type 0) where
  pub record Player : Type 0 where
    pub idx : ℕ
    pub mistakes : ℕ
    pub result : Option Result
    pub submitting : Bool
    pub submit_error : Option (ℕ × Bool)
    pub in_flight : List (ℕ × Bool)

  -- The calls of `completeLesson`, `onOutOfHearts` and `onClose`.
  pub data Effect : Type 0 where
    completes : (final_mistakes : ℕ) (failed : Bool) → Effect
    out_of_hearts : Effect
    closes : (completed : Bool) → Effect

  pub data Input : Type 0 where
    finishes_exercise : (mistakes : ℕ) → Input
    answered : Option Result → Input
    retries : Input
    quits : (confirmed : Bool) → Input
    leaves : Input

  -- The state when the lesson begins.
  abbrev pub started : Player
  started = record {
    idx = 0;
    mistakes = 0;
    result = none;
    submitting = false;
    submit_error = none;
    in_flight = [];
  }

  -- `finish`, up to its await.
  unfoldable pub finish : ℕ → Bool → Player → Player × List Effect
  finish final_mistakes failed s = (
    record s {
      submit_error = none;
      submitting = true;
      in_flight = s.in_flight ++ (final_mistakes, failed) ∷ [];
    },
    completes final_mistakes failed ∷ [],
  )

  -- `finish` from its await on, with what the call has captured; none where it fails.
  unfoldable pub finished : ℕ → Bool → Option Result → Player → Player × List Effect
  finished final_mistakes failed none s =
      (record s { submit_error = some (final_mistakes, failed); submitting = false }, [])
  finished final_mistakes failed (some r) s =
      if failed
      then (record s { submitting = false }, out_of_hearts ∷ [])
      else (record s { result = some r; submitting = false }, [])

  -- The arguments of the component that `handleExerciseDone` reads: whether hearts are unlimited, the
  -- hearts at the start, and the number of exercises.
  module _ (premium : Bool) (initial_hearts total : ℕ) where
    unfoldable pub handle_exercise_done : ℕ → Player → Player × List Effect
    unfolding finish
    handle_exercise_done ex_mistakes s =
        let next_mistakes = s.mistakes + ex_mistakes in
        let s' = record s { mistakes = next_mistakes } in
        if not premium && leb initial_hearts next_mistakes
        then finish next_mistakes true s'
        else if leb total (s.idx + 1)
        then finish next_mistakes false s'
        else (record s' { idx = s.idx + 1 }, [])

    -- The effect that closes a lesson without exercises.
    unfoldable pub close_empty : List Effect
    close_empty = if total == 0 then closes false ∷ [] else []

    -- An exercise is on the screen.
    unfoldable pub is_playing : Player → Bool
    is_playing s =
        not (is_some s.submit_error)
        && not (is_some s.result)
        && not s.submitting
        && ltb s.idx total

    unfoldable pub confirm_quit : Bool → List Effect
    confirm_quit confirmed = if confirmed then closes false ∷ [] else []

    -- One input; what the screen does not offer does nothing. Answers come in the order of the calls.
    unfoldable pub react : Input → Player → Player × List Effect
    unfolding handle_exercise_done is_playing finish finished confirm_quit
    react (finishes_exercise m) s = if is_playing s then handle_exercise_done m s else (s, [])
    react (answered r) s = elim s.in_flight [
      | [] ↦ (s, [])
      | (final_mistakes, failed) ∷ rest ↦
          finished final_mistakes failed r (record s { in_flight = rest })
    ]
    react retries s = elim s.submit_error [
      | none ↦ (s, [])
      | some (final_mistakes, failed) ↦ finish final_mistakes failed s
    ]
    react (quits confirmed) s = (
      s,
      if is_some s.submit_error
          then closes false ∷ []
          else if is_some s.result
          then []
          else confirm_quit confirmed,
    )
    react leaves s = (s, if is_some s.result then closes true ∷ [] else [])

    unfoldable pub react_all : List Input → Player → Player × List Effect
    unfolding react
    react_all [] s = (s, [])
    react_all (i ∷ is) s =
        let (s', out) = react i s in let (t, rest) = react_all is s' in (t, out ++ rest)

-- `heartsLeft`
unfoldable pub hearts_left : ℕ → ℕ → ℕ
hearts_left initial_hearts mistakes = initial_hearts - mistakes
