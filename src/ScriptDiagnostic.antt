-- ===== src/ScriptDiagnostic.antt =====
-- frontend/src/components/learn/ScriptDiagnostic.tsx: the test that lets a learner skip the units on
-- writing. Its `shuffle` is that of the lessons, with the draws as an argument. `pending` holds the
-- timers of `answer`, each with what it has captured.
pub mod Passing
pub mod Tests
use jolyne.Base.{
  ℕ, zero, suc, ◌+◌, ◌*◌, Bool, true, false, not, ◌&&◌, ◌||◌, List, [], ◌∷◌, ◌++◌, map, Option,
  none, some, any, keep, take, length, get_elem?, leb, ltb, ◌==◌, String, str_eq, if◌then◌else◌,
}
use jolyne.Base.Text.{is_empty}
use jolyne.Learn.Shuffle.{shuffle}
use jolyne.Learn.Lesson.{PlayItem}
use jolyne.Learn.Script.{sound_of}

abbrev pub max_q : ℕ
max_q = 5

-- `Q`
pub record Question : Type 0 where
  pub glyph : String
  pub answer : String
  pub options : List String

-- The draws: the order of the items, and for the question i its distractors and its options.
pub data Site : Type 0 where
  choosing : Site
  distracting arranging : ℕ → Site

module _ (draw : Site → ℕ → ℕ) where
  unfoldable pub question : List String → ℕ → PlayItem → Question
  question sounds i it =
      let answer = sound_of it in
      let distractors =
        take 3 (shuffle (draw (distracting i)) (keep (λ s. not (str_eq s answer)) sounds)) in
      record {
        glyph = it.target;
        answer = answer;
        options = shuffle (draw (arranging i)) (answer ∷ distractors);
      }

  unfoldable pub questions_from : List String → ℕ → List PlayItem → List Question
  unfolding question
  questions_from sounds i [] = []
  questions_from sounds i (it ∷ its) = question sounds i it ∷ questions_from sounds (suc i) its

  unfoldable pub questions : List PlayItem → List Question
  unfolding questions_from
  questions items =
      questions_from (map sound_of items) 0 (take max_q (shuffle (draw choosing) items))

pub record Diagnostic : Type 0 where
  pub idx : ℕ
  pub correct : ℕ
  pub selected : Option String
  pub done : Bool
  pub pending : List (Bool × ℕ)

abbrev pub started : Diagnostic
started = record { idx = 0; correct = 0; selected = none; done = false; pending = [] }

-- `if (selected)`
abbrev pub is_locked : Diagnostic → Bool
is_locked s = elim s.selected [ none ↦ false | some opt ↦ not (is_empty opt) ]

module _ (qs : List Question) where
  -- `correct / questions.length >= PASS_RATIO`
  unfoldable pub passed : Diagnostic → Bool
  passed s = leb (8 * length qs) (10 * s.correct)

  unfoldable pub answer : String → Diagnostic → Diagnostic
  answer opt s = elim (get_elem? qs s.idx) [
    | none ↦ s
    | some q ↦ if s.done || is_locked s || not (any (str_eq opt) q.options) then s else record s {
      selected = some opt;
      pending = s.pending ++ (str_eq opt q.answer, s.idx) ∷ [];
    }
  ]

  -- The first timer that is pending fires.
  unfoldable pub timer : Diagnostic → Diagnostic
  timer s = elim s.pending [
    | [] ↦ s
    | (is_ok, idx) ∷ rest ↦
        (let s' = record s {
          correct = if is_ok then suc s.correct else s.correct;
          selected = none;
          pending = rest;
        } in
          if leb (length qs) (idx + 1)
          then record s' { done = true }
          else record s' { idx = suc s.idx })
  ]

  -- The options that are chosen, each before the timer of the one before has fired.
  unfoldable pub run : List String → Diagnostic → Diagnostic
  unfolding answer timer
  run [] s = s
  run (opt ∷ opts) s = run opts (timer (answer opt s))
