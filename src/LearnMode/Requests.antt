-- ===== src/LearnMode/Requests.antt =====
-- The requests of the mode of courses, and their late answers.
use jolyne.Base.{
  ℕ, ◌+◌, ◌≡◌, Bool, true, false, not, ◌||◌, List, [], ◌∷◌, none, some, String, if◌then◌else◌,
  arith,
}
use jolyne.Learn.Counting.{count, count-append}
use jolyne.LearnMode.{
  Request, enrol, lesson, LearnState, LearnMode, started, Input, first_loads, vocab_loads,
  state_loads, courses_load, opens, goes_back, course_opens, course_refreshes, daily_loads, chooses,
  enrolled, starts, lesson_loads, passes_diagnostic, skip_answers, closes_lesson, loses_hearts,
  plays_daily, closes_daily, shows_diagnostic, closes_hearts, react, react_all, choose,
}

-- A request that keeps the mode busy.
abbrev pub is_busy_request : Request → Bool
is_busy_request (enrol l start_unit) = true
is_busy_request (lesson id) = true
is_busy_request _ = false

module _ (Courses Tree Lesson Daily Vocab : Type 0) where
  -- The answer to a request that keeps the mode busy.
  abbrev pub is_answer : Input Courses Tree Lesson Daily Vocab → Bool
  is_answer (enrolled tr) = true
  is_answer (lesson_loads lp) = true
  is_answer _ = false

  -- A history in which such an answer comes only while the request is pending.
  abbrev pub Answers :
      LearnMode Courses Tree Lesson Daily Vocab
      → List (Input Courses Tree Lesson Daily Vocab)
      → Type 0
  Answers s [] = Unit {0}
  Answers s (i ∷ is) =
      ((not (is_answer i) || s.busy) ≡ true)
      × Answers (react Courses Tree Lesson Daily Vocab i s).0 is

  abbrev weight : Bool → ℕ
  weight b = if b then 1 else 0

  busy-react :
      (i : Input Courses Tree Lesson Daily Vocab) (s : LearnMode Courses Tree Lesson Daily Vocab)
      → (not (is_answer i) || s.busy) ≡ true
      → weight s.busy + count is_busy_request (react Courses Tree Lesson Daily Vocab i s).1
        ≡ weight (react Courses Tree Lesson Daily Vocab i s).0.busy + weight (is_answer i)
  unfolding react
  busy-react (first_loads none) s h = ground arith
  busy-react (first_loads (some a)) s h = ground arith
  busy-react (vocab_loads v) s h = ground arith
  busy-react (state_loads st) s h = ground arith
  busy-react (courses_load cs) s h = ground arith
  busy-react (opens l) s h = ground arith
  busy-react goes_back s h = ground arith
  busy-react (course_opens l none) s h = ground arith
  busy-react (course_opens l (some a)) s h = ground arith
  busy-react (course_refreshes l none) s h = ground arith
  busy-react (course_refreshes l (some a)) s h = ground arith
  busy-react (daily_loads refreshing none) s h = ground arith
  busy-react (daily_loads refreshing (some d)) s h = ground arith
  busy-react (chooses start_unit) s h = ground arith
  busy-react (enrolled none) s h = ground (arith, h)
  busy-react (enrolled (some tr)) s h = ground (arith, h)
  busy-react (starts id) s h = ground arith
  busy-react (lesson_loads none) s h = ground (arith, h)
  busy-react (lesson_loads (some lp)) s h = ground (arith, h)
  busy-react (passes_diagnostic script_units) s h = ground arith
  busy-react (skip_answers none) s h = ground arith
  busy-react (skip_answers (some tr)) s h = ground arith
  busy-react (closes_lesson completed) s h = ground arith
  busy-react loses_hearts s h = ground arith
  busy-react plays_daily s h = ground arith
  busy-react (closes_daily completed) s h = ground arith
  busy-react (shows_diagnostic shown) s h = ground arith
  busy-react (closes_hearts changed) s h = ground arith

  busy-react_all :
      (is : List (Input Courses Tree Lesson Daily Vocab))
      (s : LearnMode Courses Tree Lesson Daily Vocab)
      → Answers s is
      → weight s.busy + count is_busy_request (react_all Courses Tree Lesson Daily Vocab is s).1
        ≡ weight (react_all Courses Tree Lesson Daily Vocab is s).0.busy + count is_answer is
  unfolding react_all
  busy-react_all [] s h = omega arith
  busy-react_all (i ∷ is) s (a, h) =
      let (s', out) = react Courses Tree Lesson Daily Vocab i s in
      omega (
        arith,
        busy-react i s a,
        busy-react_all is s' h,
        count-append is_busy_request out (react_all Courses Tree Lesson Daily Vocab is s').1,
      )

  -- Whatever is pressed and answered, as long as an answer comes only to a request that is pending, at
  -- most one enrolment or start of a lesson is pending at a time, and the mode is busy exactly while
  -- one is: those that were sent are those that were answered, and one more while it is busy.
  pub busy-react_all-started :
      (is : List (Input Courses Tree Lesson Daily Vocab))
      → Answers (started Courses Tree Lesson Daily Vocab) is
      → let (t, requests) =
          react_all Courses Tree Lesson Daily Vocab is (started Courses Tree Lesson Daily Vocab) in
        count is_busy_request requests ≡ count is_answer is + (if t.busy then 1 else 0)
  busy-react_all-started is h =
      omega (arith, busy-react_all is (started Courses Tree Lesson Daily Vocab) h)

  -- Where the user opens a course, goes back and opens another one, and the first course is answered
  -- last, the screen shows the first course as the second one: a level that is chosen on it is an
  -- enrolment in the second course.
  pub react_all-mixed :
      (first second : String) (a b : Tree × LearnState) (start_unit : ℕ)
      (s : LearnMode Courses Tree Lesson Daily Vocab)
      → s.busy ≡ false
      → let (t, requests) =
          react_all Courses Tree Lesson Daily Vocab
            (opens first
              ∷ goes_back
              ∷ opens second
              ∷ course_opens second (some b)
              ∷ course_opens first (some a)
              ∷ [])
            s in
        (t.lang ≡ some second)
        × (t.tree ≡ some a.0)
        × ((choose Courses Tree Lesson Daily Vocab start_unit t).1 ≡ enrol second start_unit ∷ [])
  unfolding react_all choose
  react_all-mixed first second a b start_unit s h = ground (arith, h)
