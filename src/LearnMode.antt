-- ===== src/LearnMode.antt =====
-- frontend/src/components/learn/LearnMode.tsx: the mode of courses, from the list of courses to a
-- lesson. A request is an effect and its answer an input, which says what was asked for even where the
-- code does not look at it. Courses, trees, lessons and entries of the notebook are parameters; of the
-- state of the learner only the hearts are read here.
pub mod Requests
pub mod Tests
use jolyne.Base.{
  ℕ, zero, suc, ◌+◌, Bool, true, false, not, ◌&&◌, ◌||◌, List, [], ◌∷◌, ◌++◌, Option, none, some,
  is_some, leb, ◌==◌, String, if◌then◌else◌,
}

pub record LearnState : Type 0 where
  pub premium : Bool
  pub hearts : ℕ

-- The requests that are sent.
pub data Request : Type 0 where
  course : (lang : String) → Request
  daily_lesson : (lang : String) → Request
  courses_and_state : Request
  learn_state : Request
  courses_list : Request
  vocab : Request
  enrol : (lang : String) (start_unit : ℕ) → Request
  skip : (lang : String) (start_unit : ℕ) → Request
  lesson : (id : ℕ) → Request

module _ (Courses Tree Lesson Daily Vocab : Type 0) where
  pub record LearnMode : Type 0 where
    pub courses : Option Courses
    pub state : Option LearnState
    pub lang : Option String
    pub tree : Option Tree
    pub active : Option Lesson
    pub out_of_hearts : Bool
    pub diagnostic : Bool
    pub loading : Bool
    pub busy : Bool
    pub vocab_entries : Option Vocab
    pub daily : Option Daily
    pub playing_daily : Bool

  abbrev pub started : LearnMode
  started = record {
    courses = none;
    state = none;
    lang = none;
    tree = none;
    active = none;
    out_of_hearts = false;
    diagnostic = false;
    loading = true;
    busy = false;
    vocab_entries = none;
    daily = none;
    playing_daily = false;
  }

  -- The first effect, for a user who is signed in.
  unfoldable pub mount : LearnMode → LearnMode × List Request
  mount s = (s, courses_and_state ∷ vocab ∷ [])

  unfoldable pub first_loaded : Option (Courses × LearnState) → LearnMode → LearnMode
  first_loaded none s = record s { loading = false }
  first_loaded (some (cs, st)) s = record s { courses = some cs; state = some st; loading = false }

  -- `refreshCourse`, and `openCourse`, up to their awaits.
  unfoldable pub refresh_course : LearnMode → LearnMode × List Request
  refresh_course s = elim s.lang [ none ↦ (s, []) | some l ↦ (s, course l ∷ []) ]

  unfoldable pub open_course : String → LearnMode → LearnMode × List Request
  open_course l s = (record s { lang = some l; tree = none; daily = none }, course l ∷ [])

  abbrev pub set_course : Option (Tree × LearnState) → LearnMode → LearnMode
  set_course none s = s
  set_course (some (tr, st)) s = record s { tree = some tr; state = some st }

  -- They go on once the course of `l` is there or could not be had.
  unfoldable pub course_refreshed :
      String → Option (Tree × LearnState) → LearnMode → LearnMode × List Request
  course_refreshed l answer s = (set_course answer s, vocab ∷ daily_lesson l ∷ [])

  unfoldable pub course_opened :
      String → Option (Tree × LearnState) → LearnMode → LearnMode × List Request
  course_opened l answer s = (set_course answer s, daily_lesson l ∷ [])

  -- The lesson of the day; the first part tells whether the answer is one to `refreshCourse`, which
  -- forgets the lesson where it fails.
  unfoldable pub daily_loaded : Bool → Option (Option Daily) → LearnMode → LearnMode
  daily_loaded refreshing none s = if refreshing then record s { daily = none } else s
  daily_loaded refreshing (some d) s = record s { daily = d }

  unfoldable pub back_to_list : LearnMode → LearnMode × List Request
  back_to_list s =
      (record s { lang = none; tree = none; daily = none }, learn_state ∷ courses_list ∷ [])

  unfoldable pub choose : ℕ → LearnMode → LearnMode × List Request
  choose start_unit s = elim s.lang [
    | none ↦ (s, [])
    | some l ↦ if s.busy then (s, []) else (record s { busy = true }, enrol l start_unit ∷ [])
  ]

  unfoldable pub chosen : Option Tree → LearnMode → LearnMode
  chosen none s = record s { busy = false }
  chosen (some tr) s = record s { tree = some tr; busy = false }

  -- The learner has no hearts left.
  abbrev pub is_out : Option LearnState → Bool
  is_out none = false
  is_out (some st) = not st.premium && leb st.hearts 0

  unfoldable pub start_lesson : ℕ → LearnMode → LearnMode × List Request
  start_lesson id s =
      if s.busy
      then (s, [])
      else if is_out s.state
      then (record s { out_of_hearts = true }, [])
      else (record s { busy = true }, lesson id ∷ [])

  unfoldable pub lesson_loaded : Option Lesson → LearnMode → LearnMode
  lesson_loaded none s = record s { busy = false }
  lesson_loaded (some lp) s = record s { active = some lp; busy = false }

  -- `skipScript`; `script_units` is the number of units on writing of the tree.
  unfoldable pub skip_script : (script_units : ℕ) → LearnMode → LearnMode × List Request
  skip_script script_units s =
      let s' = record s { diagnostic = false } in
      elim s.lang [
        | none ↦ (s', [])
        | some l ↦ if script_units == 0 then (s', []) else (s', skip l script_units ∷ [])
      ]

  abbrev pub skipped : Option Tree → LearnMode → LearnMode
  skipped none s = s
  skipped (some tr) s = record s { tree = some tr }

  -- `onClose` and `onOutOfHearts` of the player of a lesson, and `onClose` of that of the day.
  unfoldable pub close_lesson : (completed : Bool) → LearnMode → LearnMode × List Request
  unfolding refresh_course
  close_lesson completed s =
      let s' = record s { active = none } in if completed then refresh_course s' else (s', [])

  unfoldable pub lose_hearts : LearnMode → LearnMode × List Request
  unfolding refresh_course
  lose_hearts s = refresh_course (record s { active = none; out_of_hearts = true })

  unfoldable pub close_daily : (completed : Bool) → LearnMode → LearnMode × List Request
  unfolding refresh_course
  close_daily completed s =
      let s' = record s { playing_daily = false; daily = none } in
      if completed then refresh_course s' else (s', [])

  pub data Input : Type 0 where
    first_loads : Option (Courses × LearnState) → Input
    vocab_loads : Option Vocab → Input
    state_loads : Option LearnState → Input
    courses_load : Option Courses → Input
    opens : (lang : String) → Input
    goes_back : Input
    course_opens : (lang : String) → Option (Tree × LearnState) → Input
    course_refreshes : (lang : String) → Option (Tree × LearnState) → Input
    daily_loads : (refreshing : Bool) → Option (Option Daily) → Input
    chooses : (start_unit : ℕ) → Input
    enrolled : Option Tree → Input
    starts : (id : ℕ) → Input
    lesson_loads : Option Lesson → Input
    passes_diagnostic : (script_units : ℕ) → Input
    skip_answers : Option Tree → Input
    closes_lesson : (completed : Bool) → Input
    loses_hearts : Input
    plays_daily : Input
    closes_daily : (completed : Bool) → Input
    shows_diagnostic : (shown : Bool) → Input
    closes_hearts : (changed : Bool) → Input

  abbrev pub or_old : {A : Type 0} → Option A → Option A → Option A
  or_old none old = old
  or_old (some new) old = some new

  unfoldable pub react : Input → LearnMode → LearnMode × List Request
  unfolding first_loaded refresh_course open_course course_refreshed course_opened daily_loaded
      back_to_list choose chosen start_lesson lesson_loaded skip_script close_lesson lose_hearts
      close_daily
  react (first_loads answer) s = (first_loaded answer s, [])
  react (vocab_loads v) s = (record s { vocab_entries = or_old v s.vocab_entries }, [])
  react (state_loads st) s = (record s { state = or_old st s.state }, [])
  react (courses_load cs) s = (record s { courses = or_old cs s.courses }, [])
  react (opens l) s = open_course l s
  react goes_back s = back_to_list s
  react (course_opens l answer) s = course_opened l answer s
  react (course_refreshes l answer) s = course_refreshed l answer s
  react (daily_loads refreshing d) s = (daily_loaded refreshing d s, [])
  react (chooses start_unit) s = choose start_unit s
  react (enrolled tr) s = (chosen tr s, [])
  react (starts id) s = start_lesson id s
  react (lesson_loads lp) s = (lesson_loaded lp s, [])
  react (passes_diagnostic script_units) s = skip_script script_units s
  react (skip_answers tr) s = (skipped tr s, [])
  react (closes_lesson completed) s = close_lesson completed s
  react loses_hearts s = lose_hearts s
  react plays_daily s = (record s { playing_daily = true }, [])
  react (closes_daily completed) s = close_daily completed s
  react (shows_diagnostic shown) s = (record s { diagnostic = shown }, [])
  react (closes_hearts changed) s =
      let s' = record s { out_of_hearts = false } in if changed then refresh_course s' else (s', [])

  unfoldable pub react_all : List Input → LearnMode → LearnMode × List Request
  unfolding react
  react_all [] s = (s, [])
  react_all (i ∷ is) s =
      let (s', out) = react i s in let (t, rest) = react_all is s' in (t, out ++ rest)
