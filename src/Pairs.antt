-- ===== src/Pairs.antt =====
-- frontend/src/components/learn/exercises.tsx, `MatchExercise`: the pairs are the numbers below the
-- length of `ex.pairs`, in both columns.
pub mod Matched
pub mod Tests
use jolyne.Base.{
  ℕ, ◌+◌, ◌-◌, Bool, true, false, ◌||◌, List, [], ◌∷◌, ◌++◌, Option, none, some, any, length, ltb,
  ◌==◌, if◌then◌else◌,
}

-- `timers` counts the timers that will take a wrong choice back.
pub record Matching : Type 0 where
  pub sel_left : Option ℕ
  pub sel_right : Option ℕ
  pub matched : List ℕ
  pub mistakes : ℕ
  pub wrong : Bool
  pub timers : ℕ

abbrev pub initial : Matching
initial = record {
  sel_left = none;
  sel_right = none;
  matched = [];
  mistakes = 0;
  wrong = false;
  timers = 0;
}

-- `matched.has(id)`
abbrev pub has : ℕ → List ℕ → Bool
has id ids = any (λ j. id == j) ids

-- `next.add(id)`
abbrev pub add : ℕ → List ℕ → List ℕ
add id ids = if has id ids then ids else ids ++ id ∷ []

unfoldable pub try_match : Option ℕ → Option ℕ → Matching → Matching
try_match none r s = s
try_match (some l) none s = s
try_match (some l) (some r) s =
    if l == r
    then record s { matched = add l s.matched; sel_left = none; sel_right = none }
    else record s { mistakes = s.mistakes + 1; wrong = true; timers = s.timers + 1 }

-- A click on a cell selects it, and tries it with what is selected in the other column.
unfoldable pub click_left : ℕ → Matching → Matching
unfolding try_match
click_left id s =
    if has id s.matched
    then s
    else try_match (some id) s.sel_right (record s { sel_left = some id })

unfoldable pub click_right : ℕ → Matching → Matching
unfolding try_match
click_right id s =
    if has id s.matched
    then s
    else try_match s.sel_left (some id) (record s { sel_right = some id })

-- The callback of the timer.
unfoldable pub take_back : Matching → Matching
take_back s = record s { timers = s.timers - 1; wrong = false; sel_left = none; sel_right = none }

-- `matched.size === ex.pairs.length`
unfoldable pub is_done : ℕ → Matching → Bool
is_done pairs s = length s.matched == pairs

pub data Event : Type 0 where
  clicks_left clicks_right : ℕ → Event
  timer_fires : Event

-- The cells have the numbers below `pairs`.
unfoldable pub handle : ℕ → Event → Matching → Matching
unfolding click_left click_right take_back
handle pairs (Event.clicks_left id) s = if ltb id pairs then click_left id s else s
handle pairs (Event.clicks_right id) s = if ltb id pairs then click_right id s else s
handle pairs Event.timer_fires s = if ltb 0 s.timers then take_back s else s

unfoldable pub run : ℕ → List Event → Matching → Matching
unfolding handle
run pairs [] s = s
run pairs (e ∷ es) s = run pairs es (handle pairs e s)
