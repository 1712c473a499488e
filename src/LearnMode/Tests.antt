-- ===== src/LearnMode/Tests.antt =====
-- The mode of courses on concrete courses; a tree is its language.
use jolyne.Base.{ℕ, ◌+◌, ◌≡◌, refl, false, List, [], ◌∷◌, none, some, String, if◌then◌else◌}
use jolyne.Learn.Counting.{count}
use jolyne.LearnMode.{
  LearnState, started, Input, opens, course_opens, starts, lesson_loads, react_all,
}
use jolyne.LearnMode.Requests.{is_busy_request, is_answer, busy-react_all-started}

abbrev learner : LearnState
learner = record { premium = false; hearts = 3 }

abbrev taps : List (Input ℕ String ℕ ℕ ℕ)
taps =
    opens "es"
    ∷ course_opens "es" (some ("es", learner))
    ∷ starts 1
    ∷ starts 1
    ∷ lesson_loads none
    ∷ starts 2
    ∷ []

busy_example :
    let (t, requests) = react_all ℕ String ℕ ℕ ℕ taps (started ℕ String ℕ ℕ ℕ) in
    count is_busy_request requests
    ≡ count (is_answer ℕ String ℕ ℕ ℕ) taps + (if t.busy then 1 else 0)
unfolding react_all
busy_example =
    busy-react_all-started ℕ String ℕ ℕ ℕ taps (refl, (refl, (refl, (refl, (refl, (refl, tt))))))
