-- ===== src/ScriptDiagnostic/Passing.antt =====
-- Who passes the test.
use jolyne.Base.{ℕ, ◌≡◌, true, false, List, [], map, none, any, String, str_eq}
use jolyne.ScriptDiagnostic.{Question, Diagnostic, answer}

-- The answer is among the options.
abbrev pub IsOffered : Question → Type 0
IsOffered q = any (str_eq q.answer) q.options ≡ true

-- The state after n right answers of a test of `total` questions.
abbrev after : ℕ → ℕ → Diagnostic
after total n = record { idx = n; correct = n; selected = none; done = false; pending = [] }

abbrev pub answers : List Question → List String
answers qs = map (λ q. q.answer) qs
