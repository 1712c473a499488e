-- ===== src/ScriptDiagnostic/Tests.antt =====
-- The test on a concrete lesson.
use jolyne.Base.{ℕ}
use jolyne.ScriptDiagnostic.{Site}

abbrev draws : Site → ℕ → ℕ
draws site i = i
