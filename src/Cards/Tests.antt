-- ===== src/Cards/Tests.antt =====
-- The cards on concrete clicks.
use jolyne.Base.{◌≡◌, refl, List, [], ◌∷◌, some, All, String}
use jolyne.Learn.Lesson.{build_exercises}
use jolyne.Learn.Tests.{lesson, draws}
use jolyne.Cards.{
  choice, select, check_choice, leave_choice, assembly, put, take_off, check_assembly,
  leave_assembly, norm,
}
use jolyne.Cards.Solvable.{IsSolvable, build_exercises-IsSolvable}

wrong_choice :
    (leave_choice "oui" (check_choice (select ("oui" ∷ "non" ∷ []) "non" choice))).1 ≡ some 1
unfolding leave_choice check_choice select
wrong_choice = refl

squeezed : norm (λ s. s) "  a \n b " ≡ "a b"
unfolding norm
squeezed = refl

-- The second word first, taken off again.
abbrev tokens : List String
tokens = "noches" ∷ "buenas" ∷ []

assembled :
    (leave_assembly
      (λ s. s)
      tokens
      "buenas  noches"
      (check_assembly (put tokens 0 (put tokens 1 (take_off 0 (put tokens 0 assembly)))))).1
    ≡ some 0
unfolding leave_assembly check_assembly put take_off
assembled = refl

IsSolvable-lesson : All (IsSolvable (λ s. s)) (build_exercises draws lesson)
IsSolvable-lesson = build_exercises-IsSolvable (λ s. s) draws lesson
