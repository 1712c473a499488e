-- ===== src/Pairs/Tests.antt =====
-- The exercise of pairs on concrete clicks.
use jolyne.Base.{◌≡◌, refl, List, [], ◌∷◌}
use jolyne.Pairs.{Event, clicks_left, clicks_right, timer_fires, run, initial}

abbrev clumsy : List Event
clumsy = clicks_left 0 ∷ clicks_right 1 ∷ timer_fires ∷ clicks_right 2 ∷ clicks_left 2 ∷ []

one_mistake : (run 3 clumsy initial).mistakes ≡ 1
unfolding run
one_mistake = refl
