-- ===== src/TabAttention/Tests.antt =====
-- The title of the tab on a concrete chat.
use jolyne.Base.{◌≡◌, refl, true, false, List, [], ◌∷◌}
use jolyne.TabAttention.{Input, counts, hides, mounted, react_all}

abbrev away : List Input
away = counts 3 ∷ hides true ∷ counts 4 ∷ counts 6 ∷ []

back : (react_all (away) (mounted 2 false)).chimes ≡ 2
unfolding react_all
back = refl
