-- ===== src/PhotoDrag/Tests.antt =====
-- The dragging of photos on a concrete grid.
use jolyne.Base.{ℕ, ◌≡◌, refl, false, List, [], ◌∷◌, some}
use jolyne.PhotoDrag.{Point, Rect, Input, presses, moves, releases, cancels, started, react_all}

abbrev at : ℕ → ℕ → Point
at x y = record { x = x; y = y }

abbrev grid : List Rect
grid =
    record { left = 0; right = 100; top = 0; bottom = 100 }
    ∷ record { left = 110; right = 210; top = 0; bottom = 100 }
    ∷ []

abbrev dragging : List Input
dragging = presses 0 0 false (at 50 50) ∷ moves (some grid) (at 120 60) ∷ releases (at 150 50) ∷ []

swapped : (react_all 2 dragging started).1 ≡ (some 0, 1) ∷ []
unfolding react_all
swapped = refl

-- A gesture that the browser cancels moves the photo all the same.
cancelled :
    (react_all 2
      (presses 0 0 false (at 50 50) ∷ moves (some grid) (at 120 60) ∷ cancels (at 150 50) ∷ [])
      started).1
    ≡ (some 0, 1) ∷ []
unfolding react_all
cancelled = refl
