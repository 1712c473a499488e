-- ===== src/PhotoDrag.antt =====
-- frontend/src/hooks/usePhotoDrag.ts: the dragging of photos from slot to slot. Positions are counted
-- from a corner that is far enough for none to be negative, and -1 is `none`. Each press adds a pair
-- of listeners, and the first release removes all of them; several pairs do what one does, so
-- `listening` tells whether there is one.
pub mod Drops
pub mod Tests
use jolyne.Base.{
  ℕ, zero, suc, ◌+◌, ◌-◌, Bool, true, false, not, ◌&&◌, ◌||◌, List, [], ◌∷◌, ◌++◌, Option, none,
  some, leb, ltb, ◌==◌, is_some, if◌then◌else◌,
}

pub record Point : Type 0 where
  pub x : ℕ
  pub y : ℕ

-- `DOMRect`
pub record Rect : Type 0 where
  pub left : ℕ
  pub right : ℕ
  pub top : ℕ
  pub bottom : ℕ

-- `offset` is the start of the drag and the pointer, whose difference is the offset on the screen.
pub record PhotoDrag : Type 0 where
  pub drag_index : Option ℕ
  pub over_index : Option ℕ
  pub offset : Option (Point × Point)
  pub slots : List Rect
  pub dragging : Bool
  pub start_pos : Point
  pub pending : Option ℕ
  pub listening : Bool

abbrev pub started : PhotoDrag
started = record {
  drag_index = none;
  over_index = none;
  offset = none;
  slots = [];
  dragging = false;
  start_pos = record { x = 0; y = 0 };
  pending = none;
  listening = false;
}

abbrev pub drag_threshold : ℕ
drag_threshold = 8

-- `Math.abs(a - b)`
abbrev pub distance : ℕ → ℕ → ℕ
distance a b = (a - b) + (b - a)

abbrev pub contains : Rect → Point → Bool
contains r p = leb r.left p.x && leb p.x r.right && leb r.top p.y && leb p.y r.bottom

unfoldable pub hit_from : ℕ → List Rect → Point → Option ℕ
hit_from i [] p = none
hit_from i (r ∷ rs) p = let later = hit_from (suc i) rs p in if contains r p then some i else later

-- `hitTest`
unfoldable pub hit_test : List Rect → Point → Option ℕ
unfolding hit_from
hit_test slots p = hit_from 0 slots p

-- `measureSlots`, where the grid is on the screen with the rectangles of its children.
unfoldable pub measure_slots : Option (List Rect) → PhotoDrag → PhotoDrag
measure_slots none s = s
measure_slots (some rects) s = record s { slots = rects }

-- `on_control` tells that the pointer is on a button or an input of the slot.
unfoldable pub on_pointer_down :
    ℕ → (button : ℕ) → (on_control : Bool) → Point → PhotoDrag → PhotoDrag
on_pointer_down index button on_control p s =
    if not (button == 0) || on_control
    then s
    else record s { start_pos = p; pending = some index; dragging = false; listening = true }

abbrev pub is_close : Point → Point → Bool
is_close a b = ltb (distance a.x b.x) drag_threshold && ltb (distance a.y b.y) drag_threshold

unfoldable pub move_to : Point → PhotoDrag → PhotoDrag
unfolding hit_test
move_to p s = record s {
  drag_index = s.pending;
  over_index = hit_test s.slots p;
  offset = some (s.start_pos, p);
}

unfoldable pub on_move : Option (List Rect) → Point → PhotoDrag → PhotoDrag
unfolding measure_slots move_to
on_move grid p s =
    if s.dragging
    then move_to p s
    else if is_close p s.start_pos
    then s
    else move_to p (measure_slots grid (record s { dragging = true }))

abbrev pub differs : ℕ → Option ℕ → Bool
differs a none = true
differs a (some b) = not (a == b)

-- The call of `onReorder` at the end of a drag.
unfoldable pub drop : (item_count : ℕ) → Point → PhotoDrag → List (Option ℕ × ℕ)
unfolding hit_test
drop item_count p s =
    if s.dragging
    then elim (hit_test s.slots p) [
      | none ↦ []
      | some over ↦
          if differs over s.pending && ltb over item_count then (s.pending, over) ∷ [] else []
    ]
    else []

unfoldable pub on_up : (item_count : ℕ) → Point → PhotoDrag → PhotoDrag × List (Option ℕ × ℕ)
unfolding drop
on_up item_count p s = (
  record s {
    listening = false;
    dragging = false;
    pending = none;
    drag_index = none;
    over_index = none;
    offset = none;
  },
  drop item_count p s,
)

pub data Input : Type 0 where
  presses : (index button : ℕ) → (on_control : Bool) → Point → Input
  moves : Option (List Rect) → Point → Input
  releases : Point → Input
  cancels : Point → Input

-- Moves, releases and cancellations are heard only while there are listeners; the listener of a
-- cancellation is `onUp`.
unfoldable pub react : (item_count : ℕ) → Input → PhotoDrag → PhotoDrag × List (Option ℕ × ℕ)
unfolding on_pointer_down on_move on_up
react n (presses index button on_control p) s = (on_pointer_down index button on_control p s, [])
react n (moves grid p) s = (if s.listening then on_move grid p s else s, [])
react n (releases p) s = if s.listening then on_up n p s else (s, [])
react n (cancels p) s = if s.listening then on_up n p s else (s, [])

unfoldable pub react_all :
    (item_count : ℕ) → List Input → PhotoDrag → PhotoDrag × List (Option ℕ × ℕ)
unfolding react
react_all n [] s = (s, [])
react_all n (i ∷ is) s =
    let (s', out) = react n i s in let (t, rest) = react_all n is s' in (t, out ++ rest)
