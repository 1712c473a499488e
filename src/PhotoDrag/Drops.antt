-- ===== src/PhotoDrag/Drops.antt =====
-- Which drags reorder the photos.
use jolyne.Base.{
  ℕ, ◌≡◌, refl, ap, ◌∙◌, Bool, true, false, not, ◌&&◌, ◌||◌, List, [], ◌∷◌, Option, none, some, ltb,
  ◌==◌, if◌then◌else◌, arith, All, All-append, Option-cases, if_cases, inl, inr,
}
use jolyne.PhotoDrag.{
  Point, Rect, PhotoDrag, started, hit_test, is_close, drop, on_move, on_up, Input, presses, moves,
  releases, cancels, react, react_all,
}

-- The press is of a slot that exists.
abbrev pub IsOnSlot : ℕ → Input → Type 0
IsOnSlot n (presses index button on_control p) = ltb index n ≡ true
IsOnSlot n _ = Unit {0}

-- From a slot to another one, both of which exist.
abbrev pub is_proper : ℕ → Option ℕ × ℕ → Bool
is_proper n (none, to) = false
is_proper n (some from, to) = ltb from n && ltb to n && not (from == to)

abbrev pub IsProper : ℕ → Option ℕ × ℕ → Type 0
IsProper n call = is_proper n call ≡ true

abbrev pub in_range : ℕ → Option ℕ → Bool
in_range n none = false
in_range n (some i) = ltb i n

module _ (n : ℕ) where
  -- While listeners are there, a slot that exists is pending; there is no drag without listeners.
  pub record Inv (s : PhotoDrag) : Type 0 where
    pub pressed : (not s.listening || in_range n s.pending) ≡ true
    pub heard : (not s.dragging || s.listening) ≡ true

  drop-IsProper :
      (p : Point) (s : PhotoDrag) → in_range n s.pending ≡ true → All (IsProper n) (drop n p s)
  unfolding drop
  drop-IsProper p s h = elim (Option-cases (hit_test s.slots p)) [
    | inl e ↦ ground (arith, e)
    | inr (over, e) ↦ elim (Option-cases s.pending) [
      | inl i ↦ ground (arith, h, i)
      | inr (from, i) ↦ ground (arith, h, e, i)
    ]
  ]

  on_move-Inv :
      (grid : Option (List Rect)) (p : Point) (s : PhotoDrag)
      → s.listening ≡ true
      → Inv s
      → Inv (on_move grid p s)
  unfolding on_move
  on_move-Inv none p s l h = ground (arith, l, h)
  on_move-Inv (some rects) p s l h = ground (arith, l, h)

  on_up-Inv :
      (p : Point) (s : PhotoDrag)
      → s.listening ≡ true
      → Inv s
      → Inv (on_up n p s).0 × All (IsProper n) (on_up n p s).1
  unfolding on_up
  on_up-Inv p s l h =
      (record { pressed = refl; heard = refl }, drop-IsProper p s (ground (arith, l, h)))

  react-Inv :
      (i : Input) (s : PhotoDrag)
      → IsOnSlot n i
      → Inv s
      → Inv (react n i s).0 × All (IsProper n) (react n i s).1
  unfolding react
  react-Inv (presses index button on_control p) s b h = ground (arith, b, h)
  react-Inv (moves grid p) s b h =
      if_cases (λ u. Inv u × All (IsProper n) []) s.listening (on_move grid p s) s
        (λ l. (on_move-Inv grid p s l h, tt)) (λ l. (h, tt))
  react-Inv (releases p) s b h =
      if_cases (λ u. Inv u.0 × All (IsProper n) u.1) s.listening (on_up n p s) (s, [])
        (λ l. on_up-Inv p s l h) (λ l. (h, tt))
  react-Inv (cancels p) s b h =
      if_cases (λ u. Inv u.0 × All (IsProper n) u.1) s.listening (on_up n p s) (s, [])
        (λ l. on_up-Inv p s l h) (λ l. (h, tt))

  react_all-Inv :
      (is : List Input) (s : PhotoDrag)
      → All (IsOnSlot n) is
      → Inv s
      → Inv (react_all n is s).0 × All (IsProper n) (react_all n is s).1
  unfolding react_all
  react_all-Inv [] s b h = (h, tt)
  react_all-Inv (i ∷ is) s (b, bs) h =
      let (h', now) = react-Inv i s b h in
      let (end, later) = react_all-Inv is (react n i s).0 bs h' in
      (end, All-append (IsProper n) (react n i s).1 _ now later)

  -- Whatever the pointer does, where only slots that exist are pressed, photos are reordered only from
  -- a slot to another one, both of which exist.
  pub react_all-IsProper :
      (is : List Input) → All (IsOnSlot n) is → All (IsProper n) (react_all n is started).1
  react_all-IsProper is b = (react_all-Inv is started b record { pressed = refl; heard = refl }).1

  -- Moves that stay near the press, each with the slots that are on the screen.
  abbrev pub AreClose : Point → List (Option (List Rect) × Point) → Type 0
  AreClose start [] = Unit {0}
  AreClose start ((grid, p) ∷ ps) = (is_close p start ≡ true) × AreClose start ps

  abbrev pub wiggles : List (Option (List Rect) × Point) → List Input → List Input
  wiggles [] end = end
  wiggles ((grid, p) ∷ ps) end = moves grid p ∷ wiggles ps end

  still :
      (grid : Option (List Rect)) (p : Point) (s : PhotoDrag)
      → s.dragging ≡ false
      → is_close p s.start_pos ≡ true
      → (if s.listening then on_move grid p s else s) ≡ s
  unfolding on_move
  still grid p s d c = ground (arith, d, c)

  react_all-wiggles :
      (ps : List (Option (List Rect) × Point)) (end : List Input) (s : PhotoDrag)
      → s.dragging ≡ false
      → AreClose s.start_pos ps
      → react_all n (wiggles ps end) s ≡ react_all n end s
  unfolding react_all
  react_all-wiggles [] end s d c = refl
  react_all-wiggles ((grid, p) ∷ ps) end s d (c, cs) =
      ap (λ u. react_all n (wiggles ps end) u) (still grid p s d c)
      ∙ react_all-wiggles ps end s d cs

  -- A press whose moves all stay within eight pixels in both directions is a click: its release or
  -- cancellation, wherever it is, reorders nothing.
  pub react_all-click :
      (index : ℕ) (start end : Point) (ps : List (Option (List Rect) × Point)) (s : PhotoDrag)
      → AreClose start ps
      → ((react_all n (presses index 0 false start ∷ wiggles ps (releases end ∷ [])) s).1 ≡ [])
        × ((react_all n (presses index 0 false start ∷ wiggles ps (cancels end ∷ [])) s).1 ≡ [])
  unfolding react_all
  react_all-click index start end ps s c =
      let t = record s {
        start_pos = start;
        pending = some index;
        dragging = false;
        listening = true;
      } in
      (
        ap (λ u. u.1) (react_all-wiggles ps (releases end ∷ []) t refl c),
        ap (λ u. u.1) (react_all-wiggles ps (cancels end ∷ []) t refl c),
      )
