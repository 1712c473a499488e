-- ===== src/Home.antt =====
-- frontend/src/components/Conversation.tsx: the home page with its three modes, the tabs and the swipes
-- between them, and the views of the anonymous chat. Positions are in pixels of the window.
pub mod Tabs
pub mod Tests
use jolyne.Base.{
  ℕ, zero, suc, ◌+◌, ◌-◌, ◌*◌, Bool, true, false, not, ◌&&◌, ◌||◌, List, [], ◌∷◌, Option, none,
  some, ltb, ◌==◌, min, String, str_eq, if◌then◌else◌,
}
use jolyne.Chat.{ChatStatus}

pub data Mode : Type 0 where
  anon friends learn : Mode

-- `MODES.indexOf(mode)` and `MODES[i]`; the code reads the latter only at the index of a mode.
abbrev pub index_of : Mode → ℕ
index_of anon = 0
index_of friends = 1
index_of learn = 2

abbrev pub mode_at : ℕ → Mode
mode_at zero = anon
mode_at (suc zero) = friends
mode_at (suc (suc i)) = learn

pub data View : Type 0 where
  setup error chat farewell searching : View

unfoldable pub view_of : ChatStatus → View
view_of ChatStatus.idle = setup
view_of ChatStatus.error = error
view_of ChatStatus.matched = chat
view_of ChatStatus.post_chat = chat
view_of ChatStatus.ended = farewell
view_of _ = searching

-- `slide_right` is the direction 1 of the slide; `touch` and `swipe_start` are where a touch and a drag
-- with the mouse began.
pub record Home : Type 0 where
  pub mode : Mode
  pub last_home_mode : Mode
  pub slide_right : Bool
  pub friend_conv_open : Bool
  pub is_config_step : Bool
  pub status : ChatStatus
  pub hydrated : Bool
  pub authed : Bool
  pub touch : Option (ℕ × ℕ)
  pub swipe_start : Option (ℕ × ℕ)

abbrev pub same_mode : Mode → Mode → Bool
same_mode a b = index_of a == index_of b

unfoldable pub switch_mode : Mode → Home → Home
switch_mode next s = if same_mode next s.mode then s else record s {
  slide_right = ltb (index_of s.mode) (index_of next);
  mode = next;
  last_home_mode = next;
}

abbrev pub is_idle : ChatStatus → Bool
is_idle ChatStatus.idle = true
is_idle _ = false

unfoldable pub shows_tabs : Home → Bool
shows_tabs s = s.hydrated && s.authed

unfoldable pub shows_mode_tabs : Home → Bool
unfolding shows_tabs
shows_mode_tabs s =
    shows_tabs s
    && not (same_mode s.mode anon && is_idle s.status && s.is_config_step)
    && not (same_mode s.mode friends && s.friend_conv_open)

abbrev pub distance : ℕ → ℕ → ℕ
distance a b = (a - b) + (b - a)

-- The end of a swipe: to the left it goes to the next mode, to the right to the one before.
abbrev pub swipe : ℕ → ℕ → Home → Home
swipe from to s =
    let i = index_of s.mode in
    if ltb to from && ltb i 2
    then switch_mode (mode_at (i + 1)) s
    else if ltb from to && ltb 0 i
    then switch_mode (mode_at (i - 1)) s
    else s

-- `onTouchStart`, with the first finger; `guarded` tells whether it starts in a field or in a part of the
-- page that takes no swipe.
unfoldable pub touch_started : Option (ℕ × ℕ) → (guarded : Bool) → Home → Home
unfolding shows_tabs
touch_started none guarded s = s
touch_started (some at) guarded s =
    if not (shows_tabs s) then s else record s { touch = if guarded then none else some at }

-- `Math.abs(dx) < 50 || Math.abs(dx) < Math.abs(dy) * 1.5`
abbrev pub is_short_touch : (dx dy : ℕ) → Bool
is_short_touch dx dy = ltb dx 50 || ltb (2 * dx) (3 * dy)

abbrev pub end_touch : Option (ℕ × ℕ) → Option (ℕ × ℕ) → Home → Home
end_touch none at s = s
end_touch (some start) none s = s
end_touch (some (x0, y0)) (some (x, y)) s =
    if is_short_touch (distance x0 x) (distance y0 y) then s else swipe x0 x s

unfoldable pub touch_ended : Option (ℕ × ℕ) → Home → Home
unfolding switch_mode
touch_ended at s = end_touch s.touch at (record s { touch = none })

-- `onPointerDown`, for the main button of the mouse, and `onPointerUp`, for the mouse.
unfoldable pub pointer_down : ℕ × ℕ → (guarded : Bool) → Home → Home
unfolding shows_tabs
pointer_down at guarded s =
    if not (shows_tabs s) || guarded then s else record s { swipe_start = some at }

-- `Math.abs(dx) < minDist || Math.abs(dx) < Math.abs(dy) * 1.2`, with `minDist` the smaller of 60 and
-- 18 % of the width of the window.
abbrev pub is_short_drag : (width dx dy : ℕ) → Bool
is_short_drag width dx dy = ltb (100 * dx) (min 6000 (18 * width)) || ltb (5 * dx) (6 * dy)

abbrev pub end_drag : (width : ℕ) → Option (ℕ × ℕ) → ℕ × ℕ → Home → Home
end_drag width none at s = s
end_drag width (some (x0, y0)) (x, y) s =
    if is_short_drag width (distance x0 x) (distance y0 y) then s else swipe x0 x s

unfoldable pub pointer_up : (width : ℕ) → ℕ × ℕ → Home → Home
unfolding switch_mode
pointer_up width at s = end_drag width s.swipe_start at (record s { swipe_start = none })

pub data Input : Type 0 where
  session_changes : (hydrated authed : Bool) → Input
  status_changes : ChatStatus → Input
  hash_changes : (is_config : Bool) → Input
  conversation_changes : (is_open : Bool) → Input
  clicks_tab : Mode → Input
  touch_starts : Option (ℕ × ℕ) → (guarded : Bool) → Input
  touch_ends : Option (ℕ × ℕ) → Input
  pointer_downs : ℕ × ℕ → (guarded : Bool) → Input
  pointer_ups : (width : ℕ) → ℕ × ℕ → Input
  remounts : Input

-- The page is drawn anew with the mode that was there last; the tabs can be clicked where they are
-- shown.
abbrev pub mounted : Mode → (hydrated authed : Bool) → ChatStatus → Home
mounted last hydrated authed status = record {
  mode = last;
  last_home_mode = last;
  slide_right = true;
  friend_conv_open = false;
  is_config_step = false;
  status = status;
  hydrated = hydrated;
  authed = authed;
  touch = none;
  swipe_start = none;
}

unfoldable pub react : Input → Home → Home
unfolding switch_mode shows_mode_tabs touch_started touch_ended pointer_down pointer_up
react (session_changes hydrated authed) s = record s { hydrated = hydrated; authed = authed }
react (status_changes status) s = record s { status = status }
react (hash_changes is_config) s = record s { is_config_step = is_config }
react (conversation_changes is_open) s = record s { friend_conv_open = is_open }
react (clicks_tab m) s = if shows_mode_tabs s then switch_mode m s else s
react (touch_starts at guarded) s = touch_started at guarded s
react (touch_ends at) s = touch_ended at s
react (pointer_downs at guarded) s = pointer_down at guarded s
react (pointer_ups width at) s = pointer_up width at s
react remounts s = mounted s.last_home_mode s.hydrated s.authed s.status

unfoldable pub react_all : List Input → Home → Home
unfolding react
react_all [] s = s
react_all (i ∷ is) s = react_all is (react i s)
