-- ===== src/Home/Tabs.antt =====
-- frontend/src/components/Conversation.tsx: how the mode changes.
use jolyne.Base.{
  ℕ, zero, suc, ◌+◌, ◌-◌, ◌≤◌, ◌≡◌, refl, Bool, false, not, ◌&&◌, ◌||◌, List, [], ◌∷◌, Option, none,
  some, ltb, All, arith, if◌then◌else◌, if_cases,
}
use mathlib.Core.Path.{subst}
use jolyne.Chat.{ChatStatus}
use jolyne.Home.{
  Mode, anon, friends, learn, index_of, mode_at, Home, same_mode, switch_mode, shows_tabs,
  shows_mode_tabs, distance, swipe, touch_started, is_short_touch, end_touch, touch_ended,
  pointer_down, is_short_drag, end_drag, pointer_up, Input, session_changes, status_changes,
  hash_changes, conversation_changes, clicks_tab, touch_starts, touch_ends, pointer_downs,
  pointer_ups, remounts, mounted, react, react_all,
}

-- From a mode to a state: the page stays in its mode, or goes to the mode beside it and slides to its
-- side.
pub record Moves (m : Mode) (t : Home) : Type 0 where
  pub upper : index_of t.mode ≤ index_of m + 1
  pub lower : index_of m ≤ index_of t.mode + 1
  pub side : same_mode t.mode m ≡ false → t.slide_right ≡ ltb (index_of m) (index_of t.mode)
  pub kept : t.last_home_mode ≡ t.mode

index_of-le : (m : Mode) → index_of m ≤ 2
index_of-le anon = omega arith
index_of-le friends = omega arith
index_of-le learn = omega arith

abbrev switched : Mode → Home → Home
switched next s = record s {
  slide_right = ltb (index_of s.mode) (index_of next);
  mode = next;
  last_home_mode = next;
}

stays : (s : Home) → s.last_home_mode ≡ s.mode → Moves s.mode s
stays s h = record { upper = omega arith; lower = omega arith; side = λ e. ground arith; kept = h }

index_of-mode_at : (i : ℕ) → i ≤ 2 → index_of (mode_at i) ≡ i
index_of-mode_at zero h = refl
index_of-mode_at (suc zero) h = refl
index_of-mode_at (suc (suc zero)) h = refl
index_of-mode_at (suc (suc (suc i))) h = absurd (omega arith)

switch_mode-Moves :
    (next : Mode) (s : Home)
    → s.last_home_mode ≡ s.mode
    → index_of next ≤ index_of s.mode + 1
    → index_of s.mode ≤ index_of next + 1
    → Moves s.mode (switch_mode next s)
unfolding switch_mode
switch_mode-Moves next s h u l =
    if_cases (Moves s.mode) (same_mode next s.mode) _ (switched next s) (λ _. stays s h)
      (λ _. record { upper = u; lower = l; side = λ e. refl; kept = refl })

swipe-Moves : (from to : ℕ) (s : Home) → s.last_home_mode ≡ s.mode → Moves s.mode (swipe from to s)
swipe-Moves from to s h =
    let i = index_of s.mode in
    let most = index_of-le s.mode in
    if_cases (Moves s.mode) (ltb to from && ltb i 2) _ _
      (λ e.
        let at : index_of (mode_at (i + 1)) ≡ i + 1 = index_of-mode_at (i + 1) (ground arith) in
        switch_mode-Moves (mode_at (i + 1)) s h (omega arith) (omega arith))
      (λ _.
        if_cases (Moves s.mode) (ltb from to && ltb 0 i) _ _
          (λ e.
            let at : index_of (mode_at (i - 1)) ≡ i - 1 = index_of-mode_at (i - 1) (omega arith) in
            switch_mode-Moves (mode_at (i - 1)) s h (omega arith) (ground arith))
          (λ _. stays s h))

end_touch-Moves :
    (start at : Option (ℕ × ℕ)) (s : Home)
    → s.last_home_mode ≡ s.mode
    → Moves s.mode (end_touch start at s)
end_touch-Moves none at s h = stays s h
end_touch-Moves (some start) none s h = stays s h
end_touch-Moves (some (x0, y0)) (some (x, y)) s h =
    if_cases (Moves s.mode) (is_short_touch (distance x0 x) (distance y0 y)) _ _ (λ _. stays s h)
      (λ _. swipe-Moves x0 x s h)

end_drag-Moves :
    (width : ℕ) (start : Option (ℕ × ℕ)) (at : ℕ × ℕ) (s : Home)
    → s.last_home_mode ≡ s.mode
    → Moves s.mode (end_drag width start at s)
end_drag-Moves width none at s h = stays s h
end_drag-Moves width (some (x0, y0)) (x, y) s h =
    if_cases (Moves s.mode) (is_short_drag width (distance x0 x) (distance y0 y)) _ _
      (λ _. stays s h) (λ _. swipe-Moves x0 x s h)

-- Anything but a click on a tab.
abbrev pub IsGesture : Input → Type 0
IsGesture (clicks_tab m) = ⊥
IsGesture _ = Unit

react-Moves :
    (i : Input) (s : Home) → IsGesture i → s.last_home_mode ≡ s.mode → Moves s.mode (react i s)
unfolding react touch_started touch_ended pointer_down pointer_up
react-Moves (clicks_tab m) s g h = elim g [ ]
react-Moves (touch_starts none guarded) s g h = stays s h
react-Moves (touch_starts (some at) guarded) s g h =
    if_cases (Moves s.mode) (not (shows_tabs s)) s
      (record s { touch = if guarded then none else some at }) (λ _. stays s h)
      (λ _. stays (record s { touch = if guarded then none else some at }) h)
react-Moves (touch_ends at) s g h = end_touch-Moves s.touch at (record s { touch = none }) h
react-Moves (pointer_downs at guarded) s g h =
    if_cases (Moves s.mode) (not (shows_tabs s) || guarded) s (record s { swipe_start = some at })
      (λ _. stays s h) (λ _. stays (record s { swipe_start = some at }) h)
react-Moves (pointer_ups width at) s g h =
    end_drag-Moves width s.swipe_start at (record s { swipe_start = none }) h
react-Moves (session_changes hydrated authed) s g h =
    stays (record s { hydrated = hydrated; authed = authed }) h
react-Moves (status_changes status) s g h = stays (record s { status = status }) h
react-Moves (hash_changes is_config) s g h = stays (record s { is_config_step = is_config }) h
react-Moves (conversation_changes is_open) s g h = stays (record s { friend_conv_open = is_open }) h
react-Moves remounts s g h =
    let drawn = mounted s.last_home_mode s.hydrated s.authed s.status in
    subst (λ m. Moves m drawn) h (stays drawn refl)

react-kept :
    (i : Input) (s : Home)
    → s.last_home_mode ≡ s.mode
    → (react i s).last_home_mode ≡ (react i s).mode
unfolding react switch_mode
react-kept (clicks_tab m) s h = ground (arith, h)
react-kept (touch_starts at guarded) s h = (react-Moves (touch_starts at guarded) s tt h).kept
react-kept (touch_ends at) s h = (react-Moves (touch_ends at) s tt h).kept
react-kept (pointer_downs at guarded) s h = (react-Moves (pointer_downs at guarded) s tt h).kept
react-kept (pointer_ups width at) s h = (react-Moves (pointer_ups width at) s tt h).kept
react-kept (session_changes hydrated authed) s h = h
react-kept (status_changes status) s h = h
react-kept (hash_changes is_config) s h = h
react-kept (conversation_changes is_open) s h = h
react-kept remounts s h = refl

react_all-kept :
    (is : List Input) (s : Home)
    → s.last_home_mode ≡ s.mode
    → (react_all is s).last_home_mode ≡ (react_all is s).mode
unfolding react_all
react_all-kept [] s h = h
react_all-kept (i ∷ is) s h = react_all-kept is (react i s) (react-kept i s h)

-- After any inputs, whatever but a click on a tab comes next leaves the page in its mode or takes it to
-- the mode beside it, sliding to its side; and a page that is drawn anew starts in the mode of the page
-- before.
pub react_all-mounted_Moves :
    (last : Mode) (hydrated authed : Bool) (status : ChatStatus) (is : List Input) (i : Input)
    → IsGesture i
    → Moves
        (react_all is (mounted last hydrated authed status)).mode
        (react i (react_all is (mounted last hydrated authed status)))
react_all-mounted_Moves last hydrated authed status is i g =
    react-Moves i (react_all is (mounted last hydrated authed status)) g
      (react_all-kept is (mounted last hydrated authed status) refl)

-- Nobody is signed in.
record SignedOut (m : Mode) (s : Home) : Type 0 where
  tabless : shows_tabs s ≡ false
  untouched : s.touch ≡ none
  undragged : s.swipe_start ≡ none
  same : s.mode ≡ m
  last_same : s.last_home_mode ≡ m

abbrev pub IsSignedOut : Input → Type 0
IsSignedOut (session_changes hydrated authed) = (hydrated && authed) ≡ false
IsSignedOut _ = Unit

react-SignedOut :
    (m : Mode) (i : Input) (s : Home) → IsSignedOut i → SignedOut m s → SignedOut m (react i s)
unfolding react touch_started touch_ended pointer_down pointer_up shows_mode_tabs shows_tabs
react-SignedOut m i s o h = record {
  tabless = ground (arith, h.tabless, h.untouched, h.undragged);
  untouched = ground (arith, h.tabless, h.untouched, h.undragged);
  undragged = ground (arith, h.tabless, h.untouched, h.undragged);
  same = ground (arith, h.tabless, h.untouched, h.undragged, h.same, h.last_same);
  last_same = ground (arith, h.tabless, h.untouched, h.undragged, h.same, h.last_same);
}

react_all-SignedOut :
    (m : Mode) (is : List Input) (s : Home)
    → All IsSignedOut is
    → SignedOut m s
    → SignedOut m (react_all is s)
unfolding react_all
react_all-SignedOut m [] s o h = h
react_all-SignedOut m (i ∷ is) s (o, os) h =
    react_all-SignedOut m is (react i s) os (react-SignedOut m i s o h)

-- As long as nobody is signed in, no input shows the tabs or changes the mode.
pub react_all-signed_out :
    (last : Mode) (hydrated : Bool) (status : ChatStatus) (is : List Input)
    → All IsSignedOut is
    → let s = react_all is (mounted last hydrated false status) in
      (s.mode ≡ last) × (shows_tabs s ≡ false)
unfolding shows_tabs
react_all-signed_out last hydrated status is o =
    let end = react_all-SignedOut last is (mounted last hydrated false status) o (record {
      tabless = ground arith;
      untouched = refl;
      undragged = refl;
      same = refl;
      last_same = refl;
    }) in
    (end.same, end.tabless)
