-- ===== src/ChatView/Tests.antt =====
-- The view of a chat on concrete inputs.
use jolyne.Base.{◌≡◌, refl, false, List, [], ◌∷◌, none, some}
use jolyne.ChatView.{
  page, sends_next, mounted, Input, passes, store_changes, next_fires, presses_shortcut,
  goes_back_once, cancels, react_all,
}
use jolyne.ChatView.Cooldown.{IsThrottled, react_all-mounted}
use jolyne.ChatView.Guard.{Guards, react_all-Guards}

-- The timer of the first match is gone when the second one comes.
abbrev waits : List Input
waits =
    passes 2000
    ∷ presses_shortcut
    ∷ store_changes (some 3000) false
    ∷ passes 2000
    ∷ next_fires
    ∷ presses_shortcut
    ∷ passes 1000
    ∷ next_fires
    ∷ presses_shortcut
    ∷ []

asks_once : (react_all waits (mounted 1000 (some 1000) false [])).1 ≡ sends_next ∷ []
unfolding react_all mounted
asks_once = refl

IsThrottled-example : IsThrottled (react_all waits (mounted 1000 (some 1000) false [])).0
IsThrottled-example = react_all-mounted 1000 (some 1000) false [] waits

Guards-example :
    Guards
      (page 1)
      (page 0 ∷ [])
      (react_all
        (goes_back_once ∷ cancels ∷ goes_back_once ∷ [])
        (mounted 1000 none false (page 1 ∷ page 0 ∷ []))).0
Guards-example =
    react_all-Guards (page 1) (page 0 ∷ []) 1000 none false
      (goes_back_once ∷ cancels ∷ goes_back_once ∷ [])
