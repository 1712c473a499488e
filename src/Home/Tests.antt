-- ===== src/Home/Tests.antt =====
-- The modes of the home page on concrete swipes.
use jolyne.Base.{◌≡◌, refl, true, false, List, [], ◌∷◌, some}
use jolyne.Chat.{ChatStatus}
use jolyne.Home.{
  anon, friends, learn, chat, view_of, Input, touch_starts, touch_ends, pointer_downs, pointer_ups,
  clicks_tab, remounts, mounted, react_all,
}

-- A swipe that is too short, one to the left, a drag to the right that is too steep, and a click.
abbrev inputs : List Input
inputs =
    touch_starts (some (200, 100)) false
    ∷ touch_ends (some (151, 100))
    ∷ touch_starts (some (200, 100)) false
    ∷ touch_ends (some (150, 90))
    ∷ pointer_downs (100, 0) false
    ∷ pointer_ups 1000 (160, 51)
    ∷ remounts
    ∷ []

swipes : (react_all inputs (mounted anon true true ChatStatus.idle)).mode ≡ friends
unfolding react_all
swipes = refl

clicks :
    (react_all
      (clicks_tab learn ∷ clicks_tab friends ∷ [])
      (mounted anon true true ChatStatus.idle)).slide_right
    ≡ false
unfolding react_all
clicks = refl

shows_chat : view_of ChatStatus.post_chat ≡ chat
unfolding view_of
shows_chat = refl
