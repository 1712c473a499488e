-- ===== src/FriendChat/Tests.antt =====
-- An open conversation on concrete events.
use jolyne.Base.{
  ◌+◌, ◌%◌, ◌==◌, ℕ, ◌≡◌, refl, false, true, List, [], ◌∷◌, Option, none, some, String, map,
}
use jolyne.Inbox.{FriendProfile}
use jolyne.FriendChat.Streaks
use jolyne.FriendChat.Streaks.{
  Streaks, RestoreStreakResult, initial, opens_restore, confirms, restore_answers, store_sets,
  announces, profile_loads, header_streak, shows_lost_banner,
}
use jolyne.FriendChat.Restored.{told_last, header_streak-react_all}
use jolyne.FriendSocket.{FriendMessage, FriendEvent}
use jolyne.Notify
use jolyne.Learn.Counting.{count}
use jolyne.FriendChat.Selection.{
  bulk_delete, Gesture, clicks, presses_long, gesture, gesture_all, is_on, is_selectable,
  count-bulk_delete,
}
use jolyne.FriendChat.{FriendChat, Input, arrives, react_all}
use jolyne.FriendChat.Messages.{Inv, react_all-Inv}

abbrev line : ℕ → String → FriendMessage
line id body = record {
  id = id;
  sender_id = 2;
  body = body;
  sent_at = "now";
  edited_at = none;
  deleted_at = none;
  kind = none;
  payload = none;
}

abbrev empty : FriendChat
empty = record {
  msgs = [];
  peer_removed_me = false;
  peer_read_at = none;
  profile_streak = none;
  peer_typing = false;
  typing_timer = false;
  selected_ids = [];
  store = Notify.initial;
}

abbrev inputs : List Input
inputs =
    arrives (FriendEvent.history (line 1 "hi" ∷ line 2 "you?" ∷ []) none)
    ∷ arrives FriendEvent.typing
    ∷ arrives (FriendEvent.msg (line 1 "hello"))
    ∷ []

edited : (react_all 1 7 inputs empty).msgs ≡ line 1 "hello" ∷ line 2 "you?" ∷ []
unfolding react_all
edited = refl

Inv-conversation : Inv (react_all 1 7 inputs empty)
Inv-conversation = react_all-Inv 1 7 inputs empty refl (record { distinct = refl; timed = refl })

-- A click selects nothing at first; the message 3 is taken off again.
abbrev gestures : List Gesture
gestures = clicks (line 1 "a") ∷ clicks (line 3 "c") ∷ presses_long (line 3 "c") ∷ []

deletes_two :
    (bulk_delete
      (gesture_all 2 (clicks (line 1 "a") ∷ presses_long (line 2 "b") ∷ gestures) empty)).1
    ≡ 2 ∷ 1 ∷ []
unfolding gesture_all bulk_delete
deletes_two = refl

bulk_delete_example :
    let begun =
      gesture 2 (presses_long (line 2 "b")) (gesture_all 2 (map clicks (line 1 "a" ∷ [])) empty) in
    count (λ j. 1 == j) (bulk_delete (gesture_all 2 gestures begun)).1
    ≡ (count (is_on 2 1) gestures + 0) % 2
unfolding is_selectable
bulk_delete_example =
    count-bulk_delete 2 1 (line 1 "a" ∷ []) (line 2 "b") gestures empty refl refl
      (refl, (refl, (refl, tt)))

abbrev ana : FriendProfile
ana = record {
  peer_id = 2;
  peer_lang = none;
  display_name = "Ana";
  bio = "";
  birthdate = none;
  photos = [];
  prompts = [];
  peer_removed_me = false;
  peer_verified = none;
  streak = 0;
  streak_at_risk = false;
  lost_streak = some 12;
  lost_at = some "2024-03-01";
  restores_remaining_this_month = some 3;
}

abbrev unloaded : Streaks
unloaded = record {
  profile = none;
  store = Notify.initial;
  restore_open = false;
  modal = initial;
  closings = 0;
}

abbrev restoring : RestoreStreakResult
restoring = record { restored = true; new_streak = 12; remaining_this_month = 2; err_code = "" }

abbrev restores_twelve : List (Streaks.Input 7)
restores_twelve =
    opens_restore ∷ confirms ∷ restore_answers (some restoring) ∷ store_sets 12 true ∷ []

header_example :
    header_streak 7 (Streaks.react_all 7 (profile_loads ana ∷ restores_twelve) unloaded)
    ≡ some (told_last 7 restores_twelve (0, false))
header_example = header_streak-react_all 7 ana restores_twelve unloaded

-- 1 March 2024 is 1709251200 s; the banner is there two days later, and gone after the restoration.
abbrev parse_day : String → Option ℕ
parse_day _ = some 1_709_251_200_000

shows_banner :
    shows_lost_banner parse_day 1_709_500_000_000
      (Streaks.react_all 7 (profile_loads ana ∷ []) unloaded)
    ≡ true
unfolding shows_lost_banner Streaks.react_all
shows_banner = refl
