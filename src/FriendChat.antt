-- ===== src/FriendChat.antt =====
-- frontend/src/components/friends/FriendConversation.tsx: the state of an open conversation with a
-- friend, and the handler of its events. `user_id` is the identifier of the user.
pub mod Messages
pub mod Selection
pub mod Streaks
pub mod View
pub mod Restored
pub mod Tests
use mathlib.Core.Option
use jolyne.Base.{
  ℕ, suc, Bool, true, false, not, ◌||◌, List, [], ◌∷◌, ◌++◌, Option, none, some, set, keep, any,
  ◌==◌, String, if◌then◌else◌,
}
use jolyne.Base.Text.{is_empty}
use jolyne.FriendSocket.{FriendMessage, FriendEvent}
use jolyne.Notify.{NotificationState, set_live_streak}

-- `profile_streak` is none where the profile is not loaded; `typing_timer` tells whether the timer that
-- puts the indicator out is pending.
pub record FriendChat : Type 0 where
  pub msgs : List FriendMessage
  pub peer_removed_me : Bool
  pub peer_read_at : Option String
  pub profile_streak : Option (ℕ × Bool)
  pub peer_typing : Bool
  pub typing_timer : Bool
  pub selected_ids : List ℕ
  pub store : NotificationState

-- `prev.findIndex((m) => m.id === id)`, none for -1
abbrev pub find_index : ℕ → List FriendMessage → Option ℕ
find_index id [] = none
find_index id (m ∷ ms) =
    let later = Option.map suc (find_index id ms) in if m.id == id then some 0 else later

unfoldable pub set_msg : FriendMessage → List FriendMessage → List FriendMessage
set_msg m prev = elim (find_index m.id prev) [ none ↦ prev ++ m ∷ [] | some i ↦ set prev i m ]

unfoldable pub receive_peer_typing : FriendChat → FriendChat
receive_peer_typing s = record s { peer_typing = true; typing_timer = true }

-- The callback of the timer.
unfoldable pub typing_timeout : FriendChat → FriendChat
typing_timeout s = record s { peer_typing = false; typing_timer = false }

unfoldable pub on_msg : ℕ → FriendMessage → FriendChat → FriendChat
unfolding set_msg
on_msg user_id m s =
    if m.sender_id == user_id
    then record s { msgs = set_msg m s.msgs }
    else record s { msgs = set_msg m s.msgs; peer_typing = false; typing_timer = false }

unfoldable pub on_streak : ℕ → ℕ → Bool → FriendChat → FriendChat
unfolding set_live_streak
on_streak friend_id streak at_risk s = record s {
  profile_streak = elim s.profile_streak [ none ↦ none | some p ↦ some (streak, at_risk) ];
  store = set_live_streak friend_id streak at_risk s.store;
}

-- `if (ev.read_at) setPeerReadAt(ev.read_at)`
abbrev pub read_or : Option String → Option String → Option String
read_or none old = old
read_or (some at) old = if is_empty at then old else some at

unfoldable pub on_event : (user_id friend_id : ℕ) → FriendEvent → FriendChat → FriendChat
unfolding on_msg receive_peer_typing on_streak
on_event user_id friend_id (FriendEvent.history messages read_at) s = record s {
  msgs = messages;
  peer_read_at = read_or read_at s.peer_read_at;
}
on_event user_id friend_id (FriendEvent.msg m) s = on_msg user_id m s
on_event user_id friend_id FriendEvent.peer_removed s = record s { peer_removed_me = true }
on_event user_id friend_id FriendEvent.typing s = receive_peer_typing s
on_event user_id friend_id (FriendEvent.read read_at) s = record s { peer_read_at = some read_at }
on_event user_id friend_id (FriendEvent.streak streak at_risk) s =
    on_streak friend_id streak at_risk s
on_event user_id friend_id (FriendEvent.error code message) s = s

-- `toggleSelected` and `clearSelection`
unfoldable pub toggle_selected : ℕ → FriendChat → FriendChat
toggle_selected id s = record s {
  selected_ids =
      if any (λ j. id == j) s.selected_ids
      then keep (λ j. not (id == j)) s.selected_ids
      else s.selected_ids ++ id ∷ [];
}

unfoldable pub clear_selection : FriendChat → FriendChat
clear_selection s = record s { selected_ids = [] }

-- The end of the effect that opened the connection.
unfoldable pub cleanup : FriendChat → FriendChat
cleanup s = record s { typing_timer = false }

pub data Input : Type 0 where
  arrives : FriendEvent → Input
  timer_fires clears_selection : Input
  toggles : (id : ℕ) → Input

unfoldable pub react : (user_id friend_id : ℕ) → Input → FriendChat → FriendChat
unfolding on_event typing_timeout toggle_selected clear_selection
react user_id friend_id (Input.arrives e) s = on_event user_id friend_id e s
react user_id friend_id Input.timer_fires s = if s.typing_timer then typing_timeout s else s
react user_id friend_id Input.clears_selection s = clear_selection s
react user_id friend_id (Input.toggles id) s = toggle_selected id s

unfoldable pub react_all : (user_id friend_id : ℕ) → List Input → FriendChat → FriendChat
unfolding react
react_all user_id friend_id [] s = s
react_all user_id friend_id (i ∷ is) s =
    react_all user_id friend_id is (react user_id friend_id i s)
