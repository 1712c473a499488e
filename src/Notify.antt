-- ===== src/Notify.antt =====
-- frontend/src/stores/notificationStore.ts: what the tab knows of unread messages, toasts and streaks.
-- The identifier that `pushToast` draws is an argument.
pub mod Totals
pub mod Tests
use jolyne.Base.{
  ℕ, ◌+◌, Bool, not, List, [], ◌∷◌, ◌++◌, Option, none, some, keep, String, str_eq, if◌then◌else◌,
}
use jolyne.Base.Assoc.{lookup, has_key, insert, remove}

pub record ToastNotification : Type 0 where
  pub id : String
  pub friend_id : ℕ
  pub sender_id : ℕ
  pub peer_name : String
  pub peer_photo_id : Option String
  pub preview : String
  pub sent_at : String
  pub milestone : Option ℕ
  pub streak : Option ℕ

pub record StreakStartedEvent : Type 0 where
  pub friend_id : ℕ
  pub peer_name : String
  pub peer_photo_id : Option String
  pub at : ℕ

pub record LiveStreak : Type 0 where
  pub streak : ℕ
  pub at_risk : Bool

pub record NotificationState : Type 0 where
  pub unread_by_friend : List (ℕ × ℕ)
  pub toasts : List ToastNotification
  pub streak_started : Option StreakStartedEvent
  pub streak_by_friend : List (ℕ × LiveStreak)
  pub active_friend_id : Option ℕ

abbrev pub initial : NotificationState
initial = record {
  unread_by_friend = [];
  toasts = [];
  streak_started = none;
  streak_by_friend = [];
  active_friend_id = none;
}

-- `s.unreadByFriend[friendId] ?? 0`
abbrev pub unread : ℕ → List (ℕ × ℕ) → ℕ
unread friend_id m = elim (lookup friend_id m) [ none ↦ 0 | some n ↦ n ]

unfoldable pub hydrate_unread : List (ℕ × ℕ) → NotificationState → NotificationState
hydrate_unread entries s = record s { unread_by_friend = entries }

unfoldable pub increment_unread : ℕ → NotificationState → NotificationState
increment_unread friend_id s = record s {
  unread_by_friend = insert friend_id (unread friend_id s.unread_by_friend + 1) s.unread_by_friend;
}

unfoldable pub clear_unread : ℕ → NotificationState → NotificationState
clear_unread friend_id s =
    if not (has_key friend_id s.unread_by_friend)
    then s
    else record s { unread_by_friend = remove friend_id s.unread_by_friend }

unfoldable pub push_toast : ToastNotification → NotificationState → NotificationState
push_toast t s = record s { toasts = s.toasts ++ t ∷ [] }

unfoldable pub dismiss_toast : String → NotificationState → NotificationState
dismiss_toast id s = record s { toasts = keep (λ t. not (str_eq t.id id)) s.toasts }

unfoldable pub push_streak_started : StreakStartedEvent → NotificationState → NotificationState
push_streak_started e s = record s { streak_started = some e }

unfoldable pub clear_streak_started : NotificationState → NotificationState
clear_streak_started s = record s { streak_started = none }

unfoldable pub set_active_friend_id : Option ℕ → NotificationState → NotificationState
set_active_friend_id id s = record s { active_friend_id = id }

unfoldable pub set_live_streak : ℕ → ℕ → Bool → NotificationState → NotificationState
set_live_streak friend_id streak at_risk s = record s {
  streak_by_friend =
      insert friend_id (record { streak = streak; at_risk = at_risk }) s.streak_by_friend;
}

-- The loop of `selectTotalUnread`.
abbrev pub total_of : List (ℕ × ℕ) → ℕ
total_of [] = 0
total_of ((id, n) ∷ m) = n + total_of m

unfoldable pub select_total_unread : NotificationState → ℕ
select_total_unread s = total_of s.unread_by_friend

pub data Action : Type 0 where
  hydrates_unread : List (ℕ × ℕ) → Action
  increments_unread clears_unread : ℕ → Action
  pushes_toast : ToastNotification → Action
  dismisses_toast : String → Action
  pushes_streak_started : StreakStartedEvent → Action
  clears_streak_started : Action
  sets_active_friend_id : Option ℕ → Action
  sets_live_streak : ℕ → ℕ → Bool → Action

unfoldable pub act : Action → NotificationState → NotificationState
unfolding hydrate_unread increment_unread clear_unread push_toast dismiss_toast push_streak_started
    clear_streak_started set_active_friend_id set_live_streak
act (Action.hydrates_unread entries) s = hydrate_unread entries s
act (Action.increments_unread friend_id) s = increment_unread friend_id s
act (Action.clears_unread friend_id) s = clear_unread friend_id s
act (Action.pushes_toast t) s = push_toast t s
act (Action.dismisses_toast id) s = dismiss_toast id s
act (Action.pushes_streak_started e) s = push_streak_started e s
act Action.clears_streak_started s = clear_streak_started s
act (Action.sets_active_friend_id id) s = set_active_friend_id id s
act (Action.sets_live_streak friend_id streak at_risk) s =
    set_live_streak friend_id streak at_risk s
