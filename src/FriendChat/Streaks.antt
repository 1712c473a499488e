-- ===== src/FriendChat/Streaks.antt =====
-- frontend/src/components/friends/FriendConversation.tsx and StreakRestoreModal.tsx: the streak of an
-- open conversation, in its header and its banner, and the restoring of a lost one. `Date.parse` is the
-- parameter `parse`, none for NaN; `now` is the time of a rendering.
use jolyne.Base.{
  ℕ, ◌+◌, ◌-◌, ◌*◌, ◌%◌, Bool, true, false, ◌&&◌, List, [], ◌∷◌, Option, none, some, leb, ◌==◌,
  String, str_eq, if◌then◌else◌,
}
use jolyne.Base.Text.{is_empty, append}
use jolyne.Base.Assoc.{lookup}
use jolyne.Inbox.{FriendProfile}
use jolyne.Notify.{NotificationState, set_live_streak}

abbrev pub restore_window_days : ℕ
restore_window_days = 3

-- The beginning of the day of a time, in UTC.
abbrev pub today_utc : ℕ → ℕ
today_utc now = now - now % 86_400_000

unfoldable pub can_restore_lost_streak :
    (parse : String → Option ℕ) (now : ℕ) → Option String → Bool
can_restore_lost_streak parse now none = true
can_restore_lost_streak parse now (some lost_at) =
    if is_empty lost_at then true else elim (parse (append lost_at "T00:00:00Z")) [
      | none ↦ true
      | some lost ↦ leb (today_utc now - lost) (restore_window_days * 86_400_000)
    ]

-- `RestoreStreakResult` of frontend/src/lib/friends.ts.
pub record RestoreStreakResult : Type 0 where
  pub restored : Bool
  pub new_streak : ℕ
  pub remaining_this_month : ℕ
  pub err_code : String

pub data ModalState : Type 0 where
  initial loading : ModalState
  done : RestoreStreakResult → ModalState
  error : (message : String) → ModalState

-- `closings` counts the timers that are to close the modal.
pub record Streaks : Type 0 where
  pub profile : Option FriendProfile
  pub store : NotificationState
  pub restore_open : Bool
  pub modal : ModalState
  pub closings : ℕ

module _ (friend_id : ℕ) where
  -- The answer to `getFriendProfile`.
  unfoldable pub profile_loaded : FriendProfile → Streaks → Streaks
  unfolding set_live_streak
  profile_loaded p s = record s {
    profile = some p;
    store = set_live_streak friend_id p.streak p.streak_at_risk s.store;
  }

  -- The event of the connection.
  unfoldable pub streak_announced : ℕ → Bool → Streaks → Streaks
  unfolding set_live_streak
  streak_announced streak at_risk s = record s {
    profile = elim s.profile [
      | none ↦ none
      | some p ↦ some (record p { streak = streak; streak_at_risk = at_risk })
    ];
    store = set_live_streak friend_id streak at_risk s.store;
  }

  unfoldable pub on_restored : ℕ → Streaks → Streaks
  unfolding set_live_streak
  on_restored new_streak s = record s {
    profile = elim s.profile [
      | none ↦ none
      | some p ↦ some (record p { streak = new_streak; lost_streak = some 0; lost_at = none })
    ];
    store = set_live_streak friend_id new_streak false s.store;
  }

  -- `confirm`, after the server's answer; none where the call fails. The texts of the messages are
  -- those of the code.
  unfoldable pub restore_answered : Option RestoreStreakResult → Streaks → Streaks
  unfolding on_restored
  restore_answered none s = record s { modal = error "Erreur réseau, réessaie." }
  restore_answered (some r) s =
      if str_eq r.err_code "quota_exhausted"
      then record s { modal = error "Tu as utilisé tes 3 restaurations ce mois-ci." }
      else if str_eq r.err_code "window_expired"
      then record s {
        modal =
            error
              "Trop tard — un streak ne peut être restauré que dans les 3 jours suivant sa perte.";
      }
      else if str_eq r.err_code "no_loss"
      then record s { modal = error "Aucun streak à restaurer." }
      else if r.restored
      then on_restored r.new_streak (record s { modal = done r; closings = s.closings + 1 })
      else s

  pub data Input : Type 0 where
    profile_loads : FriendProfile → Input
    announces store_sets : (streak : ℕ) (at_risk : Bool) → Input
    opens_restore closes confirms closing_fires : Input
    restore_answers : Option RestoreStreakResult → Input

  -- `store_sets` is another part of the tab that writes the streak of this friend. The button that
  -- confirms is there, and enabled, in the first state of the open modal.
  unfoldable pub react : Input → Streaks → Streaks
  unfolding profile_loaded streak_announced restore_answered set_live_streak
  react (profile_loads p) s = profile_loaded p s
  react (announces streak at_risk) s = streak_announced streak at_risk s
  react (store_sets streak at_risk) s = record s {
    store = set_live_streak friend_id streak at_risk s.store;
  }
  react opens_restore s =
      if s.restore_open then s else record s { restore_open = true; modal = initial }
  react closes s = record s { restore_open = false }
  react confirms s =
      if s.restore_open then elim s.modal [ initial ↦ record s { modal = loading } | _ ↦ s ] else s
  react (restore_answers answer) s = restore_answered answer s
  react closing_fires s =
      if s.closings == 0 then s else record s { restore_open = false; closings = s.closings - 1 }

  unfoldable pub react_all : List Input → Streaks → Streaks
  unfolding react
  react_all [] s = s
  react_all (i ∷ is) s = react_all is (react i s)

  -- The streak in the header, and whether it is at risk; none where there is no badge.
  unfoldable pub header_streak : Streaks → Option (ℕ × Bool)
  header_streak s = elim s.profile [
    | none ↦ none
    | some p ↦ elim (lookup friend_id s.store.streak_by_friend) [
      | none ↦ some (p.streak, p.streak_at_risk)
      | some live ↦ some (live.streak, live.at_risk)
    ]
  ]

-- The condition of the banner of a lost streak.
abbrev pub lost_or_zero : Option ℕ → ℕ
lost_or_zero none = 0
lost_or_zero (some n) = n

unfoldable pub shows_lost_banner : (parse : String → Option ℕ) (now : ℕ) → Streaks → Bool
unfolding can_restore_lost_streak
shows_lost_banner parse now s = elim s.profile [
  | none ↦ false
  | some p ↦
      leb 2 (lost_or_zero p.lost_streak)
      && p.streak == 0
      && can_restore_lost_streak parse now p.lost_at
]
