-- ===== src/FriendPrompt/Tests.antt =====
-- The card of a new friend on concrete answers; the text of a date is read as its length.
use jolyne.Base.{
  ℕ, ◌≡◌, ◌≢◌, ◌<◌, refl, true, false, List, [], ◌∷◌, Option, none, some, length, String,
}
use jolyne.Base.Text.{utf16_length}
use jolyne.Inbox.{FriendSummary}
use jolyne.FriendPrompt.{started, max_attempts, answered_all, tick, queue_answered, available}
use jolyne.FriendPrompt.Found.{IsFound, answered_all-started}

abbrev friend : ℕ → String → FriendSummary
friend id created_at = record {
  id = id;
  peer_id = id;
  peer_name = "";
  peer_photo_id = none;
  peer_lang = none;
  peer_removed_me = false;
  unread_count = 0;
  last_message_body = "";
  last_message_sender_id = id;
  last_message_deleted = false;
  created_at = created_at;
  last_message_at = "";
  peer_verified = none;
  streak = 0;
  streak_at_risk = false;
  lost_streak = none;
  lost_at = none;
  restores_remaining_this_month = none;
}

abbrev answers : List (Option (List FriendSummary))
answers = none ∷ some [] ∷ some (friend 3 "--" ∷ friend 4 "---" ∷ friend 5 "---" ∷ []) ∷ []

started_example :
    let s = answered_all utf16_length answers started in
    (s.loading_friend ≡ tick s)
    × (tick s ≡ true → (length answers < max_attempts) × (s.resolved_id ≡ none))
    × (tick s ≡ false → length answers < max_attempts → s.resolved_id ≢ none)
    × ((id : ℕ) → s.resolved_id ≡ some id → IsFound utf16_length id answers)
started_example = answered_all-started utf16_length answers

finds : (answered_all utf16_length answers started).resolved_id ≡ some 4
unfolding answered_all utf16_length
finds = refl

-- The number that is known stays where a call fails.
keeps_count :
    available
      (queue_answered none (queue_answered (some 2) (record { count = none; alive = true })))
    ≡ true
unfolding available queue_answered
keeps_count = refl
