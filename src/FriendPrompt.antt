-- ===== src/FriendPrompt.antt =====
-- frontend/src/components/chat/FriendPromptCard.tsx: how the card finds the conversation with a new
-- friend once the user has signed in, in a run of its effect; and
-- frontend/src/components/chat/BotQueueWatch.tsx, the watch of the queue. The reading of a date,
-- `new Date(text).getTime()`, is the parameter `time`.
pub mod Found
pub mod Tests
use jolyne.Base.{
  ℕ, ◌+◌, Bool, true, false, not, ◌&&◌, List, [], ◌∷◌, ◌++◌, Option, none, some, is_some, ltb, leb,
  String, if◌then◌else◌,
}
use jolyne.Inbox.{FriendSummary}

abbrev pub max_attempts : ℕ
max_attempts = 8

-- `polling` tells whether the interval is set.
pub record Resolving : Type 0 where
  pub resolved_id : Option ℕ
  pub loading_friend : Bool
  pub attempts : ℕ
  pub polling : Bool

-- The effect starts, for a user who is signed in and a friendship that is made but not known yet.
abbrev pub started : Resolving
started = record { resolved_id = none; loading_friend = true; attempts = 0; polling = true }

-- The callback of the interval, with the call of `listFriends` if it is made.
unfoldable pub tick : Resolving → Bool
tick s = s.polling

module _ (time : String → ℕ) where
  abbrev pub newer : FriendSummary → FriendSummary → FriendSummary
  newer f g = if ltb (time f.created_at) (time g.created_at) then g else f

  -- The first of the list after `list.sort`: the newest friend, and the first such.
  unfoldable pub newest : FriendSummary → List FriendSummary → FriendSummary
  newest f [] = f
  newest f (g ∷ gs) = newest (newer f g) gs

  abbrev pub resolve : List FriendSummary → Resolving → Resolving
  resolve [] s = s
  resolve (f ∷ fs) s = record s {
    resolved_id = some (newest f fs).id;
    loading_friend = false;
    polling = false;
  }

  -- `attempts++`, and the end of the attempts.
  abbrev pub count_attempt : Resolving → Resolving
  count_attempt s =
      let s' = record s { attempts = s.attempts + 1 } in
      if leb max_attempts (s.attempts + 1)
      then record s' { loading_friend = false; polling = false }
      else s'

  -- The answer of `listFriends`, none where it fails.
  unfoldable pub answered : Option (List FriendSummary) → Resolving → Resolving
  unfolding newest
  answered none s = count_attempt s
  answered (some fs) s = count_attempt (resolve fs s)

  unfoldable pub answered_all : List (Option (List FriendSummary)) → Resolving → Resolving
  unfolding answered
  answered_all [] s = s
  answered_all (a ∷ answers) s = answered_all answers (answered a s)

-- The watch of the queue: the number of people that wait, none where it is not known yet; an answer that
-- comes after the end of the effect is dropped, and one that fails leaves the number.
pub record QueueWatch : Type 0 where
  pub count : Option ℕ
  pub alive : Bool

unfoldable pub queue_answered : Option ℕ → QueueWatch → QueueWatch
queue_answered none s = s
queue_answered (some n) s = if s.alive then record s { count = some n } else s

-- The button that changes to a human partner is enabled.
unfoldable pub available : QueueWatch → Bool
available s = elim s.count [ none ↦ false | some n ↦ leb 1 n ]
