-- ===== src/FriendsMode/Tests.antt =====
-- The list of friends and the history on concrete runs.
use jolyne.Base.{ℕ, ◌≡◌, refl, false, true, List, [], ◌∷◌, none, some, All, map, sum}
use jolyne.Base.Assoc.{lookup}
use jolyne.Inbox.{FriendSummary}
use jolyne.Notify.{initial, unread, select_total_unread, set_live_streak}
use jolyne.FriendsMode.{page, mounted_on, Action, opens, goes_back, navigates, turn, turn_all}
use jolyne.FriendsMode.Navigation.{View, realise, promise_all, turn_all-realise}
use jolyne.FriendsMode.Friends.{
  Friends, mounted, refreshed, loads_image, cloud_named, preload, preload_from, count_unread,
  align_streaks,
}
use jolyne.FriendsMode.Synced.{store-refreshed_agrees, IsAbsent}

abbrev home : View
home = record { open_friend = none; current = 1; behind = 0 ∷ [] }

-- A conversation is opened and closed, another one opened, and then a link followed.
abbrev visits : List Action
visits = opens 3 ∷ goes_back ∷ opens 4 ∷ []

realise_example :
    (turn_all visits (realise home) ≡ realise (promise_all visits home))
    × (turn (navigates 2) (turn_all visits (realise home))
        ≡ mounted_on (page 2 ∷ (realise (promise_all visits home)).history))
realise_example = turn_all-realise visits home 2 (tt, (tt, (tt, tt)))

abbrev friend : ℕ → ℕ → ℕ → FriendSummary
friend id unread_count streak = record {
  id = id;
  peer_id = id;
  peer_name = "Ana";
  peer_photo_id = some "p";
  peer_lang = none;
  peer_removed_me = false;
  unread_count = unread_count;
  last_message_body = "";
  last_message_sender_id = id;
  last_message_deleted = false;
  created_at = "";
  last_message_at = "";
  peer_verified = none;
  streak = streak;
  streak_at_risk = false;
  lost_streak = none;
  lost_at = none;
  restores_remaining_this_month = none;
}

abbrev answer : List FriendSummary
answer = friend 7 2 0 ∷ friend 8 0 5 ∷ friend 9 3 1 ∷ []

-- The tab missed that the streak with 7 went out.
abbrev stale : Friends
stale = mounted (set_live_streak 7 12 true initial)

agrees_example :
    let store = (refreshed (some answer) stale).0.store in
    All
      (λ f.
        (unread f.id store.unread_by_friend ≡ f.unread_count)
        × (lookup f.id store.streak_by_friend
            ≡ some (record { streak = f.streak; at_risk = f.streak_at_risk })))
      answer
    × (select_total_unread store ≡ sum (map (λ f. f.unread_count) answer))
    × ((id : ℕ)
        → IsAbsent id answer
        → (unread id store.unread_by_friend ≡ 0)
          × (lookup id store.streak_by_friend ≡ lookup id stale.store.streak_by_friend))
agrees_example = store-refreshed_agrees answer stale ((refl, (refl, tt)), ((refl, tt), (tt, tt)))

-- One photo is loaded once, though three friends have it.
preloads : (cloud_named "c" (refreshed (some answer) stale).0).1 ≡ loads_image "c" "p" ∷ []
unfolding cloud_named refreshed preload preload_from count_unread align_streaks
preloads = refl
