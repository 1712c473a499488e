-- ===== src/Inbox/Events.antt =====
-- frontend/src/components/notifications/InboxProvider.tsx: the list of friends, and the handler of the
-- events of the inbox.
use jolyne.Base.{
  ℕ, Bool, false, not, List, [], ◌∷◌, Option, none, some, ltb, ◌==◌, String, if◌then◌else◌,
}
use jolyne.Base.Text.{is_empty}
use jolyne.Base.Assoc.{lookup, insert, remove}
use jolyne.InboxSocket.{InboxEvent}
use jolyne.Notify.{hydrate_unread, increment_unread, clear_unread, push_toast, set_live_streak}
use jolyne.Inbox.State.{
  FriendSummary, Effect, fetches, loads_friends, reconnects, fetches_cloud_name, for_msg,
  for_streak, Place, Inbox, is_talking_to, cached_name, cached_photo,
}

unfoldable pub load_map : List FriendSummary → List (ℕ × FriendSummary) → List (ℕ × FriendSummary)
load_map [] m = m
load_map (f ∷ fs) m = load_map fs (insert f.id f m)

unfoldable pub load_unread : List FriendSummary → List (ℕ × ℕ) → List (ℕ × ℕ)
load_unread [] m = m
load_unread (f ∷ fs) m =
    load_unread fs (if ltb 0 f.unread_count then insert f.id f.unread_count m else m)

unfoldable pub set_cloud_name : String → Inbox → Inbox
set_cloud_name name s = if is_empty name then s else record s { cloud_name = name }

-- The answer to `loadFriends`: none where the list cannot be fetched, and "" for a cloud name that
-- cannot.
unfoldable pub friends_loaded : Option (List FriendSummary) → String → Inbox → Inbox
unfolding load_map load_unread set_cloud_name hydrate_unread
friends_loaded none cloud s = s
friends_loaded (some fs) cloud s =
    let s' = set_cloud_name cloud s in
    if s.cancelled
    then s
    else record s' { friends = load_map fs []; store = hydrate_unread (load_unread fs []) s.store }

-- The callback of the interval, and the answer to what it fetches.
unfoldable pub ensure_cloud : Inbox → List Effect
ensure_cloud s =
    if s.cancelled then [] else if not (is_empty s.cloud_name) then [] else fetches_cloud_name ∷ []

unfoldable pub cloud_fetched : String → Inbox → Inbox
unfolding set_cloud_name
cloud_fetched name s = if s.cancelled then s else set_cloud_name name s

unfoldable pub on_msg : Place → ℕ → ℕ → String → String → Inbox → Inbox × List Effect
unfolding is_talking_to increment_unread
on_msg here f sender_id preview sent_at s = if is_talking_to here f then (s, []) else (
  record s { store = increment_unread f s.store },
  if here.muted f
      then []
      else fetches (for_msg f sender_id preview sent_at (lookup f s.friends)) ∷ [],
)

unfoldable pub on_milestone : Place → ℕ → ℕ → Inbox → Inbox × List Effect
unfolding is_talking_to push_toast
on_milestone here f streak s =
    let cached = lookup f s.friends in
    if is_talking_to here f
    then (s, [])
    else if streak == 2
    then (s, fetches (for_streak f cached) ∷ [])
    else (
      record s {
        store =
            push_toast
              (record {
                id = here.draw;
                friend_id = f;
                sender_id = 0;
                peer_name = cached_name cached;
                peer_photo_id = cached_photo cached;
                preview = "";
                sent_at = here.now_iso;
                milestone = some streak;
                streak = some streak;
              })
              s.store;
      },
      [],
    )

unfoldable pub on_streak_update : ℕ → ℕ → Bool → Inbox → Inbox
unfolding set_live_streak
on_streak_update f streak at_risk s = record s {
  store = set_live_streak f streak at_risk s.store;
  friends = elim (lookup f s.friends) [
    | none ↦ s.friends
    | some c ↦ insert f (record c { streak = streak; streak_at_risk = at_risk }) s.friends
  ];
}

unfoldable pub on_streak_restored : ℕ → ℕ → Inbox → Inbox
unfolding set_live_streak
on_streak_restored f streak s = record s {
  store = set_live_streak f streak false s.store;
  friends = elim (lookup f s.friends) [
    | none ↦ s.friends
    | some c ↦
        insert f (record c { streak = streak; streak_at_risk = false; lost_streak = some 0 })
          s.friends
  ];
}

unfoldable pub on_event : Place → InboxEvent → Inbox → Inbox × List Effect
unfolding on_msg on_milestone on_streak_update on_streak_restored clear_unread
on_event here (InboxEvent.msg f sender_id preview sent_at) s =
    on_msg here f sender_id preview sent_at s
on_event here (InboxEvent.read f) s = (record s { store = clear_unread f s.store }, [])
on_event here (InboxEvent.removed f) s =
    (record s { store = clear_unread f s.store; friends = remove f s.friends }, [])
on_event here (InboxEvent.streak_milestone f streak) s = on_milestone here f streak s
on_event here (InboxEvent.streak_update f streak at_risk) s =
    (on_streak_update f streak at_risk s, [])
on_event here (InboxEvent.streak_restored f streak) s =
    (on_streak_restored f streak s, loads_friends ∷ [])
on_event here InboxEvent.friends_changed s = (s, loads_friends ∷ reconnects ∷ [])
