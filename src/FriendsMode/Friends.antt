-- ===== src/FriendsMode/Friends.antt =====
-- frontend/src/components/friends/FriendsMode.tsx: the list of friends, `refresh` and its interval, and
-- the photos that are loaded ahead.
use jolyne.Base.{
  ℕ, Bool, true, false, List, [], ◌∷◌, ◌++◌, Option, none, some, ltb, String, if◌then◌else◌,
}
use jolyne.Base.Assoc.{insert}
use jolyne.Base.Text.{is_empty, append}
use jolyne.Learn.Shuffle.{includes}
use jolyne.Inbox.{FriendSummary}
use jolyne.Notify.{NotificationState, hydrate_unread, set_live_streak}

-- `preloaded` holds the keys of the photos that were asked for.
pub record Friends : Type 0 where
  pub friends : Option (List FriendSummary)
  pub cloud : String
  pub stopped : Bool
  pub preloaded : List String
  pub store : NotificationState

abbrev pub mounted : NotificationState → Friends
mounted store = record {
  friends = none;
  cloud = "";
  stopped = false;
  preloaded = [];
  store = store;
}

pub data Effect : Type 0 where
  list_friends fetch_cloud_name : Effect
  loads_image : (cloud photo_id : String) → Effect

-- The loop over the list, which fills `unread` and aligns the streaks.
unfoldable pub count_unread : List FriendSummary → List (ℕ × ℕ) → List (ℕ × ℕ)
count_unread [] unread = unread
count_unread (f ∷ fs) unread =
    count_unread fs (if ltb 0 f.unread_count then insert f.id f.unread_count unread else unread)

unfoldable pub align_streaks : List FriendSummary → NotificationState → NotificationState
unfolding set_live_streak
align_streaks [] store = store
align_streaks (f ∷ fs) store =
    align_streaks fs (set_live_streak f.id f.streak f.streak_at_risk store)

abbrev pub photo_key : String → String → String
photo_key cloud photo = append cloud (append "|" photo)

-- The photo of a friend, unless there is none or it was asked for before.
abbrev pub new_photo : String → Option String → List String → Option String
new_photo cloud none seen = none
new_photo cloud (some photo) seen =
    if is_empty photo
    then none
    else if includes (photo_key cloud photo) seen
    then none
    else some photo

-- The loop over the friends, with the keys of the photos that were asked for.
unfoldable pub preload_from : String → List FriendSummary → List String → List String × List Effect
preload_from cloud [] seen = (seen, [])
preload_from cloud (f ∷ fs) seen = elim (new_photo cloud f.peer_photo_id seen) [
  | none ↦ preload_from cloud fs seen
  | some photo ↦
      let (later, out) = preload_from cloud fs (seen ++ photo_key cloud photo ∷ []) in
      (later, loads_image cloud photo ∷ out)
]

-- The effect that runs where the list or the cloud's name has changed.
unfoldable pub preload : Friends → Friends × List Effect
unfolding preload_from
preload s = elim s.friends [
  | none ↦ (s, [])
  | some fs ↦
      if is_empty s.cloud
      then (s, [])
      else (let (seen, out) = preload_from s.cloud fs s.preloaded in
          (record s { preloaded = seen }, out))
]

-- The answer to `listFriends`, none where it fails. The store is written also where the component is
-- gone by then; its own state is not.
unfoldable pub refreshed : Option (List FriendSummary) → Friends → Friends × List Effect
unfolding count_unread align_streaks hydrate_unread preload
refreshed none s = (s, [])
refreshed (some fs) s =
    let store' = hydrate_unread (count_unread fs []) (align_streaks fs s.store) in
    if s.stopped
    then (record s { store = store' }, [])
    else preload (record s { friends = some fs; store = store' })

-- The callback of the interval.
unfoldable pub tick : Friends → List Effect
tick s = if s.stopped then [] else list_friends ∷ []

unfoldable pub cloud_named : String → Friends → Friends × List Effect
unfolding preload
cloud_named name s = if s.stopped then (s, []) else preload (record s { cloud = name })

-- The effect of the interval, and its cleanup.
unfoldable pub mount : Friends → Friends × List Effect
unfolding tick
mount s = (s, tick s ++ fetch_cloud_name ∷ [])

unfoldable pub unmount : Friends → Friends
unmount s = record s { stopped = true }
