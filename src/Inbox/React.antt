-- ===== src/Inbox/React.antt =====
-- frontend/src/components/notifications/InboxProvider.tsx: the answers to the requests for a profile,
-- the end of the effect, and the provider as a whole.
use jolyne.Base.{ℕ, true, List, [], ◌∷◌, Option, none, some, String}
use jolyne.Base.Assoc.{insert}
use jolyne.InboxSocket.{InboxEvent}
use jolyne.Notify.{push_toast, push_streak_started}
use jolyne.Inbox.State.{
  FriendSummary, FriendProfile, Request, for_msg, for_streak, Effect, closes, Place, Inbox,
  main_photo, or_else, or_text, cached_name, cached_photo, shown_name,
}
use jolyne.Inbox.Events.{friends_loaded, ensure_cloud, cloud_fetched, on_event}

-- `friendsRef.current.set(...)`, where the friend was in the list when the request was made.
unfoldable pub refresh : ℕ → FriendProfile → Option FriendSummary → Inbox → Inbox
unfolding main_photo
refresh f p none s = s
refresh f p (some c) s = record s {
  friends =
      insert f
        (record c {
          peer_name = or_text p.display_name c.peer_name;
          peer_photo_id = or_else (main_photo p) c.peer_photo_id;
        })
        s.friends;
}

-- The toast or the popup that a request ends with; the profile is none where it cannot be fetched.
unfoldable pub resolved : Place → Request → Option FriendProfile → Inbox → Inbox
unfolding refresh push_toast push_streak_started main_photo
resolved here (for_msg f sender_id preview sent_at cached) (some p) s =
    let s' = refresh f p cached s in
    record s' {
      store =
          push_toast
            (record {
              id = here.draw;
              friend_id = f;
              sender_id = sender_id;
              peer_name = shown_name p cached;
              peer_photo_id = or_else (main_photo p) (cached_photo cached);
              preview = preview;
              sent_at = sent_at;
              milestone = none;
              streak = some p.streak;
            })
            s'.store;
    }
resolved here (for_msg f sender_id preview sent_at cached) none s = record s {
  store =
      push_toast
        (record {
          id = here.draw;
          friend_id = f;
          sender_id = sender_id;
          peer_name = cached_name cached;
          peer_photo_id = cached_photo cached;
          preview = preview;
          sent_at = sent_at;
          milestone = none;
          streak = none;
        })
        s.store;
}
resolved here (for_streak f cached) (some p) s =
    let s' = refresh f p cached s in
    record s' {
      store =
          push_streak_started
            (record {
              friend_id = f;
              peer_name = shown_name p cached;
              peer_photo_id = or_else (main_photo p) (cached_photo cached);
              at = here.now;
            })
            s'.store;
    }
resolved here (for_streak f cached) none s = record s {
  store =
      push_streak_started
        (record {
          friend_id = f;
          peer_name = cached_name cached;
          peer_photo_id = cached_photo cached;
          at = here.now;
        })
        s.store;
}

-- The end of the effect.
unfoldable pub unmount : Inbox → Inbox × List Effect
unmount s = (record s { cancelled = true }, closes ∷ [])

pub data Input : Type 0 where
  arrives : Place → InboxEvent → Input
  resolves : Place → Request → Option FriendProfile → Input
  loads : Option (List FriendSummary) → (cloud : String) → Input
  ticks unmounts : Input
  fetches_cloud : (name : String) → Input

unfoldable pub react : Input → Inbox → Inbox × List Effect
unfolding on_event resolved friends_loaded ensure_cloud cloud_fetched unmount
react (Input.arrives here e) s = on_event here e s
react (Input.resolves here r p) s = (resolved here r p s, [])
react (Input.loads fs cloud) s = (friends_loaded fs cloud s, [])
react Input.ticks s = (s, ensure_cloud s)
react Input.unmounts s = unmount s
react (Input.fetches_cloud name) s = (cloud_fetched name s, [])

unfoldable pub react_all : List Input → Inbox → Inbox
unfolding react
react_all [] s = s
react_all (i ∷ is) s = react_all is (react i s).0
