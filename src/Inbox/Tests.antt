-- ===== src/Inbox/Tests.antt =====
-- The provider of the inbox on concrete histories.
use jolyne.Base.{◌≡◌, refl, false, List, [], ◌∷◌, none, some}
use jolyne.InboxSocket.{InboxEvent}
use jolyne.Notify
use jolyne.Notify.{unread, ToastNotification}
use jolyne.Inbox.{FriendSummary, Place, Inbox, Input, url_active_id, react_all}
use jolyne.Inbox.Unread.{counted_all, react_all-counted}

abbrev here : Place
here = record {
  active_id = none;
  pathname = some "/chats/12";
  muted = λ f. false;
  now = 0;
  now_iso = "now";
  draw = "4-0-abcd";
}

abbrev friend : FriendSummary
friend = record {
  id = 4;
  peer_id = 9;
  peer_name = "Ana";
  peer_photo_id = none;
  peer_lang = none;
  peer_removed_me = false;
  unread_count = 3;
  last_message_body = "hi";
  last_message_sender_id = 9;
  last_message_deleted = false;
  created_at = "before";
  last_message_at = "before";
  peer_verified = none;
  streak = 0;
  streak_at_risk = false;
  lost_streak = none;
  lost_at = none;
  restores_remaining_this_month = none;
}

abbrev empty : Inbox
empty = record { store = Notify.initial; friends = []; cloud_name = ""; cancelled = false }

abbrev hello : InboxEvent
hello = InboxEvent.msg 4 9 "hello" "noon"

abbrev history : List Input
history =
    Input.loads (some (friend ∷ [])) "cloud"
    ∷ Input.arrives here hello
    ∷ Input.arrives here (InboxEvent.msg 12 9 "seen" "noon")
    ∷ []

active : url_active_id (some "/chats/12/edit") ≡ some 12
unfolding url_active_id
active = refl

four : unread 4 (react_all history empty).store.unread_by_friend ≡ 4
unfolding react_all
four = refl

counted_example :
    unread 4 (react_all history empty).store.unread_by_friend ≡ counted_all 4 false history 0
counted_example = react_all-counted 4 history empty
