-- ===== src/FriendSocket/Tests.antt =====
-- The connection to a friend on concrete events.
use jolyne.Base.{◌≡◌, refl, List, [], ◌∷◌, none}
use jolyne.FriendSocket.{FriendMessage, FriendFrame, Event, Output, run, open_friend}

abbrev lossy : List Event
lossy = Event.opens ∷ Event.sends "hi" ∷ Event.closes ∷ Event.deletes 3 ∷ Event.fires ∷ []

abbrev note : FriendMessage
note = record {
  id = 1;
  sender_id = 2;
  body = "a < b";
  sent_at = "now";
  edited_at = none;
  deleted_at = none;
  kind = none;
  payload = none;
}

sent_once : (run lossy open_friend).1 ≡ Output.sends (FriendFrame.msg "hi") ∷ Output.connects ∷ []
unfolding run
sent_once = refl
