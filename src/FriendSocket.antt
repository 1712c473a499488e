-- ===== src/FriendSocket.antt =====
-- frontend/src/lib/friend_ws.ts, `openFriendWS`: the connection to /ws/friend/{id}. The variables of
-- the closure are the fields of `FriendSocket`; `run` skips an event that cannot happen.
pub mod Single
pub mod Decoding
pub mod Tests
use jolyne.Base.{
  ℕ, suc, ◌+◌, Bool, true, false, not, List, [], ◌∷◌, ◌++◌, Option, none, some, is_some, map,
  String, if◌then◌else◌,
}
use jolyne.Sanitize.{decode_entities}
use jolyne.Socket.{ReadyState, backoff, is_ready}

pub record FriendMessage : Type 0 where
  pub id : ℕ
  pub sender_id : ℕ
  pub body : String
  pub sent_at : String
  pub edited_at : Option String
  pub deleted_at : Option String
  pub kind : Option String
  pub payload : Option String

pub data FriendEvent : Type 0 where
  history : List FriendMessage → (read_at : Option String) → FriendEvent
  msg : FriendMessage → FriendEvent
  peer_removed typing : FriendEvent
  read : (read_at : String) → FriendEvent
  streak : (streak : ℕ) (streak_at_risk : Bool) → FriendEvent
  error : (code : String) (message : Option String) → FriendEvent

-- The frames that the client sends; the identifiers are written as texts on the wire.
pub data FriendFrame : Type 0 where
  msg : (body : String) → FriendFrame
  edit_msg : (id : ℕ) (body : String) → FriendFrame
  delete_msg : (id : ℕ) → FriendFrame
  typing : FriendFrame

-- `ws` is none where the socket is closed; `timer` is the delay of the pending timer.
pub record FriendSocket : Type 0 where
  pub ws : Option ReadyState
  pub closed : Bool
  pub attempt : ℕ
  pub timer : Option ℕ

-- The calls of `onEvent`, the sockets made, and the frames put on the wire.
pub data Output : Type 0 where
  connects : Output
  delivers : FriendEvent → Output
  sends : FriendFrame → Output

unfoldable pub decode_body : FriendMessage → FriendMessage
unfolding decode_entities
decode_body m = record m { body = decode_entities m.body }

unfoldable pub decode_frame : FriendEvent → FriendEvent
unfolding decode_body
decode_frame (FriendEvent.history messages read_at) =
    FriendEvent.history (map decode_body messages) read_at
decode_frame (FriendEvent.msg m) = FriendEvent.msg (decode_body m)
decode_frame e = e

unfoldable pub connect : FriendSocket → FriendSocket × List Output
connect s =
    if s.closed then (s, []) else (record s { ws = some ReadyState.connecting }, connects ∷ [])

unfoldable pub on_open : FriendSocket → FriendSocket
on_open s = record s { ws = some ReadyState.opened; attempt = 0 }

unfoldable pub on_message : Option FriendEvent → List Output
unfolding decode_frame
on_message none = []
on_message (some e) = delivers (decode_frame e) ∷ []

unfoldable pub on_close : FriendSocket → FriendSocket
unfolding backoff
on_close s =
    let s' = record s { ws = none } in
    if s.closed then s' else record s' { attempt = s.attempt + 1; timer = some (backoff s.attempt) }

unfoldable pub on_timer : FriendSocket → FriendSocket × List Output
unfolding connect
on_timer s = connect (record s { timer = none })

unfoldable pub send_raw : FriendFrame → FriendSocket → List Output
send_raw f s = if is_ready ReadyState.opened s.ws then sends f ∷ [] else []

unfoldable pub send : String → FriendSocket → List Output
unfolding send_raw
send body s = send_raw (FriendFrame.msg body) s

unfoldable pub edit : ℕ → String → FriendSocket → List Output
unfolding send_raw
edit id body s = send_raw (FriendFrame.edit_msg id body) s

unfoldable pub delete : ℕ → FriendSocket → List Output
unfolding send_raw
delete id s = send_raw (FriendFrame.delete_msg id) s

unfoldable pub send_typing : FriendSocket → List Output
unfolding send_raw
send_typing s = send_raw FriendFrame.typing s

abbrev close_ws : Option ReadyState → Option ReadyState
close_ws none = none
close_ws (some r) = some ReadyState.closing

unfoldable pub close : FriendSocket → FriendSocket
close s = record s { closed = true; timer = none; ws = close_ws s.ws }

pub data Event : Type 0 where
  opens errs closes fires closes_by_user types : Event
  receives : Option FriendEvent → Event
  sends : (body : String) → Event
  edits : (id : ℕ) (body : String) → Event
  deletes : (id : ℕ) → Event

unfoldable pub handle : Event → FriendSocket → FriendSocket × List Output
unfolding on_open on_message on_close on_timer send edit delete send_typing close
handle Event.opens s = (on_open s, [])
handle Event.errs s = (s, [])
handle Event.closes s = (on_close s, [])
handle Event.fires s = on_timer s
handle Event.closes_by_user s = (close s, [])
handle Event.types s = (s, send_typing s)
handle (Event.receives e) s = (s, on_message e)
handle (Event.sends body) s = (s, send body s)
handle (Event.edits id body) s = (s, edit id body s)
handle (Event.deletes id) s = (s, delete id s)

-- When the browser can deliver the event.
unfoldable pub can_happen : Event → FriendSocket → Bool
can_happen Event.opens s = is_ready ReadyState.connecting s.ws
can_happen Event.errs s = is_some s.ws
can_happen Event.closes s = is_some s.ws
can_happen Event.fires s = is_some s.timer
can_happen (Event.receives e) s = is_ready ReadyState.opened s.ws
can_happen _ s = true

unfoldable pub step : Event → FriendSocket → FriendSocket × List Output
unfolding handle can_happen
step e s = if can_happen e s then handle e s else (s, [])

unfoldable pub run : List Event → FriendSocket → FriendSocket × List Output
unfolding step
run [] s = (s, [])
run (e ∷ es) s = let (s', out) = step e s in let (t, rest) = run es s' in (t, out ++ rest)

-- The state when `openFriendWS` returns: the first socket is connecting.
abbrev pub open_friend : FriendSocket
open_friend = record { ws = some ReadyState.connecting; closed = false; attempt = 0; timer = none }
