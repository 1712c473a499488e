-- ===== src/InboxSocket.antt =====
-- frontend/src/lib/inbox_ws.ts, `openInboxWS`: the connection to /ws/inbox. Its sockets and timers are
-- numbered in the order in which they are made, since `reconnect` makes a socket while the old one is
-- still closing.
pub mod Reconnect
pub mod Tests
use jolyne.Base.{
  ℕ, suc, ◌+◌, Bool, true, false, ◌&&◌, not, List, [], ◌∷◌, ◌++◌, Option, none, some, is_some,
  String, if◌then◌else◌,
}
use jolyne.Base.Assoc.{lookup, insert, remove}
use jolyne.Sanitize.{decode_entities}
use jolyne.Socket.{ReadyState, backoff, is_ready}

pub data InboxEvent : Type 0 where
  msg : (friend_id sender_id : ℕ) (preview sent_at : String) → InboxEvent
  read removed : (friend_id : ℕ) → InboxEvent
  friends_changed : InboxEvent
  streak_milestone streak_restored : (friend_id streak : ℕ) → InboxEvent
  streak_update : (friend_id streak : ℕ) (streak_at_risk : Bool) → InboxEvent

-- The variables of the closure, and the browser's part: the sockets that are not closed, and the
-- pending timers with their delays.
pub record InboxSocket : Type 0 where
  pub ws : Option ℕ
  pub closed : Bool
  pub attempt : ℕ
  pub reopen_timer : Option ℕ
  pub live : List (ℕ × ReadyState)
  pub made : ℕ
  pub timers : List (ℕ × ℕ)
  pub timers_made : ℕ

unfoldable pub connect : InboxSocket → InboxSocket
connect s = if s.closed then s else record s {
  ws = some s.made;
  live = insert s.made ReadyState.connecting s.live;
  made = suc s.made;
}

unfoldable pub on_open : ℕ → InboxSocket → InboxSocket
on_open i s = record s { attempt = 0; live = insert i ReadyState.opened s.live }

-- What is handed to `onEvent`; none where the text is not readable.
unfoldable pub on_message : Option InboxEvent → Option InboxEvent
unfolding decode_entities
on_message none = none
on_message (some (InboxEvent.msg friend_id sender_id preview sent_at)) =
    some (InboxEvent.msg friend_id sender_id (decode_entities preview) sent_at)
on_message (some e) = some e

unfoldable pub on_close : ℕ → InboxSocket → InboxSocket
unfolding backoff
on_close i s =
    let s' = record s { live = remove i s.live } in
    if s.closed then s' else record s' {
      attempt = s.attempt + 1;
      timers = insert s.timers_made (backoff s.attempt) s.timers;
      reopen_timer = some s.timers_made;
      timers_made = suc s.timers_made;
    }

unfoldable pub on_timer : ℕ → InboxSocket → InboxSocket
unfolding connect
on_timer t s = connect (record s { timers = remove t s.timers })

-- `clearTimeout(reopenTimer)`
unfoldable pub clear_timer : InboxSocket → InboxSocket
clear_timer s = elim s.reopen_timer [ none ↦ s | some t ↦ record s { timers = remove t s.timers } ]

-- `ws?.close()`
unfoldable pub close_ws : InboxSocket → InboxSocket
close_ws s = elim s.ws [
  | none ↦ s
  | some i ↦
      if is_some (lookup i s.live)
      then record s { live = insert i ReadyState.closing s.live }
      else s
]

unfoldable pub reconnect : InboxSocket → InboxSocket
unfolding clear_timer close_ws connect
reconnect s =
    let s' = record (clear_timer s) { reopen_timer = none } in
    if s.closed then s else connect (record (close_ws s') { attempt = 0 })

unfoldable pub close : InboxSocket → InboxSocket
unfolding clear_timer close_ws
close s = close_ws (clear_timer (record s { closed = true }))

pub data Event : Type 0 where
  opens errs closes fires : ℕ → Event
  receives : ℕ → Option InboxEvent → Event
  reconnects closes_by_user : Event

unfoldable pub handle : Event → InboxSocket → InboxSocket
unfolding on_open on_close on_timer reconnect close
handle (Event.opens i) s = on_open i s
handle (Event.errs i) s = s
handle (Event.closes i) s = on_close i s
handle (Event.fires t) s = on_timer t s
handle (Event.receives i e) s = s
handle Event.reconnects s = reconnect s
handle Event.closes_by_user s = close s

-- When the browser can deliver the event.
unfoldable pub can_happen : Event → InboxSocket → Bool
can_happen (Event.opens i) s = is_ready ReadyState.connecting (lookup i s.live)
can_happen (Event.errs i) s = is_some (lookup i s.live)
can_happen (Event.closes i) s = is_some (lookup i s.live)
can_happen (Event.fires t) s = is_some (lookup t s.timers)
can_happen (Event.receives i e) s = is_ready ReadyState.opened (lookup i s.live)
can_happen _ s = true

unfoldable pub step : Event → InboxSocket → InboxSocket
unfolding handle can_happen
step e s = if can_happen e s then handle e s else s

unfoldable pub run : List Event → InboxSocket → InboxSocket
unfolding step
run [] s = s
run (e ∷ es) s = run es (step e s)

-- What `onEvent` is called with.
unfoldable pub delivered : Event → InboxSocket → Option InboxEvent
unfolding on_message can_happen
delivered (Event.receives i e) s = if can_happen (Event.receives i e) s then on_message e else none
delivered _ s = none

-- The state when `openInboxWS` returns.
abbrev pub open_inbox : InboxSocket
open_inbox = record {
  ws = some 0;
  closed = false;
  attempt = 0;
  reopen_timer = none;
  live = (0, ReadyState.connecting) ∷ [];
  made = 1;
  timers = [];
  timers_made = 0;
}
