-- ===== src/Socket.antt =====
-- frontend/src/lib/ws.ts, `connectMatch`: the connection to /ws/match with its reconnection. The
-- variables of the closure are the fields of `Socket`; what the browser or the caller does is an
-- `Event`, and each callback is a function. `run` skips an event that cannot happen, such as a timer
-- that fires when none is pending.
pub mod Backoff
pub mod Invariant
pub mod Stop
pub mod Tests
use jolyne.Base.{
  ℕ, suc, ◌+◌, ◌-◌, ◌*◌, ◌^◌, min, Bool, true, false, not, ◌&&◌, ◌||◌, List, [], ◌∷◌, ◌++◌, Option,
  none, some, any, is_some, ltb, String, str_eq, if◌then◌else◌,
}
use jolyne.Frames.{ServerFrame, ClientFrame}

-- The `readyState` of a socket that is not closed.
pub data ReadyState : Type 0 where
  connecting opened closing : ReadyState

pub data ConnState : Type 0 where
  connecting opened closed : ConnState

-- `ws` is none where the variable is null. `timer` is the delay of the pending timer, and `listening`
-- counts the listeners on the event "online".
pub record Socket : Type 0 where
  pub ws : Option ReadyState
  pub closed_by_user : Bool
  pub fatal : Bool
  pub attempt : ℕ
  pub timer : Option ℕ
  pub listening : ℕ

-- What the connection does to the outside: the calls of `onStateChange` and `onFrame`, and the
-- frames put on the wire.
pub data Output : Type 0 where
  state_change : ConnState → Output
  delivers : ServerFrame → Output
  sends : ClientFrame → Output

pub data Event : Type 0 where
  opens errs comes_online timer_fires closes_by_user : Event
  receives : Option ServerFrame → Event
  closes : (online : Bool) → Event
  sends : ClientFrame → Event

abbrev pub fatal_codes : List String
fatal_codes =
    "invalid_param" ∷ "invalid_pseudo" ∷ "quota_exceeded" ∷ "bot_quota_exceeded"
    ∷ "scenario_premium" ∷ "banned" ∷ []

unfoldable pub is_fatal : ServerFrame → Bool
is_fatal (ServerFrame.error code message) = any (str_eq code) fatal_codes
is_fatal _ = false

abbrev pub max_backoff_ms : ℕ
max_backoff_ms = 16000

unfoldable pub backoff : ℕ → ℕ
backoff attempt = min (1000 * 2 ^ attempt) max_backoff_ms

unfoldable pub schedule : Socket → Socket
schedule s = record s { attempt = suc s.attempt; timer = some (backoff s.attempt) }

unfoldable pub connect : Socket → Socket × List Output
connect s = (record s { ws = some ReadyState.connecting }, state_change ConnState.connecting ∷ [])

abbrev pub stopped : Socket → Bool
stopped s = s.closed_by_user || s.fatal

unfoldable pub on_open : Socket → Socket × List Output
on_open s =
    (record s { ws = some ReadyState.opened; attempt = 0 }, state_change ConnState.opened ∷ [])

unfoldable pub on_message : Option ServerFrame → Socket → Socket × List Output
on_message none s = (s, [])
on_message (some f) s = (if is_fatal f then record s { fatal = true } else s, delivers f ∷ [])

unfoldable pub on_close : Bool → Socket → Socket × List Output
on_close online s =
    let s' = record s { ws = none } in
    (
      if stopped s
          then s'
          else if not online
          then record s' { listening = suc s.listening }
          else schedule s',
      state_change ConnState.closed ∷ [],
    )

unfoldable pub on_online : Socket → Socket × List Output
on_online s = (schedule (record s { listening = s.listening - 1 }), [])

unfoldable pub on_timer : Socket → Socket × List Output
on_timer s = let s' = record s { timer = none } in if stopped s then (s', []) else connect s'

-- `send` answers whether the frame was put on the wire.
unfoldable pub send : ClientFrame → Socket → Bool × List Output
send f s = elim s.ws [ some ReadyState.opened ↦ (true, sends f ∷ []) | _ ↦ (false, []) ]

abbrev close_ws : Option ReadyState → Option ReadyState
close_ws none = none
close_ws (some r) = some ReadyState.closing

unfoldable pub close : Socket → Socket
close s = record s { closed_by_user = true; timer = none; ws = close_ws s.ws }

unfoldable pub handle : Event → Socket → Socket × List Output
unfolding on_open on_message on_close on_online on_timer send close connect schedule
handle Event.opens s = on_open s
handle Event.errs s = (s, [])
handle Event.comes_online s = on_online s
handle Event.timer_fires s = on_timer s
handle Event.closes_by_user s = (close s, [])
handle (Event.receives f) s = on_message f s
handle (Event.closes online) s = on_close online s
handle (Event.sends f) s = (s, (send f s).1)

abbrev pub is_ready : ReadyState → Option ReadyState → Bool
is_ready ReadyState.connecting (some ReadyState.connecting) = true
is_ready ReadyState.opened (some ReadyState.opened) = true
is_ready ReadyState.closing (some ReadyState.closing) = true
is_ready _ _ = false

-- When the browser can deliver the event.
unfoldable pub can_happen : Event → Socket → Bool
can_happen Event.opens s = is_ready ReadyState.connecting s.ws
can_happen Event.errs s = is_some s.ws
can_happen Event.comes_online s = ltb 0 s.listening
can_happen Event.timer_fires s = is_some s.timer
can_happen Event.closes_by_user s = true
can_happen (Event.receives f) s = is_ready ReadyState.opened s.ws
can_happen (Event.closes online) s = is_some s.ws
can_happen (Event.sends f) s = true

unfoldable pub step : Event → Socket → Socket × List Output
unfolding handle can_happen
step e s = if can_happen e s then handle e s else (s, [])

unfoldable pub run : List Event → Socket → Socket × List Output
run [] s = (s, [])
run (e ∷ es) s = let (s', out) = step e s in let (t, rest) = run es s' in (t, out ++ rest)

-- The state when `connectMatch` returns: the first socket is connecting.
abbrev pub connect_match : Socket
connect_match = record {
  ws = some ReadyState.connecting;
  closed_by_user = false;
  fatal = false;
  attempt = 0;
  timer = none;
  listening = 0;
}
