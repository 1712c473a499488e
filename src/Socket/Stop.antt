-- ===== src/Socket/Stop.antt =====
-- What a stopped connection still does.
use jolyne.Base.{
  ◌≡◌, ◌≢◌, ◌↔◌, true, false, List, [], ◌∷◌, some, arith, All, All-append, if◌then◌else◌,
}
use jolyne.Frames.{ServerFrame, ClientFrame}
use jolyne.Socket.{
  Socket, Event, ReadyState, ConnState, Output, state_change, stopped, is_ready, is_fatal, send,
  close, step, run,
}

abbrev pub NoConnect : Output → Type 0
NoConnect o = o ≢ state_change ConnState.connecting

step-stopped :
    (e : Event) (s : Socket)
    → stopped s ≡ true
    → (stopped (step e s).0 ≡ true) × All NoConnect (step e s).1
unfolding step
step-stopped Event.opens s h = ground arith
step-stopped _ s h = ground arith

pub run-stopped :
    (es : List Event) (s : Socket)
    → stopped s ≡ true
    → (stopped (run es s).0 ≡ true) × All NoConnect (run es s).1
unfolding run
run-stopped [] s h = (h, tt)
run-stopped (e ∷ es) s h =
    let (h', quiet) = step-stopped e s h in
    let (end, later) = run-stopped es (step e s).0 h' in
    (end, All-append NoConnect (step e s).1 _ quiet later)

-- What ends the connection: the caller's `close`, or a fatal frame on the open socket.
pub data Ending : Type 0 where
  by_caller : Ending
  by_error : ServerFrame → Ending

abbrev pub IsEnding : Ending → Socket → Type 0
IsEnding by_caller s = Unit
IsEnding (by_error f) s = (s.ws ≡ some ReadyState.opened) × (is_fatal f ≡ true)

abbrev pub ended : Ending → Socket → Socket
ended by_caller s = close s
ended (by_error f) s = (step (Event.receives (some f)) s).0

ended-stopped : (e : Ending) (s : Socket) → IsEnding e s → stopped (ended e s) ≡ true
unfolding step close
ended-stopped by_caller s h = ground arith
ended-stopped (by_error f) s (o, h) = ground arith

-- Once the caller has called `close`, or a fatal error has been received on the open socket, no sequence
-- of events makes the connection connect again, whatever it was doing before.
pub run-ended :
    (e : Ending) (es : List Event) (s : Socket)
    → IsEnding e s
    → All NoConnect (run es (ended e s)).1
run-ended e es s h = (run-stopped es (ended e s) (ended-stopped e s h)).1

abbrev pub IsShut : Socket → Type 0
IsShut s =
    (s.closed_by_user ≡ true)
    × (is_ready ReadyState.opened s.ws ≡ false)
    × (is_ready ReadyState.connecting s.ws ≡ false)

abbrev pub OnlyClosed : Output → Type 0
OnlyClosed o = o ≡ state_change ConnState.closed

pub step-IsShut :
    (e : Event) (s : Socket) → IsShut s → IsShut (step e s).0 × All OnlyClosed (step e s).1
unfolding step
step-IsShut Event.opens s h = ground arith
step-IsShut _ s h = ground arith

run-IsShut : (es : List Event) (s : Socket) → IsShut s → All OnlyClosed (run es s).1
unfolding run
run-IsShut [] s h = tt
run-IsShut (e ∷ es) s h =
    let (h', quiet) = step-IsShut e s h in
    All-append OnlyClosed (step e s).1 _ quiet (run-IsShut es (step e s).0 h')

pub close-IsShut : (s : Socket) → IsShut (close s)
unfolding close
close-IsShut s = ground arith

-- After `close`, whatever happens, the connection delivers no frame, sends none and does not
-- reconnect: all that it still reports is that it is closed.
pub run-close : (es : List Event) (s : Socket) → All OnlyClosed (run es (close s)).1
run-close es s = run-IsShut es (close s) (close-IsShut s)

-- `send` answers true exactly when the socket is open, and puts the frame on the wire exactly then.
pub send_iff :
    (f : ClientFrame) (s : Socket)
    → ((send f s).0 ≡ true ↔ (s.ws ≡ some ReadyState.opened))
      × ((send f s).1 ≡ (if (send f s).0 then Output.sends f ∷ [] else []))
unfolding send
send_iff f s = ground arith
