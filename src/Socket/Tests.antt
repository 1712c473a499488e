-- ===== src/Socket/Tests.antt =====
-- Tests of the connection, and its theorems at concrete inputs.
use jolyne.Base.{◌≡◌, refl, ◌↔◌, true, List, [], ◌∷◌, none, some, All, if◌then◌else◌}
use jolyne.Frames.{ServerFrame, ClientFrame}
use jolyne.Socket.{
  Socket, Event, ReadyState, ConnState, Output, state_change, is_fatal, backoff, send, step, run,
  connect_match,
}
use jolyne.Socket.Invariant.{Inv, run-connect_match-Inv}
use jolyne.Socket.Stop.{NoConnect, Ending, by_error, ended, run-ended, send_iff}

-- Two failed attempts, then a connection.
abbrev flaky : List Event
flaky =
    Event.closes true
    ∷ Event.timer_fires
    ∷ Event.errs
    ∷ Event.closes true
    ∷ Event.timer_fires
    ∷ Event.opens
    ∷ []

abbrev ban : Event
ban = Event.receives (some (ServerFrame.error "banned" none))

flaky-attempt :
    (run (Event.closes true ∷ Event.timer_fires ∷ Event.closes true ∷ []) connect_match).0.timer
    ≡ some 2000
unfolding run step backoff
flaky-attempt = refl

flaky-outputs :
    (run flaky connect_match).1
    ≡ state_change ConnState.closed
      ∷ state_change ConnState.connecting
      ∷ state_change ConnState.closed
      ∷ state_change ConnState.connecting
      ∷ state_change ConnState.opened
      ∷ []
unfolding run step
flaky-outputs = refl

Inv-example : Inv (run flaky connect_match).0
Inv-example = run-connect_match-Inv flaky

abbrev banned : Ending
banned = by_error (ServerFrame.error "banned" none)

abbrev connected : Socket
connected = record connect_match { ws = some ReadyState.opened }

ended_example : All NoConnect (run flaky (ended banned connected)).1
unfolding is_fatal
ended_example = run-ended banned flaky connected (refl, refl)

banned_quiet :
    (run (Event.opens ∷ ban ∷ Event.closes true ∷ Event.timer_fires ∷ []) connect_match).0.ws ≡ none
unfolding run step is_fatal
banned_quiet = refl

send_example :
    ((send ClientFrame.next connect_match).0 ≡ true ↔ (connect_match.ws ≡ some ReadyState.opened))
    × ((send ClientFrame.next connect_match).1 ≡ (
        if (send ClientFrame.next connect_match).0 then Output.sends ClientFrame.next ∷ [] else []))
send_example = send_iff ClientFrame.next connect_match
