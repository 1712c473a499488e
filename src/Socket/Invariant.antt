-- ===== src/Socket/Invariant.antt =====
-- What holds of the connection after every sequence of events.
use jolyne.Base.{ℕ, ◌+◌, ◌≤◌, Bool, true, false, List, [], ◌∷◌, Option, none, some, is_some, arith}
use jolyne.Socket.{Socket, Event, stopped, step, run, connect_match}
use jolyne.Socket.Backoff.{backoff_bounds}

abbrev pub count : Bool → ℕ
count true = 1
count false = 0

-- The sockets, the pending timers and the listeners that keep the connection going.
abbrev pub activity : Socket → ℕ
activity s = count (is_some s.ws) + count (is_some s.timer) + s.listening

abbrev pub InRange : Option ℕ → Type 0
InRange none = Unit {0}
InRange (some d) = (1000 ≤ d) × (d ≤ 16000)

pub record Inv (s : Socket) : Type 0 where
  pub single : activity s ≤ 1
  pub alive : 1 ≤ activity s + count (stopped s)
  pub timed : InRange s.timer

step-Inv : (e : Event) (s : Socket) → Inv s → Inv (step e s).0
unfolding step
step-Inv Event.opens s h = ground (arith, backoff_bounds s.attempt)
step-Inv Event.errs s h = ground arith
step-Inv Event.comes_online s h = ground (arith, backoff_bounds s.attempt)
step-Inv Event.timer_fires s h = ground (arith, backoff_bounds s.attempt)
step-Inv Event.closes_by_user s h = ground (arith, backoff_bounds s.attempt)
step-Inv (Event.receives f) s h = ground (arith, backoff_bounds s.attempt)
step-Inv (Event.closes online) s h = ground (arith, backoff_bounds s.attempt)
step-Inv (Event.sends f) s h = h

run-Inv : (es : List Event) (s : Socket) → Inv s → Inv (run es s).0
unfolding run
run-Inv [] s h = h
run-Inv (e ∷ es) s h = run-Inv es (step e s).0 (step-Inv e s h)

-- After every sequence of events there is at most one of a socket, a pending timer and a listener on
-- "online"; there is exactly one as long as neither the caller nor a fatal error has stopped the
-- connection, so it neither connects twice nor gives up; and a pending delay lies between 1 and 16 s.
pub run-connect_match-Inv : (es : List Event) → Inv (run es connect_match).0
run-connect_match-Inv es = run-Inv es connect_match (omega arith)
