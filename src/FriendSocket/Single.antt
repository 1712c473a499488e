-- ===== src/FriendSocket/Single.antt =====
-- How many sockets the connection to a friend holds, and what it still does when it is closed.
use jolyne.Base.{ℕ, ◌+◌, ◌≤◌, ◌≡◌, refl, true, false, List, [], ◌∷◌, is_some, arith}
use jolyne.Socket.{ReadyState, is_ready}
use jolyne.Socket.Backoff.{backoff_bounds}
use jolyne.Socket.Invariant.{count, InRange}
use jolyne.FriendSocket.{FriendSocket, Event, step, run, close, open_friend}

-- The sockets and the pending timers.
abbrev pub activity : FriendSocket → ℕ
activity s = count (is_some s.ws) + count (is_some s.timer)

pub record IsSingle (s : FriendSocket) : Type 0 where
  pub single : activity s ≤ 1
  pub alive : 1 ≤ activity s + count s.closed
  pub quiet : count (is_some s.timer) + count s.closed ≤ 1
  pub timed : InRange s.timer

step-IsSingle : (e : Event) (s : FriendSocket) → IsSingle s → IsSingle (step e s).0
unfolding step
step-IsSingle Event.opens s h = ground arith
step-IsSingle _ s h = ground (arith, backoff_bounds s.attempt)

run-IsSingle : (es : List Event) (s : FriendSocket) → IsSingle s → IsSingle (run es s).0
unfolding run
run-IsSingle [] s h = h
run-IsSingle (e ∷ es) s h = run-IsSingle es (step e s).0 (step-IsSingle e s h)

-- After every sequence of events, the connection to a friend has a socket or a pending timer, never
-- both; it has one of them unless it is closed, so it does not give up; once it is closed, it has no
-- timer; and a pending delay lies between 1 and 16 s.
pub run-open_friend-IsSingle : (es : List Event) → IsSingle (run es open_friend).0
run-open_friend-IsSingle es = run-IsSingle es open_friend (omega arith)

abbrev pub IsShut : FriendSocket → Type 0
IsShut s =
    (s.closed ≡ true)
    × (is_ready ReadyState.opened s.ws ≡ false)
    × (is_ready ReadyState.connecting s.ws ≡ false)

step-IsShut : (e : Event) (s : FriendSocket) → IsShut s → IsShut (step e s).0 × (step e s).1 ≡ []
unfolding step
step-IsShut Event.opens s h = ground arith
step-IsShut _ s h = ground arith

run-IsShut : (es : List Event) (s : FriendSocket) → IsShut s → (run es s).1 ≡ []
unfolding run
run-IsShut [] s h = refl
run-IsShut (e ∷ es) s h =
    let (h', quiet) = step-IsShut e s h in rw quiet (run-IsShut es (step e s).0 h')

-- After `close`, whatever happens, the connection makes no socket, delivers no event and puts no frame
-- on the wire.
pub run-close_friend : (es : List Event) (s : FriendSocket) → (run es (close s)).1 ≡ []
unfolding close
run-close_friend es s = run-IsShut es (close s) (ground arith)
