-- ===== src/InboxSocket/Reconnect.antt =====
-- How many sockets the connection to the inbox holds.
use mathlib.Core.Path.{subst}
use jolyne.Base.{ℕ, suc, ◌≡◌, refl, ◌∙◌, true, false, List, [], ◌∷◌, none, some, arith}
use jolyne.Base.Assoc.{lookup, insert, remove, lookup-insert, lookup-remove}
use jolyne.Socket.{ReadyState, backoff}
use jolyne.InboxSocket.{InboxSocket, Event, step, run, close, reconnect}

step-closed :
    (e : Event) (s : InboxSocket)
    → s.closed ≡ true
    → ((step e s).closed ≡ true) × ((step e s).made ≡ s.made)
unfolding step
step-closed e s h = ground arith

-- Once the inbox is closed, no socket is made, whatever happens.
pub run-closed : (es : List Event) (s : InboxSocket) → s.closed ≡ true → (run es s).made ≡ s.made
unfolding run
run-closed [] s h = refl
run-closed (e ∷ es) s h = let (h', same) = step-closed e s h in run-closed es (step e s) h' ∙ same

-- The next two sockets have numbers that are not in use.
abbrev pub IsFresh : InboxSocket → Type 0
IsFresh s = (lookup s.made s.live ≡ none) × (lookup (suc s.made) s.live ≡ none)

reconnect_lem :
    (i : ℕ) (s : InboxSocket)
    → s.closed ≡ false
    → s.ws ≡ some i
    → lookup i s.live ≡ some ReadyState.opened
    → let t = reconnect s in
      (t.closed ≡ false)
      × (t.made ≡ suc s.made)
      × (t.timers_made ≡ s.timers_made)
      × (t.live ≡ insert s.made ReadyState.connecting (insert i ReadyState.closing s.live))
unfolding reconnect
reconnect_lem i s c w l = ground (arith, c, w, l)

step-closes :
    (i : ℕ) (r : ReadyState) (s : InboxSocket)
    → s.closed ≡ false
    → lookup i s.live ≡ some r
    → let t = step (Event.closes i) s in
      (t.closed ≡ false)
      × (t.made ≡ s.made)
      × (lookup s.timers_made t.timers ≡ some (backoff s.attempt))
      × (t.live ≡ remove i s.live)
unfolding step
step-closes i r s c l =
    ground (arith, c, l, lookup-insert s.timers_made s.timers_made (backoff s.attempt) s.timers)

step-fires :
    (t delay : ℕ) (s : InboxSocket)
    → s.closed ≡ false
    → lookup t s.timers ≡ some delay
    → let u = step (Event.fires t) s in
      (u.ws ≡ some s.made) × (u.live ≡ insert s.made ReadyState.connecting s.live)
unfolding step
step-fires t delay s c l = ground (arith, c, l)

close_lem :
    (i : ℕ) (r : ReadyState) (s : InboxSocket)
    → s.ws ≡ some i
    → lookup i s.live ≡ some r
    → (close s).live ≡ insert i ReadyState.closing s.live
unfolding close
close_lem i r s w l = ground (arith, w, l)

-- What happens where the caller reconnects, the browser reports that the old socket i is closed, and
-- the timer that this sets fires.
abbrev pub reconnecting : ℕ → InboxSocket → List Event
reconnecting i s = Event.reconnects ∷ Event.closes i ∷ Event.fires s.timers_made ∷ []

-- Where the connection is not closed and its current socket i is open, a call of `reconnect` ends with
-- two sockets that are connecting, since the close of the old socket, which is not told from a loss of
-- the connection, sets a timer; and `close` then closes only the second one.
pub run-reconnecting :
    (i : ℕ) (s : InboxSocket)
    → s.closed ≡ false
    → s.ws ≡ some i
    → lookup i s.live ≡ some ReadyState.opened
    → IsFresh s
    → let t = run (reconnecting i s) s in
      (lookup s.made t.live ≡ some ReadyState.connecting)
      × (lookup (suc s.made) t.live ≡ some ReadyState.connecting)
      × (lookup s.made (close t).live ≡ some ReadyState.connecting)
      × (lookup (suc s.made) (close t).live ≡ some ReadyState.closing)
unfolding run close
run-reconnecting i s c w l (f, g) =
    let (c1, m1, t1, l1) = reconnect_lem i s c w l in
    let u = reconnect s in
    let v = step (Event.closes i) u in
    let x = step (Event.fires s.timers_made) v in
    let a = insert i ReadyState.closing s.live in
    let b = insert s.made ReadyState.connecting a in
    let d = remove i b in
    let e = insert (suc s.made) ReadyState.connecting d in
    let old : lookup i u.live ≡ some ReadyState.closing = ground (
      arith,
      l1,
      lookup-insert i s.made ReadyState.connecting a,
      lookup-insert i i ReadyState.closing s.live,
    ) in
    let (c2, m2, t2, l2) = step-closes i ReadyState.closing u c1 old in
    let set : lookup s.timers_made v.timers ≡ some (backoff u.attempt) =
      subst (λ k. lookup k v.timers ≡ some (backoff u.attempt)) t1 t2 in
    let (w3, l3) = step-fires s.timers_made (backoff u.attempt) v c2 set in
    let next : v.made ≡ suc s.made = m2 ∙ m1 in
    let all : x.live ≡ e = cc in
    let current : x.ws ≡ some (suc s.made) = cc in
    let first : lookup s.made e ≡ some ReadyState.connecting = ground (
      arith,
      lookup-insert s.made (suc s.made) ReadyState.connecting d,
      lookup-remove s.made i b,
      lookup-insert s.made s.made ReadyState.connecting a,
    ) in
    let second : lookup (suc s.made) e ≡ some ReadyState.connecting =
      ground (arith, lookup-insert (suc s.made) (suc s.made) ReadyState.connecting d) in
    let second' : lookup (suc s.made) x.live ≡ some ReadyState.connecting = cc in
    let shut = close_lem (suc s.made) ReadyState.connecting x current second' in
    (
      cc,
      cc,
      ground (arith, shut, all, first, lookup-insert s.made (suc s.made) ReadyState.closing x.live),
      ground (arith, shut, lookup-insert (suc s.made) (suc s.made) ReadyState.closing x.live),
    )
