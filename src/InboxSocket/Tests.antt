-- ===== src/InboxSocket/Tests.antt =====
-- The connection to the inbox on concrete events.
use jolyne.Base.{◌≡◌, refl, List, [], ◌∷◌, some}
use jolyne.Base.Assoc.{lookup}
use jolyne.Socket.{ReadyState}
use jolyne.InboxSocket.{InboxSocket, Event, InboxEvent, run, close, open_inbox, delivered}
use jolyne.InboxSocket.Reconnect.{run-reconnecting, reconnecting}

abbrev opened_inbox : InboxSocket
opened_inbox = record open_inbox { live = (0, ReadyState.opened) ∷ [] }

abbrev events : List Event
events = Event.closes 0 ∷ Event.reconnects ∷ Event.fires 0 ∷ []

opened_once : run (Event.opens 0 ∷ []) open_inbox ≡ opened_inbox
unfolding run
opened_once = refl

decoded :
    delivered (Event.receives 0 (some (InboxEvent.msg 1 2 "a &lt; b" "now"))) opened_inbox
    ≡ some (InboxEvent.msg 1 2 "a < b" "now")
unfolding delivered jolyne.Sanitize.decode_from jolyne.Sanitize.entity_at
decoded = refl

reconnecting_example :
    let t = run (reconnecting 0 opened_inbox) opened_inbox in
    (lookup 1 t.live ≡ some ReadyState.connecting)
    × (lookup 2 t.live ≡ some ReadyState.connecting)
    × (lookup 1 (close t).live ≡ some ReadyState.connecting)
    × (lookup 2 (close t).live ≡ some ReadyState.closing)
reconnecting_example = run-reconnecting 0 opened_inbox refl refl refl (refl, refl)
