-- ===== src/Match/Stop.antt =====
-- Connections that the hook no longer refers to: after `stop`, and in a race with `start`.
use jolyne.Base.{
  ◌≡◌, refl, sym, ap, inl, inr, false, ◌||◌, List, [], ◌∷◌, none, some, String, All, get_elem?, set,
  Option-cases,
}
use mathlib.Core.Path.{subst}
use jolyne.Base.Text.{is_empty}
use jolyne.Chat
use jolyne.Chat.{ChatState, ChatStatus}
use jolyne.Socket
use jolyne.Socket.{Socket, Event, Output, connect_match}
use jolyne.Socket.Stop.{IsShut, OnlyClosed, step-IsShut, close-IsShut}
use jolyne.Match.{
  Env, Draw, Match, Starting, is_matched, is_queued, on_state_change, deliver, other_event,
  close_active, stop, resume, active_event,
}

-- The conversation is over: what a socket says of its closing does not touch the store.
deliver_closed :
    (env : Env) (d : Draw) (out : List Output) (m : Match)
    → All OnlyClosed out
    → (is_matched m.chat.status || is_queued m.chat.status) ≡ false
    → deliver env d out m ≡ (m, [])
unfolding deliver on_state_change
deliver_closed env d [] m a h = refl
deliver_closed env d (o ∷ out) m (e, a) h = rw (e, deliver, h) (deliver_closed env d out m a h)

-- The events of the connection that `stop` closed.
pub after_stop : Env → List (Draw × Event) → Match → Match
after_stop env [] m = m
after_stop env ((d, e) ∷ l) m = after_stop env l (other_event env d 0 e m).0

get_elem?-set_zero :
    (xs : List Socket) (s v : Socket) → get_elem? xs 0 ≡ some s → get_elem? (set xs 0 v) 0 ≡ some v
get_elem?-set_zero [] s v h = cc
get_elem?-set_zero (x ∷ xs) s v h = refl

abbrev stepped : Event → Socket → Match → Match
stepped e s m = record m { others = set m.others 0 (Socket.step e s).0 }

other_event_shut :
    (env : Env) (d : Draw) (e : Event) (m : Match) (s : Socket)
    → get_elem? m.others 0 ≡ some s
    → IsShut s
    → (is_matched m.chat.status || is_queued m.chat.status) ≡ false
    → (other_event env d 0 e m).0 ≡ stepped e s m
unfolding other_event
other_event_shut env d e m s o h k =
    rw (o, other_event)
      (ap (λ r. r.0)
        (deliver_closed env d (Socket.step e s).1 (stepped e s m) (step-IsShut e s h).1 k))

after_stop_shut :
    (env : Env) (l : List (Draw × Event)) (m : Match) (s : Socket)
    → get_elem? m.others 0 ≡ some s
    → IsShut s
    → (is_matched m.chat.status || is_queued m.chat.status) ≡ false
    → ((after_stop env l m).chat ≡ m.chat) × ((after_stop env l m).active ≡ m.active)
unfolding after_stop
after_stop_shut env [] m s o h k = (refl, refl)
after_stop_shut env ((d, e) ∷ l) m s o h k =
    subst (λ n. ((after_stop env l n).chat ≡ m.chat) × ((after_stop env l n).active ≡ m.active))
      (sym (other_event_shut env d e m s o h k))
      (after_stop_shut env l (stepped e s m) (Socket.step e s).0
        (get_elem?-set_zero m.others s (Socket.step e s).0 o) (step-IsShut e s h).0 k)

stop_active :
    (m : Match) (s : Socket)
    → m.active ≡ some s
    → stop m ≡ record m {
      chat = Chat.farewell m.chat;
      active = none;
      others = Socket.close s ∷ m.others;
      last_typing_sent = 0;
    }
unfolding stop close_active
stop_active m s h = rw (h, close_active)

-- After `stop`, whatever happens to the connection that it closed, the chat stays as `stop` left it
-- (with the status "ended"), and no connection is active.
pub after_stop-stop :
    (env : Env) (l : List (Draw × Event)) (m : Match) (s : Socket)
    → m.active ≡ some s
    → ((after_stop env l (stop m)).chat ≡ Chat.farewell m.chat)
      × ((after_stop env l (stop m)).active ≡ none)
after_stop-stop env l m s h =
    subst
      (λ n.
        ((after_stop env l n).chat ≡ Chat.farewell m.chat) × ((after_stop env l n).active ≡ none))
      (sym (stop_active m s h))
      (after_stop_shut env l _ (Socket.close s) refl (close-IsShut s)
        (unfold Chat.farewell in refl))

-- The events of the active connection.
abbrev pub active_all : Env → List (Draw × Event) → Match → Match
active_all env [] m = m
active_all env ((d, e) ∷ l) m = active_all env l (active_event env d e m).0

-- A `stop` that comes while `start` waits for the fingerprint is lost: the call that waits connects
-- all the same, though the chat says that it has ended.
pub resume-stop :
    (base_url fp : String) (m : Match) (r : Starting) (rest : List Starting)
    → m.starting ≡ r ∷ rest
    → is_empty base_url ≡ false
    → ((resume base_url fp (stop m)).0.active ≡ some connect_match)
      × ((resume base_url fp (stop m)).0.chat.status ≡ ChatStatus.ended)
unfolding resume stop close_active Chat.farewell
resume-stop base_url fp m r rest h k = elim (Option-cases m.active) [
  | inl e ↦ (rw (e, close_active, h, resume, k), rw (e, close_active, h, resume, k))
  | inr (s, e) ↦ (rw (e, close_active, h, resume, k), rw (e, close_active, h, resume, k))
]
