-- ===== src/Match/Wire.antt =====
-- The optimistic updates of the hook, and what it puts on the wire.
use jolyne.Base.{
  ◌≡◌, refl, inl, inr, Bool, true, false, ◌||◌, List, [], ◌∷◌, Option, none, some, is_some, String,
  if◌then◌else◌, Bool-cases,
}
use jolyne.Base.Text.{is_empty, trim}
use jolyne.Chat.{ChatState, push_me}
use jolyne.Frames.{ClientFrame}
use jolyne.Socket.{Socket, ReadyState}
use jolyne.Socket.Stop.{send_iff}
use jolyne.Match.{
  Env, Draw, Match, Effect, Input, clean, on_chat, wire, send_and, send_msg, correct, accept_friend,
  propose_tandem, accept_tandem, react,
}

-- The active connection is open.
abbrev pub IsOpen : Match → Type 0
IsOpen m = (s : Socket) × (m.active ≡ some s) × (s.ws ≡ some ReadyState.opened)

open_of_wire :
    (f : ClientFrame) (o : Option Socket)
    → wire f o ≡ true
    → (s : Socket) × (o ≡ some s) × (s.ws ≡ some ReadyState.opened)
unfolding wire
open_of_wire f none h = cc
open_of_wire f (some s) h = (s, refl, (send_iff f s).0.0 h)

wire_open : (f : ClientFrame) (m : Match) → IsOpen m → wire f m.active ≡ true
unfolding wire
wire_open f m (s, e, o) = rw (e, wire) ((send_iff f s).0.1 o)

wire_closed : (f : ClientFrame) (m : Match) → ¬ IsOpen m → wire f m.active ≡ false
wire_closed f m h = elim (Bool-cases (wire f m.active)) [
  | inl e ↦ absurd (h (open_of_wire f m.active e))
  | inr e ↦ e
]

send_and_closed :
    (f : ClientFrame) (change : ChatState → ChatState) (effects : List Effect) (m : Match)
    → ¬ IsOpen m
    → send_and f change effects m ≡ (false, m, [])
unfolding send_and
send_and_closed f change effects m h = rw (wire_closed f m h)

send_and_open :
    (f : ClientFrame) (change : ChatState → ChatState) (effects : List Effect) (m : Match)
    → IsOpen m
    → send_and f change effects m ≡ (true, on_chat change m, Effect.sends f ∷ effects)
unfolding send_and
send_and_open f change effects m h = rw (wire_open f m h)

if_same {ℓ} : {A : Type ℓ} (b : Bool) (a : A) → (if b then a else a) ≡ a
if_same true a = refl
if_same false a = refl

-- The calls that show the user's action at once.
abbrev pub IsOptimistic : Input → Type 0
IsOptimistic (Input.sends_msg raw) = Unit {0}
IsOptimistic (Input.corrects target original corrected remark) = Unit {0}
IsOptimistic Input.accepts_friend = Unit {0}
IsOptimistic Input.proposes_tandem = Unit {0}
IsOptimistic Input.accepts_tandem = Unit {0}
IsOptimistic _ = ⊥

-- A message, a correction, an accepted friend, and a tandem proposed or accepted change nothing
-- at all unless the active connection is open.
pub react_closed :
    (env : Env) (d : Draw) (x : Input) (m : Match)
    → IsOptimistic x
    → ¬ IsOpen m
    → react env d x m ≡ (m, [])
unfolding react send_msg correct accept_friend propose_tandem accept_tandem
react_closed env d (Input.sends_msg raw) m u h = rw (send_and_closed _ _ _ m h) (if_same _ _)
react_closed env d (Input.corrects target original corrected remark) m u h =
    elim (Bool-cases (is_empty (trim corrected) || is_empty target)) [
      | inl e ↦ rw e
      | inr e ↦ rw (e, send_and_closed _ _ _ m h)
    ]
react_closed env d Input.accepts_friend m u h = rw (send_and_closed _ _ _ m h)
react_closed env d Input.accepts_tandem m u h = rw (send_and_closed _ _ _ m h)
react_closed env d Input.proposes_tandem m u h = elim (Bool-cases (is_some m.chat.tandem)) [
  | inl e ↦ rw e
  | inr e ↦ rw (e, send_and_closed _ _ _ m h)
]
react_closed env d _ m u h = absurd u

-- On an open connection, a message that is not blank is trimmed, put on the wire, and shown with the
-- identifier under which it was sent; a blank one does nothing.
pub send_msg_open :
    (env : Env) (d : Draw) (raw : String) (m : Match)
    → IsOpen m
    → let body = trim raw in
      send_msg env d raw m ≡ (
        if is_empty body then (m, []) else (
          record m { chat = push_me d.id (clean env body) d.now m.chat },
          Effect.sends (ClientFrame.msg body d.id) ∷ [],
        ))
unfolding send_msg
send_msg_open env d raw m h = rw (send_and_open _ _ _ m h)
