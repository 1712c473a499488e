-- ===== src/Chat/Messages.antt =====
-- The list of messages of the chat store: its identifiers, corrections and growth.
use jolyne.Base.{
  ℕ, ◌≤◌, ◌≡◌, refl, sym, ◌∙◌, inl, inr, Bool, true, false, ◌||◌, List, [], ◌∷◌, ◌++◌, map, arith,
  any, length, String, eq_iff, Bool-cases,
}
use mathlib.Core.List.{append-nil, map-append}
use text.Mathlib.TextPositions.{eq_refl}
use jolyne.Chat.{
  ChatMessage, ChatState, MessageCorrection, Sender, peer, MessageKind, user, has_id,
  correct_message, push_peer, apply_correction,
}
use jolyne.Chat.Actions.{Action, act}

any-append :
    (p : ChatMessage → Bool) (xs ys : List ChatMessage) → any p (xs ++ ys) ≡ (any p xs || any p ys)
any-append p [] ys = refl
any-append p (x ∷ xs) ys = ground (arith, any-append p xs ys)

-- No two messages have one identifier.
abbrev pub IsDistinct : List ChatMessage → Type 0
IsDistinct [] = Unit
IsDistinct (m ∷ ms) = (any (has_id m.id) ms ≡ false) × IsDistinct ms

IsDistinct-append :
    (ms : List ChatMessage) (n : ChatMessage)
    → IsDistinct ms
    → any (has_id n.id) ms ≡ false
    → IsDistinct (ms ++ n ∷ [])
IsDistinct-append [] n d f = (refl, tt)
IsDistinct-append (m ∷ ms) n (g, d) f =
    let ih = IsDistinct-append ms n d (ground arith) in
    (ground (arith, any-append (has_id m.id) ms (n ∷ []), eq_iff n.id m.id, eq_iff m.id n.id), ih)

any_correct :
    (id target : String) (c : MessageCorrection) (ms : List ChatMessage)
    → any (has_id id) (map (correct_message target c) ms) ≡ any (has_id id) ms
any_correct id target c [] = refl
any_correct id target c (m ∷ ms) = ground (arith, any_correct id target c ms)

IsDistinct-correct :
    (target : String) (c : MessageCorrection) (ms : List ChatMessage)
    → IsDistinct ms
    → IsDistinct (map (correct_message target c) ms)
IsDistinct-correct target c [] d = tt
IsDistinct-correct target c (m ∷ ms) (f, d) =
    (ground (arith, any_correct m.id target c ms), IsDistinct-correct target c ms d)

-- An identifier that this side draws is new to the conversation.
abbrev pub IsFresh : Action → List ChatMessage → Type 0
IsFresh (Action.pushes_me id body now) ms = any (has_id id) ms ≡ false
IsFresh (Action.pushes_system id body now) ms = any (has_id id) ms ≡ false
IsFresh _ ms = Unit {0}

-- If the identifiers that this side draws are new to the conversation, every method keeps the
-- identifiers of the messages distinct, whatever identifiers the peer sends.
pub act-IsDistinct :
    (a : Action) (s : ChatState)
    → IsFresh a s.messages
    → IsDistinct s.messages
    → IsDistinct (act a s).messages
unfolding act
act-IsDistinct (Action.pushes_me id body now) s f d = IsDistinct-append s.messages _ d f
act-IsDistinct (Action.pushes_system id body now) s f d = IsDistinct-append s.messages _ d f
act-IsDistinct (Action.pushes_peer id body now) s f d =
    elim (Bool-cases (any (has_id id) s.messages)) [
      | inl old ↦ rw old d
      | inr new ↦ rw new (IsDistinct-append s.messages _ d new)
    ]
act-IsDistinct (Action.corrects target c) s f d = IsDistinct-correct target c s.messages d
act-IsDistinct (Action.matches nick is_bot waiting now) s f d = tt
act-IsDistinct Action.resets s f d = tt
act-IsDistinct _ s f d = d

push_peer_old :
    (id body : String) (now : ℕ) (s : ChatState)
    → any (has_id id) s.messages ≡ true
    → (push_peer id body now s).messages ≡ s.messages
unfolding push_peer
push_peer_old id body now s h = rw h

any-push_peer :
    (id body : String) (now : ℕ) (s : ChatState)
    → any (has_id id) (push_peer id body now s).messages ≡ true
unfolding push_peer
any-push_peer id body now s = elim (Bool-cases (any (has_id id) s.messages)) [
  | inl old ↦ rw (old, old)
  | inr new ↦ rw (new, any-append (has_id id) s.messages, new) (ground (arith, eq_refl id))
]

-- A frame that comes twice is shown once: a second message of the peer under an identifier that it
-- used before changes no message, whatever its body and its time.
pub push_peer-push_peer :
    (id body again : String) (now later : ℕ) (s : ChatState)
    → (push_peer id again later (push_peer id body now s)).messages
      ≡ (push_peer id body now s).messages
push_peer-push_peer id body again now later s =
    push_peer_old id again later (push_peer id body now s) (any-push_peer id body now s)

map-correct_absent :
    (target : String) (c : MessageCorrection) (ms : List ChatMessage)
    → any (has_id target) ms ≡ false
    → map (correct_message target c) ms ≡ ms
map-correct_absent target c [] h = refl
map-correct_absent target c (m ∷ ms) h = ground (arith, map-correct_absent target c ms)

-- A correction of a message that is not there changes nothing.
pub apply_correction_absent :
    (target : String) (c : MessageCorrection) (s : ChatState)
    → any (has_id target) s.messages ≡ false
    → apply_correction target c s ≡ s
unfolding apply_correction
apply_correction_absent target c s h = rw (map-correct_absent target c s.messages h)

-- What a correction leaves alone.
pub record Line : Type 0 where
  pub id : String
  pub from : Sender
  pub body : String
  pub at : ℕ
  pub kind : MessageKind

abbrev pub line : ChatMessage → Line
line m = record { id = m.id; from = m.from; body = m.body; at = m.at; kind = m.kind }

abbrev pub lines : ChatState → List Line
lines s = map line s.messages

-- The method begins another conversation.
abbrev pub Begins : Action → Type 0
Begins (Action.matches nick is_bot waiting now) = Unit {0}
Begins Action.resets = Unit {0}
Begins _ = ⊥

map-line_correct :
    (target : String) (c : MessageCorrection) (ms : List ChatMessage)
    → map line (map (correct_message target c) ms) ≡ map line ms
map-line_correct target c [] = refl
map-line_correct target c (m ∷ ms) = ground (arith, map-line_correct target c ms)

push_peer-lines :
    (id body : String) (now : ℕ) (s : ChatState)
    → (new : List Line) × (lines (push_peer id body now s) ≡ lines s ++ new) × (length new ≤ 1)
unfolding push_peer
push_peer-lines id body now s = elim (Bool-cases (any (has_id id) s.messages)) [
  | inl old ↦ ([], rw old (sym (append-nil _)), omega arith)
  | inr new ↦ (
    record { id = id; from = peer; body = body; at = now; kind = user } ∷ [],
    rw new (map-append _ _ _),
    omega arith,
  )
]

-- Within one conversation the list of messages only grows, by one at most: no method drops,
-- reorders or rewrites a message that is there (a correction is kept beside the text).
pub act-lines :
    (a : Action) (s : ChatState)
    → ¬ Begins a
    → (new : List Line) × (lines (act a s) ≡ lines s ++ new) × (length new ≤ 1)
unfolding act
act-lines (Action.matches nick is_bot waiting now) s h = absurd (h tt)
act-lines Action.resets s h = absurd (h tt)
act-lines (Action.pushes_me id body now) s h = (_, map-append _ _ _, omega arith)
act-lines (Action.pushes_system id body now) s h = (_, map-append _ _ _, omega arith)
act-lines (Action.pushes_peer id body now) s h = push_peer-lines id body now s
act-lines (Action.corrects target c) s h =
    ([], map-line_correct target c s.messages ∙ sym (append-nil _), omega arith)
act-lines _ s h = ([], sym (append-nil _), omega arith)
