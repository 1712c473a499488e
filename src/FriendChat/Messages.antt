-- ===== src/FriendChat/Messages.antt =====
-- The list of messages of an open conversation.
use jolyne.Base.{
  ℕ, ◌≡◌, refl, sym, ap, ◌∙◌, Bool, true, false, not, ◌&&◌, ◌||◌, List, [], ◌∷◌, ◌==◌,
  if◌then◌else◌, arith, inl, inr, Option-cases,
}
use jolyne.FriendSocket.{FriendMessage, FriendEvent}
use jolyne.FriendChat.{FriendChat, find_index, set_msg, Input, arrives, react, react_all}

-- Putting a message in the place of the one with its identifier, or at the end.
abbrev pub upsert : FriendMessage → List FriendMessage → List FriendMessage
upsert m [] = m ∷ []
upsert m (x ∷ xs) = let rest = upsert m xs in if x.id == m.id then m ∷ xs else x ∷ rest

set_msg-upsert : (m : FriendMessage) (ms : List FriendMessage) → set_msg m ms ≡ upsert m ms
unfolding set_msg
set_msg-upsert m [] = refl
set_msg-upsert m (x ∷ xs) = elim (Option-cases (find_index m.id xs)) [
  | inl e ↦ ground (arith, e, set_msg-upsert m xs)
  | inr (i, e) ↦ ground (arith, e, set_msg-upsert m xs)
]

upsert-upsert :
    (m n : FriendMessage) (ms : List FriendMessage)
    → m.id ≡ n.id
    → upsert n (upsert m ms) ≡ upsert n ms
upsert-upsert m n [] e = ground (arith, e)
upsert-upsert m n (x ∷ xs) e = ground (arith, e, upsert-upsert m n xs e)

abbrev pub has_id : ℕ → List FriendMessage → Bool
has_id id [] = false
has_id id (m ∷ ms) = m.id == id || has_id id ms

-- No two messages have the same identifier.
abbrev pub is_distinct : List FriendMessage → Bool
is_distinct [] = true
is_distinct (m ∷ ms) = not (has_id m.id ms) && is_distinct ms

has_id-upsert :
    (id : ℕ) (m : FriendMessage) (ms : List FriendMessage)
    → has_id id (upsert m ms) ≡ (m.id == id || has_id id ms)
has_id-upsert id m [] = refl
has_id-upsert id m (x ∷ xs) = ground (arith, has_id-upsert id m xs)

is_distinct-upsert :
    (m : FriendMessage) (ms : List FriendMessage)
    → is_distinct ms ≡ true
    → is_distinct (upsert m ms) ≡ true
is_distinct-upsert m [] d = refl
is_distinct-upsert m (x ∷ xs) d =
    ground (arith, has_id-upsert x.id m xs, is_distinct-upsert m xs (ground arith))

-- The histories that the server sends hold each message once.
abbrev pub is_sound : Input → Bool
is_sound (arrives (FriendEvent.history messages read_at)) = is_distinct messages
is_sound _ = true

abbrev pub are_sound : List Input → Bool
are_sound [] = true
are_sound (i ∷ is) = is_sound i && are_sound is

pub record Inv (s : FriendChat) : Type 0 where
  pub distinct : is_distinct s.msgs ≡ true
  pub timed : s.peer_typing ≡ s.typing_timer

react-Inv : (u f : ℕ) (i : Input) (s : FriendChat) → is_sound i ≡ true → Inv s → Inv (react u f i s)
unfolding react
react-Inv u f (arrives (FriendEvent.msg m)) s a h =
    ground (arith, h, set_msg-upsert m s.msgs, is_distinct-upsert m s.msgs)
react-Inv u f _ s a h = ground (arith, a, h)

-- Through every history of events, timers and selections in which each history that the server sends
-- holds its messages once, each message stands once in the conversation, and the indicator "friend is
-- typing" is lit exactly while a timer that will put it out is pending, if both are so at the start.
pub react_all-Inv :
    (u f : ℕ) (is : List Input) (s : FriendChat)
    → are_sound is ≡ true
    → Inv s
    → Inv (react_all u f is s)
unfolding react_all
react_all-Inv u f [] s a h = h
react_all-Inv u f (i ∷ is) s a h =
    react_all-Inv u f is (react u f i s) (ground arith) (react-Inv u f i s (ground arith) h)

-- The last state of a message wins: a frame for a message that came before takes the place of the
-- earlier frame, at the same position, as if the earlier one had held what the later one holds.
pub set_msg-set_msg :
    (m n : FriendMessage) (ms : List FriendMessage)
    → m.id ≡ n.id
    → set_msg n (set_msg m ms) ≡ set_msg n ms
set_msg-set_msg m n ms e =
    set_msg-upsert n (set_msg m ms)
    ∙ (ap (upsert n) (set_msg-upsert m ms) ∙ (upsert-upsert m n ms e ∙ sym (set_msg-upsert n ms)))
