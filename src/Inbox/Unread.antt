-- ===== src/Inbox/Unread.antt =====
-- What the counters of unread messages count.
use jolyne.Base.{
  ℕ, ◌+◌, ◌≡◌, refl, ap, ◌∙◌, Bool, true, false, not, ◌&&◌, ◌||◌, List, [], ◌∷◌, none, some, ltb,
  ◌==◌, if◌then◌else◌, arith,
}
use jolyne.Base.Assoc.{insert, lookup-insert}
use jolyne.InboxSocket.{InboxEvent}
use jolyne.Notify.{unread}
use jolyne.Notify.Totals.{unread-increment_unread, unread-clear_unread}
use jolyne.Inbox.{
  FriendSummary, Request, Input, Inbox, is_talking_to, load_unread, react, react_all,
}

-- The last count above 0 that a list gives for the friend, or else n.
abbrev pub listed : ℕ → List FriendSummary → ℕ → ℕ
listed f [] n = n
listed f (c ∷ cs) n = listed f cs (if f == c.id && ltb 0 c.unread_count then c.unread_count else n)

-- What an input does to the number of unread messages of the friend f: a message adds one, unless the
-- user is in the conversation; a reading or a removal puts it to 0; and a list that is fetched in time
-- replaces it.
abbrev pub counted : ℕ → Bool → Input → ℕ → ℕ
counted f cancelled (Input.arrives here (InboxEvent.msg g sender_id preview sent_at)) n =
    if f == g && not (is_talking_to here g) then n + 1 else n
counted f cancelled (Input.arrives here (InboxEvent.read g)) n = if f == g then 0 else n
counted f cancelled (Input.arrives here (InboxEvent.removed g)) n = if f == g then 0 else n
counted f cancelled (Input.loads (some fs) cloud) n = if cancelled then n else listed f fs 0
counted f cancelled _ n = n

abbrev pub ends : Input → Bool
ends Input.unmounts = true
ends _ = false

abbrev pub counted_all : ℕ → Bool → List Input → ℕ → ℕ
counted_all f cancelled [] n = n
counted_all f cancelled (i ∷ is) n =
    counted_all f (cancelled || ends i) is (counted f cancelled i n)

unread-insert :
    (f : ℕ) (c : FriendSummary) (m : List (ℕ × ℕ))
    → unread f (if ltb 0 c.unread_count then insert c.id c.unread_count m else m)
      ≡ (if f == c.id && ltb 0 c.unread_count then c.unread_count else unread f m)
unread-insert f c m = ground (arith, lookup-insert f c.id c.unread_count m)

unread-load_unread :
    (f : ℕ) (fs : List FriendSummary) (m : List (ℕ × ℕ))
    → unread f (load_unread fs m) ≡ listed f fs (unread f m)
unfolding load_unread
unread-load_unread f [] m = refl
unread-load_unread f (c ∷ cs) m = unread-load_unread f cs _ ∙ ap (listed f cs) (unread-insert f c m)

react-counted :
    (f : ℕ) (i : Input) (s : Inbox)
    → unread f (react i s).0.store.unread_by_friend
      ≡ counted f s.cancelled i (unread f s.store.unread_by_friend)
unfolding react
react-counted f (Input.arrives here (InboxEvent.msg g sender_id preview sent_at)) s =
    ground (arith, unread-increment_unread f g s.store)
react-counted f (Input.arrives here (InboxEvent.read g)) s = unread-clear_unread f g s.store
react-counted f (Input.arrives here (InboxEvent.removed g)) s = unread-clear_unread f g s.store
react-counted f (Input.arrives here (InboxEvent.streak_milestone g n)) s = ground arith
react-counted f (Input.loads (some fs) cloud) s = ground (arith, unread-load_unread f fs [])
react-counted f (Input.resolves here (Request.for_msg g sender_id preview sent_at none) (some p))
      s =
    refl
react-counted f
      (Input.resolves here (Request.for_msg g sender_id preview sent_at (some c)) (some p)) s =
    refl
react-counted f (Input.resolves here (Request.for_streak g none) (some p)) s = refl
react-counted f (Input.resolves here (Request.for_streak g (some c)) (some p)) s = refl
react-counted f _ s = ground arith

react-cancelled : (i : Input) (s : Inbox) → (react i s).0.cancelled ≡ (s.cancelled || ends i)
unfolding react
react-cancelled (Input.arrives here e) s = ground arith
react-cancelled (Input.resolves here (Request.for_msg g sender_id preview sent_at none) (some p))
      s =
    ground arith
react-cancelled _ s = ground arith

-- After every history of events, answers and lists, the counter of a friend is the number of its
-- messages that came while the user was not in its conversation, counted from the last reading, removal
-- or list: muting a friend does not stop the count, and no answer to a request changes it.
pub react_all-counted :
    (f : ℕ) (is : List Input) (s : Inbox)
    → unread f (react_all is s).store.unread_by_friend
      ≡ counted_all f s.cancelled is (unread f s.store.unread_by_friend)
unfolding react_all
react_all-counted f [] s = refl
react_all-counted f (i ∷ is) s =
    let t = (react i s).0 in
    react_all-counted f is t ∙ (rw (react-cancelled i s) (rw (react-counted f i s) refl))
