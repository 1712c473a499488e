-- ===== src/Inbox/Silence.antt =====
-- When the provider notifies.
use mathlib.Core.List.{map-append}
use jolyne.Base.{
  ℕ, ◌+◌, ◌≡◌, refl, Bool, true, false, ◌||◌, List, [], ◌∷◌, ◌++◌, Option, none, some, map, ◌==◌,
  if◌then◌else◌, arith, String, length, Bool-cases, length-append, ◌⊎◌, inl, inr,
}
use jolyne.InboxSocket.{InboxEvent}
use jolyne.Notify.{ToastNotification}
use jolyne.Inbox.{
  Request, Effect, FriendProfile, Place, FriendSummary, Inbox, is_talking_to, on_event, resolved,
}

-- The events that show nothing at a place: a message of a friend whose conversation is open or who is
-- muted, a milestone of a friend whose conversation is open, and all that is neither.
abbrev pub is_silenced : Place → InboxEvent → Bool
is_silenced here (InboxEvent.msg f sender_id preview sent_at) = is_talking_to here f || here.muted f
is_silenced here (InboxEvent.streak_milestone f streak) = is_talking_to here f
is_silenced _ _ = true

abbrev pub is_fetch : Effect → Bool
is_fetch (Effect.fetches r) = true
is_fetch _ = false

abbrev pub any_fetch : List Effect → Bool
any_fetch [] = false
any_fetch (e ∷ es) = is_fetch e || any_fetch es

-- Nothing is shown: no toast, no popup, and no request that ends with one.
abbrev pub IsSilent : Inbox → Inbox × List Effect → Type 0
IsSilent s (t, effects) =
    (t.store.toasts ≡ s.store.toasts)
    × (t.store.streak_started ≡ s.store.streak_started)
    × (any_fetch effects ≡ false)

-- One toast more, or a request that ends with one or with a popup.
abbrev pub Shows : Inbox → Inbox × List Effect → Type 0
Shows s (t, effects) =
    (length t.store.toasts ≡ length s.store.toasts + 1) ⊎ (any_fetch effects ≡ true)

-- An event shows something exactly where it is a message of a friend who is not muted and whose
-- conversation is not open, or a milestone of a friend whose conversation is not open: then a toast is
-- added or a request is made that ends with one or with a popup, and otherwise neither.
pub on_event_silenced :
    (here : Place) (e : InboxEvent) (s : Inbox)
    → if is_silenced here e then IsSilent s (on_event here e s) else Shows s (on_event here e s)
unfolding on_event
on_event_silenced here (InboxEvent.msg f sender_id preview sent_at) s = ground arith
on_event_silenced here (InboxEvent.streak_milestone f streak) s =
    elim (Bool-cases (is_talking_to here f)) [
      | inl talking ↦ rw talking (refl, refl, refl)
      | inr away ↦ rw away (elim (Bool-cases (streak == 2)) [
        | inl first ↦ rw first (inr refl)
        | inr later ↦ rw later (inl (length-append s.store.toasts _))
      ])
    ]
on_event_silenced here (InboxEvent.read f) s = ground arith
on_event_silenced here (InboxEvent.removed f) s = ground arith
on_event_silenced here _ s = ground arith

-- What a toast says of a message.
abbrev pub said : ToastNotification → ℕ × ℕ × String × String
said t = (t.friend_id, t.sender_id, t.preview, t.sent_at)

-- The request that a message waits for ends with one toast for that message, with its friend, sender,
-- preview and time, whether or not the profile can be fetched.
pub resolved-for_msg :
    (here : Place) (f sender_id : ℕ) (preview sent_at : String) (cached : Option FriendSummary)
    → (p : Option FriendProfile) (s : Inbox)
    → map said (resolved here (Request.for_msg f sender_id preview sent_at cached) p s).store.toasts
      ≡ map said s.store.toasts ++ (f, sender_id, preview, sent_at) ∷ []
unfolding resolved
resolved-for_msg here f sender_id preview sent_at cached none s = map-append said s.store.toasts _
resolved-for_msg here f sender_id preview sent_at none (some p) s = map-append said s.store.toasts _
resolved-for_msg here f sender_id preview sent_at (some c) (some p) s =
    map-append said s.store.toasts _
