-- ===== src/Inbox/State.antt =====
-- frontend/src/components/notifications/InboxProvider.tsx: the state of the provider, and what it
-- reads of a place and of a profile.
use Prim.Native.Char.{code}
use Prim.Native.String.{[], ◌∷◌}
use jolyne.Base.{
  ℕ, ◌+◌, ◌*◌, ◌-◌, Bool, false, ◌&&◌, ◌||◌, List, [], ◌∷◌, Option, none, some, leb, ◌==◌, String,
  if◌then◌else◌,
}
use jolyne.Base.Text.{is_empty}
use jolyne.Sanitize.{strip}
use jolyne.Notify.{NotificationState}

-- `FriendSummary` of frontend/src/lib/friends.ts.
pub record FriendSummary : Type 0 where
  pub id : ℕ
  pub peer_id : ℕ
  pub peer_name : String
  pub peer_photo_id : Option String
  pub peer_lang : Option String
  pub peer_removed_me : Bool
  pub unread_count : ℕ
  pub last_message_body : String
  pub last_message_sender_id : ℕ
  pub last_message_deleted : Bool
  pub created_at : String
  pub last_message_at : String
  pub peer_verified : Option Bool
  pub streak : ℕ
  pub streak_at_risk : Bool
  pub lost_streak : Option ℕ
  pub lost_at : Option String
  pub restores_remaining_this_month : Option ℕ

-- `FriendProfile` of the same file; a photo is its position and its public_id, and a prompt its text
-- and its answer.
pub record FriendProfile : Type 0 where
  pub peer_id : ℕ
  pub peer_lang : Option String
  pub display_name : String
  pub bio : String
  pub birthdate : Option String
  pub photos : List (ℕ × String)
  pub prompts : List (String × String)
  pub peer_removed_me : Bool
  pub peer_verified : Option Bool
  pub streak : ℕ
  pub streak_at_risk : Bool
  pub lost_streak : Option ℕ
  pub lost_at : Option String
  pub restores_remaining_this_month : Option ℕ

-- A request for a profile, with what the callback that waits for it has captured.
pub data Request : Type 0 where
  for_msg :
      (friend_id sender_id : ℕ) (preview sent_at : String) (cached : Option FriendSummary) → Request
  for_streak : (friend_id : ℕ) (cached : Option FriendSummary) → Request

pub data Effect : Type 0 where
  fetches : Request → Effect
  loads_friends reconnects fetches_cloud_name closes : Effect

-- `draw` is the identifier of the next toast; `muted` is the flag in localStorage.
pub record Place : Type 0 where
  pub active_id : Option ℕ
  pub pathname : Option String
  pub muted : ℕ → Bool
  pub now : ℕ
  pub now_iso : String
  pub draw : String

pub record Inbox : Type 0 where
  pub store : NotificationState
  pub friends : List (ℕ × FriendSummary)
  pub cloud_name : String
  pub cancelled : Bool

-- `\d+`, read on from a number.
abbrev digits : ℕ → String → ℕ
digits n [] = n
digits n (c ∷ s) =
    let rest = digits (n * 10 + (code c - 48)) s in
    if leb 48 (code c) && leb (code c) 57 then rest else n

abbrev digits? : String → Option ℕ
digits? [] = none
digits? (c ∷ s) = if leb 48 (code c) && leb (code c) 57 then some (digits (code c - 48) s) else none

-- `pathname?.match(/^\/chats\/(\d+)/)`
unfoldable pub url_active_id : Option String → Option ℕ
url_active_id none = none
url_active_id (some pathname) = elim (strip "/chats/" pathname) [ none ↦ none | some s ↦ digits? s ]

abbrev pub is_id : ℕ → Option ℕ → Bool
is_id f none = false
is_id f (some g) = g == f

unfoldable pub is_talking_to : Place → ℕ → Bool
unfolding url_active_id
is_talking_to here f = is_id f here.active_id || is_id f (url_active_id here.pathname)

-- `photos.find((ph) => ph.position === 1)?.public_id ?? photos[0]?.public_id`
abbrev pub first_placed : List (ℕ × String) → Option String
first_placed [] = none
first_placed ((position, public_id) ∷ photos) =
    let rest = first_placed photos in if position == 1 then some public_id else rest

abbrev pub or_else : Option String → Option String → Option String
or_else (some a) other = some a
or_else none other = other

abbrev pub head_photo : List (ℕ × String) → Option String
head_photo [] = none
head_photo ((position, public_id) ∷ photos) = some public_id

unfoldable pub main_photo : FriendProfile → Option String
main_photo p = or_else (first_placed p.photos) (head_photo p.photos)

-- `a || b`
abbrev pub or_text : String → String → String
or_text a b = if is_empty a then b else a

-- `cached?.peer_name ?? "—"` and `cached?.peer_photo_id`
abbrev pub cached_name : Option FriendSummary → String
cached_name none = "—"
cached_name (some f) = f.peer_name

abbrev pub cached_photo : Option FriendSummary → Option String
cached_photo none = none
cached_photo (some f) = f.peer_photo_id

-- `p.display_name || cached?.peer_name || "—"`
abbrev pub shown_name : FriendProfile → Option FriendSummary → String
shown_name p cached = or_text p.display_name (or_text (cached_name cached) "—")
