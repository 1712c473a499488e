-- ===== src/FriendsMode.antt =====
-- frontend/src/components/friends/FriendsMode.tsx: the list of friends and the conversation opened over
-- it, with the entries of the browser's history that the two add and remove. FriendsMode/Friends has the
-- requests for the list.
pub mod Friends
pub mod Navigation
pub mod Synced
pub mod Tests
use jolyne.Base.{
  ℕ, zero, suc, ◌+◌, Bool, true, false, ◌&&◌, List, [], ◌∷◌, Option, none, some, ◌==◌,
  if◌then◌else◌,
}

-- An entry of the history: the decoy, whose state is "friend-inline", or a page.
pub data Entry : Type 0 where
  friend_inline : Entry
  page : ℕ → Entry

-- `history` starts with the entry that is shown and goes on with those behind it; `backs` counts the
-- calls of `history.back()` that the browser has not carried out yet.
pub record FriendsMode : Type 0 where
  pub open_friend_id : Option ℕ
  pub pushed : Bool
  pub history : List Entry
  pub backs : ℕ

abbrev pub mounted_on : List Entry → FriendsMode
mounted_on history = record { open_friend_id = none; pushed = false; history = history; backs = 0 }

-- `window.history.state?.jolyne === "friend-inline"`
abbrev pub on_decoy : List Entry → Bool
on_decoy [] = false
on_decoy (friend_inline ∷ rest) = true
on_decoy (page p ∷ rest) = false

unfoldable pub back : FriendsMode → FriendsMode
back s = record s { backs = s.backs + 1 }

-- The cleanup of the effect of an open conversation, and the effect itself.
unfoldable pub leave : FriendsMode → FriendsMode
unfolding back
leave s =
    if s.pushed && on_decoy s.history
    then back (record s { pushed = false })
    else record s { pushed = false }

unfoldable pub enter : FriendsMode → FriendsMode
enter s = record s { history = friend_inline ∷ s.history; pushed = true }

abbrev pub same_id : Option ℕ → Option ℕ → Bool
same_id none none = true
same_id none (some b) = false
same_id (some a) none = false
same_id (some a) (some b) = a == b

-- `setOpenFriendID(next)`, with the effects that follow.
unfoldable pub set_open : Option ℕ → FriendsMode → FriendsMode
unfolding leave enter
set_open next s =
    if same_id s.open_friend_id next
    then s
    else let left : FriendsMode = elim s.open_friend_id [ none ↦ s | some _ ↦ leave s ] in
      elim next [
        | none ↦ record left { open_friend_id = none }
        | some id ↦ record (enter left) { open_friend_id = some id }
      ]

-- `onPop`, which listens while a conversation is open.
unfoldable pub on_pop : FriendsMode → FriendsMode
unfolding set_open
on_pop s = elim s.open_friend_id [
  | none ↦ s
  | some id ↦ set_open none (record s { pushed = false })
]

-- The browser goes back by an entry; there is no going back from the first one.
unfoldable pub go_back : FriendsMode → FriendsMode
unfolding on_pop
go_back s = elim s.history [
  | [] ↦ s
  | e ∷ behind ↦ elim behind [ [] ↦ s | f ∷ rest ↦ on_pop (record s { history = f ∷ rest }) ]
]

unfoldable pub go_back_times : ℕ → FriendsMode → FriendsMode
unfolding go_back
go_back_times zero s = s
go_back_times (suc n) s = go_back_times n (go_back s)

-- The browser carries out the calls of `history.back()` that are pending.
unfoldable pub settle : ℕ → FriendsMode → FriendsMode
unfolding go_back_times
settle zero s = s
settle (suc rounds) s = settle rounds (go_back_times s.backs (record s { backs = 0 }))

pub data Action : Type 0 where
  opens : (id : ℕ) → Action
  goes_back changes_tab removed : Action
  navigates : (to : ℕ) → Action

-- A friend of the list can be opened only where the list is shown. `removed` is the answer to the
-- removal of the friend of an open conversation, where `remove` of FriendConversation.tsx calls
-- `onLeft` and `onBack`; the conversation may be closed by then. `navigates` is the router that goes to
-- another page, and the component going away for it.
unfoldable pub act : Action → FriendsMode → FriendsMode
unfolding set_open leave back
act (opens id) s = elim s.open_friend_id [ none ↦ set_open (some id) s | some _ ↦ s ]
act goes_back s = back s
act changes_tab s = set_open none s
act removed s = set_open none (back s)
act (navigates to) s = set_open none (record s { history = page to ∷ s.history })

-- Each action, once what it asked of the browser is carried out; two rounds are enough, since what
-- is carried out asks for no more.
unfoldable pub turn : Action → FriendsMode → FriendsMode
unfolding act settle
turn a s = settle 2 (act a s)

unfoldable pub turn_all : List Action → FriendsMode → FriendsMode
unfolding turn
turn_all [] s = s
turn_all (a ∷ actions) s = turn_all actions (turn a s)
