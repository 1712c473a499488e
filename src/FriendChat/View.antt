-- ===== src/FriendChat/View.antt =====
-- frontend/src/components/friends/FriendConversation.tsx: what a conversation shows of its messages,
-- and the swipe, the muting and the typing frames. The texts of system messages and the reading of
-- their payload are parameters; so is `new Date(text).getTime()`, none for NaN.
use jolyne.Base.{
  ℕ, zero, suc, ◌+◌, ◌-◌, ◌*◌, Bool, true, false, not, ◌&&◌, ◌||◌, List, [], ◌∷◌, Option, none,
  some, length, keep, map, ltb, leb, ◌==◌, String, str_eq, if◌then◌else◌,
}
use jolyne.Base.Text.{is_empty}
use jolyne.FriendSocket.{FriendMessage}
use jolyne.FriendChat.Selection.{is_truthy, is_system}

-- `formatSystemBody`; `days_of` reads a positive number of days from a payload, none where there is no
-- such number.
unfoldable pub format_system_body :
    (days_of : String → Option ℕ) (streak_lost streak_restored : ℕ → String)
    → FriendMessage
    → String
format_system_body days_of streak_lost streak_restored m =
    let days : Option ℕ = elim m.payload [
      | none ↦ none
      | some raw ↦ if is_empty raw then none else days_of raw
    ] in
    elim m.kind [
      | none ↦ m.body
      | some kind ↦ elim days [
        | none ↦ m.body
        | some n ↦
            if ltb 0 n && str_eq kind "system_streak_lost"
            then streak_lost n
            else if ltb 0 n && str_eq kind "system_streak_restored"
            then streak_restored n
            else m.body
      ]
    ]

-- `.slice(-n)`
abbrev pub drop {ℓ} : {A : Type ℓ} → ℕ → List A → List A
drop zero xs = xs
drop (suc n) [] = []
drop (suc n) (x ∷ xs) = drop n xs

abbrev pub last_of {ℓ} : {A : Type ℓ} → ℕ → List A → List A
last_of n xs = drop (length xs - n) xs

-- The messages of the friend that the automatic translation looks at; `user_id` is none where nobody is
-- signed in.
unfoldable pub is_peer_item : (user_id : Option ℕ) → FriendMessage → Bool
is_peer_item user_id m =
    not (is_system m)
    && not (is_truthy m.deleted_at)
    && not (is_empty m.body)
    && elim user_id [ none ↦ false | some id ↦ not (m.sender_id == id) ]

unfoldable pub peer_items : (user_id : Option ℕ) → List FriendMessage → List (ℕ × String)
unfolding is_peer_item
peer_items user_id msgs = map (λ m. (m.id, m.body)) (last_of 30 (keep (is_peer_item user_id) msgs))

-- The mark under the last message, `SeenIndicator`.
abbrev pub last_message : List FriendMessage → Option FriendMessage
last_message [] = none
last_message (m ∷ []) = some m
last_message (m ∷ n ∷ ms) = last_message (n ∷ ms)

unfoldable pub shows_seen :
    (time : String → Option ℕ) (me_id : ℕ) → Option String → List FriendMessage → Bool
shows_seen time me_id peer_read_at msgs = elim (last_message msgs) [
  | none ↦ false
  | some m ↦ if not (m.sender_id == me_id) then false else elim peer_read_at [
    | none ↦ false
    | some at ↦ elim (time at) [
      | none ↦ false
      | some read_ts ↦ elim (time m.sent_at) [
        | none ↦ not (is_empty at) && not (read_ts == 0)
        | some sent_ts ↦ not (is_empty at) && not (read_ts == 0) && leb sent_ts read_ts
      ]
    ]
  ]
]

-- The swipe that shows the times of messages, from where it started to where it ended.
abbrev pub distance : ℕ → ℕ → ℕ
distance a b = (a - b) + (b - a)

-- `Math.abs(dx) < 50 || Math.abs(dx) < Math.abs(dy) * 1.5`
abbrev pub is_too_steep : (dx dy : ℕ) → Bool
is_too_steep dx dy = ltb dx 50 || ltb (2 * dx) (3 * dy)

unfoldable pub swipe_ended : Option (ℕ × ℕ) → ℕ × ℕ → (times_revealed : Bool) → Bool
swipe_ended none (x, y) revealed = revealed
swipe_ended (some (x0, y0)) (x, y) revealed =
    if is_too_steep (distance x0 x) (distance y0 y) then revealed else ltb x x0

-- The typing frames: whether one is sent at `now`, and the time of the last one.
unfoldable pub on_typing : (now last_typing_sent : ℕ) → Bool × ℕ
on_typing now last = if ltb (now - last) 2000 then (false, last) else (true, now)

-- The mute flag and what the browser stores of it; `stores` tells whether the storage can be written.
pub record Mute : Type 0 where
  pub muted : Bool
  pub stored : Option String

unfoldable pub mute_loaded : Mute → Mute
mute_loaded s = record s { muted = elim s.stored [ none ↦ false | some v ↦ str_eq v "1" ] }

unfoldable pub toggle_mute : (stores : Bool) → Mute → Mute
toggle_mute stores s =
    if s.muted
    then record s { muted = false; stored = if stores then none else s.stored }
    else record s { muted = true; stored = if stores then some "1" else s.stored }
