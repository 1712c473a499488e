-- ===== src/TabAttention.antt =====
-- frontend/src/hooks/useTabAttention.ts: the title of the tab, which counts the messages that came
-- while the tab was hidden. `set_count` is the effect on a change of the number of messages of the
-- peer; the handler of visibility keeps the number that it was made with.
pub mod Unseen
pub mod Tests
use jolyne.Base.{
  ℕ, ◌+◌, ◌-◌, Bool, true, false, not, ◌&&◌, List, [], ◌∷◌, ◌++◌, Option, none, some, keep, length,
  ltb, if◌then◌else◌,
}
use jolyne.Chat.{ChatMessage, Sender, me, peer}

-- `m.from === "peer"`
abbrev pub is_peer : Sender → Bool
is_peer me = false
is_peer peer = true

unfoldable pub peer_message_count : List ChatMessage → ℕ
peer_message_count messages = length (keep (λ m. is_peer m.from) messages)

-- `title` is the number that the title shows; none where it is the base title. `chimes` counts the
-- calls of `playPeerChime`.
pub record TabAttention : Type 0 where
  pub seen : ℕ
  pub unread : ℕ
  pub title : Option ℕ
  pub peer_count : ℕ
  pub hidden : Bool
  pub chimes : ℕ

-- The hook when it is mounted, where the title is that of the page.
abbrev pub mounted : ℕ → Bool → TabAttention
mounted count hidden = record {
  seen = count;
  unread = 0;
  title = none;
  peer_count = count;
  hidden = hidden;
  chimes = 0;
}

unfoldable pub refresh : TabAttention → TabAttention
refresh s = record s { title = if ltb 0 s.unread then some s.unread else none }

unfoldable pub set_count : ℕ → TabAttention → TabAttention
unfolding refresh
set_count count s =
    let s' = record s { peer_count = count } in
    if ltb s.seen count
    then (let delta = count - s.seen in
        let s'' = record s' { seen = count } in
        if s.hidden
        then (let t = refresh (record s'' { unread = s.unread + delta }) in
            record t { chimes = t.chimes + 1 })
        else s'')
    else s'

-- The event "visibilitychange", after which the tab is hidden or not.
unfoldable pub on_visibility : (hidden : Bool) → TabAttention → TabAttention
unfolding refresh
on_visibility hidden s =
    let s' = record s { hidden = hidden } in
    if hidden then s' else refresh (record s' { unread = 0; seen = s.peer_count })

-- Leaving the chat.
unfoldable pub unmount : TabAttention → TabAttention
unmount s = record s { title = none }

pub data Input : Type 0 where
  counts : ℕ → Input
  hides : (hidden : Bool) → Input

unfoldable pub react : Input → TabAttention → TabAttention
unfolding set_count on_visibility
react (counts n) s = set_count n s
react (hides hidden) s = on_visibility hidden s

unfoldable pub react_all : List Input → TabAttention → TabAttention
unfolding react
react_all [] s = s
react_all (i ∷ is) s = react_all is (react i s)
