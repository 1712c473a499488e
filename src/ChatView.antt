-- ===== src/ChatView.antt =====
-- frontend/src/components/chat/ChatView.tsx: the view of a chat, with the delay before the next partner,
-- the guard of the browser's back button and the corrections. What the store holds comes as an input
-- where it changes; `clock` is the time, which only passes.
pub mod Cooldown
pub mod Guard
pub mod Tests
use jolyne.Base.{
  ℕ, ◌+◌, Bool, true, false, not, ◌&&◌, List, [], ◌∷◌, ◌++◌, Option, none, some, is_some, leb, ◌==◌,
  String, if◌then◌else◌,
}
use jolyne.Chat.{ChatMessage}

abbrev pub next_cooldown_ms : ℕ
next_cooldown_ms = 3000

abbrev pub toast_ms : ℕ
toast_ms = 2200

-- An entry of the browser's history: the decoy, whose state is "back-guard", or a page.
pub data Entry : Type 0 where
  decoy : Entry
  page : ℕ → Entry

-- `next_due` and `toast_due` are the times of the pending timers. `history` starts with the entry that
-- is shown; `listens` tells whether `onPop` is registered.
pub record ChatView : Type 0 where
  pub clock : ℕ
  pub matched_at : Option ℕ
  pub post_chat : Bool
  pub can_next : Bool
  pub next_due : Option ℕ
  pub target : Option ChatMessage
  pub toast_tick : ℕ
  pub show_toast : Bool
  pub toast_due : Option ℕ
  pub back_guard : Bool
  pub skip_next_pop : Bool
  pub listens : Bool
  pub history : List Entry

pub data Effect : Type 0 where
  sends_next stops goes_back : Effect
  sends_correction : (message_id original corrected note : String) → Effect

-- The effect on `matchedAt`; a timer that was pending is cleared before.
unfoldable pub cool_down : ChatView → ChatView
cool_down s = elim s.matched_at [
  | none ↦ record s { can_next = false; next_due = none }
  | some at ↦
      if leb (at + next_cooldown_ms) s.clock
      then record s { can_next = true; next_due = none }
      else record s { can_next = false; next_due = some (at + next_cooldown_ms) }
]

-- The first rendering at a time, over the pages of the history; then its effects run.
abbrev pub fresh : (clock : ℕ) → Option ℕ → (post_chat : Bool) → List Entry → ChatView
fresh clock matched_at post_chat pages = record {
  clock = clock;
  matched_at = matched_at;
  post_chat = post_chat;
  can_next = false;
  next_due = none;
  target = none;
  toast_tick = 0;
  show_toast = false;
  toast_due = none;
  back_guard = false;
  skip_next_pop = false;
  listens = true;
  history = decoy ∷ pages;
}

unfoldable pub mounted : (clock : ℕ) → Option ℕ → (post_chat : Bool) → List Entry → ChatView
unfolding cool_down
mounted clock matched_at post_chat pages = cool_down (fresh clock matched_at post_chat pages)

abbrev pub same_time : Option ℕ → Option ℕ → Bool
same_time none none = true
same_time none (some b) = false
same_time (some a) none = false
same_time (some a) (some b) = a == b

-- A rendering after the store has changed.
unfoldable pub sees : Option ℕ → (post_chat : Bool) → ChatView → ChatView
unfolding cool_down
sees matched_at post_chat s =
    if same_time s.matched_at matched_at
    then record s { post_chat = post_chat }
    else cool_down (record s { matched_at = matched_at; post_chat = post_chat })

abbrev pub is_due : Option ℕ → ℕ → Bool
is_due none clock = false
is_due (some due) clock = leb due clock

-- The ring on the button is drawn.
unfoldable pub cooldown_active : ChatView → Bool
cooldown_active s =
    not s.post_chat
    && is_some s.matched_at
    && not s.can_next
    && elim s.matched_at [ none ↦ false | some at ↦ not (leb (at + next_cooldown_ms) s.clock) ]

unfoldable pub submit_correction : (corrected note : String) → ChatView → ChatView × List Effect
submit_correction corrected note s = elim s.target [
  | none ↦ (s, [])
  | some m ↦ (
    record s {
      target = none;
      toast_tick = s.toast_tick + 1;
      show_toast = true;
      toast_due = some (s.clock + toast_ms);
    },
    sends_correction m.id m.body corrected note ∷ [],
  )
]

unfoldable pub on_pop : ChatView → ChatView
on_pop s =
    if s.skip_next_pop
    then record s { skip_next_pop = false }
    else record s { history = decoy ∷ s.history; back_guard = true }

-- The browser goes back by an entry, unless there is none behind.
unfoldable pub go_back : ChatView → ChatView
unfolding on_pop
go_back s = elim s.history [
  | [] ↦ s
  | e ∷ behind ↦ elim behind [
    | [] ↦ s
    | f ∷ rest ↦
        let back = record s { history = f ∷ rest } in if s.listens then on_pop back else back
  ]
]

-- `confirmBack`; the browser carries out the `history.back()` later.
unfoldable pub confirm_back : ChatView → ChatView × List Effect
confirm_back s = (record s { back_guard = false; skip_next_pop = true }, stops ∷ goes_back ∷ [])

pub data Input : Type 0 where
  passes : (ms : ℕ) → Input
  store_changes : (matched_at : Option ℕ) (post_chat : Bool) → Input
  next_fires toast_fires presses_shortcut clicks_next goes_back_once cancels : Input
  chooses : ChatMessage → Input
  submits : (corrected note : String) → Input

-- The shortcut looks at `canNext` alone, the button also at the end of the chat.
unfoldable pub react : Input → ChatView → ChatView × List Effect
unfolding sees submit_correction go_back
react (passes ms) s = (record s { clock = s.clock + ms }, [])
react (store_changes matched_at post_chat) s = (sees matched_at post_chat s, [])
react next_fires s =
    (if is_due s.next_due s.clock then record s { can_next = true; next_due = none } else s, [])
react toast_fires s = (
  if is_due s.toast_due s.clock then record s { show_toast = false; toast_due = none } else s,
  [],
)
react presses_shortcut s = (s, if s.can_next then sends_next ∷ [] else [])
react clicks_next s = (s, if s.can_next && not s.post_chat then sends_next ∷ [] else [])
react goes_back_once s = (go_back s, [])
react cancels s = (record s { back_guard = false }, [])
react (chooses m) s = (if s.post_chat then s else record s { target = some m }, [])
react (submits corrected note) s = submit_correction corrected note s

unfoldable pub react_all : List Input → ChatView → ChatView × List Effect
unfolding react
react_all [] s = (s, [])
react_all (i ∷ is) s =
    let (s', out) = react i s in let (t, rest) = react_all is s' in (t, out ++ rest)
