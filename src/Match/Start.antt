-- ===== src/Match/Start.antt =====
-- frontend/src/hooks/useMatch.ts: `start` and `stop`, the listeners on the exit of the page, and how
-- the events of a socket reach the store. `start` waits for the fingerprint of the device, so it is
-- two functions, with whatever happens in between.
use jolyne.Base.{
  ℕ, Bool, not, ◌||◌, List, [], ◌∷◌, ◌++◌, Option, none, some, ltb, String, if◌then◌else◌,
  get_elem?, set,
}
use jolyne.Base.Text.{utf16_length, is_empty}
use jolyne.Langs.{lang_code}
use jolyne.Chat
use jolyne.Chat.{ChatState, ChatStatus}
use jolyne.Session.{SessionState}
use jolyne.Socket
use jolyne.Socket.{Socket, Event, Output, connect_match}
use jolyne.Match.State.{Env, Draw, Starting, Match, Effect, tracks_search, connects, on_chat}
use jolyne.Match.Receive.{on_state_change, on_frame}

-- `activeConn?.close(); activeConn = null`
unfoldable pub close_active : Match → Match
close_active m = elim m.active [
  | none ↦ m
  | some s ↦ record m { active = none; others = Socket.close s ∷ m.others }
]

unfoldable pub stop : Match → Match
unfolding close_active
stop m = on_chat Chat.farewell (record (close_active m) { last_typing_sent = 0 })

-- What `start` reads of the session; none where it returns at once.
unfoldable pub request : SessionState → Option Starting
request s = elim s.speaks [
  | none ↦ none
  | some speaks ↦ elim s.wants [
    | none ↦ none
    | some wants ↦
        if not s.age_accepted || ltb (utf16_length s.pseudo) 3
        then none
        else some (record {
          pseudo = s.pseudo;
          speaks = lang_code speaks;
          wants = lang_code wants;
          bot_mode = s.bot_mode;
          scenario = s.scenario;
        })
  ]
]

-- `start` up to the point where it waits.
unfoldable pub start : Match → Match × List Effect
unfolding close_active request
start m = elim (request m.session) [
  | none ↦ (m, [])
  | some r ↦ (
    on_chat (Chat.set_status ChatStatus.connecting)
        (record (close_active m) { starting = m.starting ++ r ∷ []; last_typing_sent = 0 }),
    tracks_search r.speaks r.wants ∷ [],
  )
]

abbrev scenario_param : Option String → List (String × String)
scenario_param none = []
scenario_param (some scenario) = if is_empty scenario then [] else ("scenario", scenario) ∷ []

unfoldable pub params : String → Starting → List (String × String)
params fp r =
    ("nick", r.pseudo)
    ∷ ("speaks", r.speaks)
    ∷ ("wants", r.wants)
    ∷ ("fp", fp)
    ∷ ("age", "ok")
    ∷ (if r.bot_mode then ("bot", "1") ∷ scenario_param r.scenario else [])

-- The rest of the first call of `start` that waits. It overwrites `activeConn`.
unfoldable pub resume : (base_url fp : String) → Match → Match × List Effect
unfolding params
resume base_url fp m = elim m.starting [
  | [] ↦ (m, [])
  | r ∷ rest ↦
      let m' = record m { starting = rest } in
      if is_empty base_url then (on_chat (Chat.fail "invalid_param" none) m', []) else (
        record m' {
          active = some connect_match;
          others = elim m.active [ none ↦ m.others | some s ↦ s ∷ m.others ];
        },
        connects (params fp r) ∷ [],
      )
]

-- The calls that a socket makes in one callback.
unfoldable pub deliver : Env → Draw → List Output → Match → Match × List Effect
unfolding on_state_change on_frame
deliver env d [] m = (m, [])
deliver env d (Output.state_change s ∷ out) m = deliver env d out (on_chat (on_state_change s) m)
deliver env d (Output.delivers f ∷ out) m =
    let (m', effects) = on_frame env d f m in
    let (m'', more) = deliver env d out m' in (m'', effects ++ more)
deliver env d (Output.sends f ∷ out) m = deliver env d out m

-- An event of the active connection.
unfoldable pub active_event : Env → Draw → Event → Match → Match × List Effect
unfolding deliver
active_event env d e m = elim m.active [
  | none ↦ (m, [])
  | some s ↦ let (s', out) = Socket.step e s in deliver env d out (record m { active = some s' })
]

-- An event of the i-th connection that the hook no longer refers to: its callbacks are the same.
unfoldable pub other_event : Env → Draw → ℕ → Event → Match → Match × List Effect
unfolding deliver
other_event env d i e m = elim (get_elem? m.others i) [
  | none ↦ (m, [])
  | some s ↦
      let (s', out) = Socket.step e s in deliver env d out (record m { others = set m.others i s' })
]

-- `pagehide` and `beforeunload`, and `pageshow` of a page that was kept.
unfoldable pub close_on_exit : Match → Match
unfolding close_active
close_on_exit m = close_active m

unfoldable pub page_show : (persisted : Bool) → Match → Match
page_show persisted m = if persisted then on_chat Chat.reset m else m
