-- ===== src/Match/Send.antt =====
-- frontend/src/hooks/useMatch.ts: what the user does in a conversation.
use jolyne.Base.{
  ℕ, ◌-◌, Bool, true, false, not, ◌||◌, List, [], ◌∷◌, Option, none, some, is_some, ltb, String,
  if◌then◌else◌,
}
use jolyne.Base.Text.{trim, is_empty}
use jolyne.Chat
use jolyne.Chat.{ChatState, Tandem}
use jolyne.Frames.{ClientFrame}
use jolyne.Socket
use jolyne.Socket.{Socket}
use jolyne.Match.State.{Env, Draw, Match, Effect, buzzes, clean, on_chat}
use jolyne.Match.Receive.{is_matched}

abbrev pub typing_throttle_ms : ℕ
typing_throttle_ms = 2000

-- `activeConn?.send(f) ?? false`
unfoldable pub wire : ClientFrame → Option Socket → Bool
wire f none = false
wire f (some s) = (Socket.send f s).0

abbrev pub sent : ClientFrame → Option Socket → List Effect
sent f o = if wire f o then Effect.sends f ∷ [] else []

-- A frame whose sending changes the store and vibrates only if it is on the wire.
unfoldable pub send_and :
    ClientFrame → (ChatState → ChatState) → List Effect → Match → Bool × Match × List Effect
unfolding wire
send_and f change effects m =
    if wire f m.active then (true, on_chat change m, Effect.sends f ∷ effects) else (false, m, [])

unfoldable pub send_msg : Env → Draw → String → Match → Match × List Effect
unfolding send_and trim
send_msg env d raw m =
    let body = trim raw in
    let (ok, m', out) =
      send_and (ClientFrame.msg body d.id) (Chat.push_me d.id (clean env body) d.now) [] m in
    if is_empty body then (m, []) else (m', out)

unfoldable pub send_typing : ℕ → Match → Match × List Effect
unfolding wire
send_typing now m =
    if ltb (now - m.last_typing_sent) typing_throttle_ms
    then (m, [])
    else if not (is_matched m.chat.status)
    then (m, [])
    else (record m { last_typing_sent = now }, sent ClientFrame.typing m.active)

unfoldable pub next : Match → Match × List Effect
unfolding wire
next m = (record m { last_typing_sent = 0 }, sent ClientFrame.next m.active)

unfoldable pub report : Option String → Match → Bool × Match × List Effect
unfolding wire
report reason m =
    if is_some m.active
    then (
      wire (ClientFrame.report reason) m.active,
      record m { last_typing_sent = 0 },
      sent (ClientFrame.report reason) m.active,
    )
    else (false, m, [])

-- `note?.trim() || undefined`, as it is sent.
abbrev pub sent_note : Option String → Option String
sent_note none = none
sent_note (some note) = let t = trim note in if is_empty t then none else some t

-- The note as it is shown: tested trimmed, and kept as it was typed.
abbrev pub shown_note : Env → Option String → Option String
shown_note env none = none
shown_note env (some note) = if is_empty (trim note) then none else some (clean env note)

unfoldable pub correct :
    Env
    → Draw
    → (target original corrected : String) → Option String
    → Match
    → Bool × Match × List Effect
unfolding send_and trim
correct env d target original corrected note m =
    let body = trim corrected in
    if is_empty body || is_empty target
    then (false, m, [])
    else send_and (ClientFrame.correct target original body (sent_note note))
        (Chat.apply_correction target (record {
          original = clean env original;
          corrected = clean env body;
          note = shown_note env note;
          from_me = true;
          at = d.now;
        }))
        (buzzes 15 ∷ []) m

unfoldable pub accept_friend : Match → Bool × Match × List Effect
unfolding send_and
accept_friend m = send_and ClientFrame.friend_accept Chat.self_accept_friend (buzzes 15 ∷ []) m

unfoldable pub propose_tandem : Match → Bool × Match × List Effect
unfolding send_and
propose_tandem m =
    if is_some m.chat.tandem
    then (false, m, [])
    else send_and ClientFrame.tandem_propose Chat.tandem_proposed [] m

unfoldable pub accept_tandem : Match → Bool × Match × List Effect
unfolding send_and
accept_tandem m = send_and ClientFrame.tandem_accept Chat.tandem_ended (buzzes 15 ∷ []) m
