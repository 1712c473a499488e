-- ===== src/Match/State.antt =====
-- frontend/src/hooks/useMatch.ts: the state that the hook works on, and what it does to the outside.
-- The texts of the interface come from the dictionary of the language, and DOMPurify is `purify`.
use jolyne.Base.{ℕ, Bool, true, List, Option, String}
use jolyne.Chat.{ChatState}
use jolyne.Session.{SessionState}
use jolyne.Socket.{Socket}
use jolyne.Frames.{ClientFrame}
use jolyne.Sanitize.{sanitize_message}

-- The entries of `t.chat` that the hook writes into the conversation.
pub record Texts : Type 0 where
  pub waiting_room_hint : String
  pub partner_arrived : String → String
  pub system_peer_left : String → String
  pub system_peer_left_anon : String
  pub nudge_practice : String → String
  pub nudge_tandem : String → String
  pub tandem_switch : String → String
  pub tandem_end : String
  pub mission_complete : String

pub record Env : Type 0 where
  pub texts : Texts
  pub purify : String → String

-- What a call reads from the clock and the random source: `Date.now()`, `newMessageId()`, and the
-- identifier of a system line.
pub record Draw : Type 0 where
  pub now : ℕ
  pub id : String
  pub sys_id : String

-- A call of `start` that waits for the fingerprint of the device, with what it read of the session.
pub record Starting : Type 0 where
  pub pseudo : String
  pub speaks : String
  pub wants : String
  pub bot_mode : Bool
  pub scenario : Option String

-- `active` is `activeConn`; `others` are the connections that were made before and that the hook no
-- longer refers to, whose callbacks still run. `starting` holds the calls of `start` that wait.
pub record Match : Type 0 where
  pub chat : ChatState
  pub session : SessionState
  pub active : Option Socket
  pub others : List Socket
  pub starting : List Starting
  pub last_typing_sent : ℕ

pub data Effect : Type 0 where
  buzzes : ℕ → Effect
  sends : ClientFrame → Effect
  tracks_search : (lang_from lang_to : String) → Effect
  connects : (params : List (String × String)) → Effect

abbrev pub clean : Env → String → String
clean env = sanitize_message env.purify true

abbrev pub on_chat : (ChatState → ChatState) → Match → Match
on_chat f m = record m { chat = f m.chat }
