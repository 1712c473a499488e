-- ===== src/Match/Tests.antt =====
-- Tests of the hook, and its theorems at concrete inputs.
use jolyne.Base.{◌≡◌, refl, true, false, List, [], ◌∷◌, none, some}
use jolyne.Langs.{LangCode}
use jolyne.Chat
use jolyne.Chat.{ChatState, ChatStatus, push_me}
use jolyne.Chat.Typing.{IsTimed}
use jolyne.Frames.{ServerFrame}
use jolyne.Session
use jolyne.Session.{SessionState}
use jolyne.Socket
use jolyne.Socket.{Socket, Event, ReadyState, connect_match}
use jolyne.Match.{
  Texts, Env, Draw, Starting, Match, Effect, Input, stop, start, resume, request, react, react_all,
}
use jolyne.Match.Invariants.{react_all-IsTimed}
use jolyne.Match.Wire.{react_closed}
use jolyne.Match.Stop.{resume-stop}

abbrev texts : Texts
texts = record {
  waiting_room_hint = "waiting";
  partner_arrived = λ nick. "partner";
  system_peer_left = λ nick. "left";
  system_peer_left_anon = "left";
  nudge_practice = λ lang. lang;
  nudge_tandem = λ lang. lang;
  tandem_switch = λ lang. lang;
  tandem_end = "end";
  mission_complete = "done";
}

abbrev env : Env
env = record { texts = texts; purify = λ s. s }

abbrev draw : Draw
draw = record { now = 50; id = "id-1"; sys_id = "sys-1" }

abbrev session : SessionState
session = record Session.initial {
  pseudo = "Anaïs";
  speaks = some LangCode.fr;
  wants = some LangCode.en;
  age_accepted = true;
}

abbrev rested : Match
rested = record {
  chat = Chat.initial;
  session = session;
  active = none;
  others = [];
  starting = [];
  last_typing_sent = 0;
}

abbrev open_socket : Socket
open_socket = record connect_match { ws = some ReadyState.opened }

abbrev inputs : List (Draw × Input)
inputs =
    (draw, Input.starts)
    ∷ (draw, Input.resumes "wss://x" "fp")
    ∷ (draw, Input.happens Event.opens)
    ∷ (draw, Input.happens (Event.receives (some ServerFrame.typing)))
    ∷ (draw, Input.sends_msg " hello ")
    ∷ []

started-search : (start rested).1 ≡ Effect.tracks_search "fr" "en" ∷ []
unfolding start request
started-search = refl

timed_example : IsTimed (react_all env inputs rested).chat
timed_example = react_all-IsTimed env inputs rested refl

closed_example : react env draw (Input.sends_msg "hello") rested ≡ (rested, [])
closed_example = react_closed env draw (Input.sends_msg "hello") rested tt (λ h. cc (h.1))

abbrev replacing : Match
replacing = record rested { active = some open_socket }

-- The events of the new connection.
abbrev queueing : List (Draw × Event)
queueing = (draw, Event.opens) ∷ (draw, Event.receives (some ServerFrame.queued)) ∷ []

abbrev searching : Starting
searching = record {
  pseudo = "Anaïs";
  speaks = "fr";
  wants = "en";
  bot_mode = false;
  scenario = none;
}

resume_example :
    ((resume "wss://x" "fp" (stop (record rested { starting = searching ∷ [] }))).0.active
      ≡ some connect_match)
    × ((resume "wss://x" "fp" (stop (record rested { starting = searching ∷ [] }))).0.chat.status
        ≡ ChatStatus.ended)
resume_example =
    resume-stop "wss://x" "fp" (record rested { starting = searching ∷ [] }) searching [] refl refl
