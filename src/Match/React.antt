-- ===== src/Match/React.antt =====
-- frontend/src/hooks/useMatch.ts: everything that can happen to the hook, as one type of inputs.
use jolyne.Base.{ℕ, Bool, List, [], ◌∷◌, Option, String}
use jolyne.Chat
use jolyne.Session
use jolyne.Session.{Setting}
use jolyne.Socket.{Event}
use jolyne.Match.State.{Env, Draw, Match, Effect, on_chat}
use jolyne.Match.Send.{
  send_msg, send_typing, next, report, correct, accept_friend, propose_tandem, accept_tandem,
}
use jolyne.Match.Start.{start, stop, resume, close_on_exit, page_show, active_event, other_event}

-- What the user, the page, the timer of the store and the sockets do.
pub data Input : Type 0 where
  starts stops sends_next accepts_friend proposes_tandem accepts_tandem exits : Input
  times_out resets : Input
  resumes : (base_url fp : String) → Input
  sends_msg : (raw : String) → Input
  sends_typing : ℕ → Input
  reports : Option String → Input
  corrects : (target original corrected : String) → Option String → Input
  page_shows : Bool → Input
  happens : Event → Input
  happens_to : ℕ → Event → Input
  sets : Setting → Input

abbrev drop_answer : Bool × Match × List Effect → Match × List Effect
drop_answer (ok, m, effects) = (m, effects)

unfoldable pub react : Env → Draw → Input → Match → Match × List Effect
react env d starts m = start m
react env d stops m = (stop m, [])
react env d sends_next m = next m
react env d accepts_friend m = drop_answer (accept_friend m)
react env d proposes_tandem m = drop_answer (propose_tandem m)
react env d accepts_tandem m = drop_answer (accept_tandem m)
react env d exits m = (close_on_exit m, [])
react env d times_out m = (on_chat Chat.typing_timeout m, [])
react env d resets m = (on_chat Chat.reset m, [])
react env d (resumes base_url fp) m = resume base_url fp m
react env d (sends_msg raw) m = send_msg env d raw m
react env d (sends_typing now) m = send_typing now m
react env d (reports reason) m = drop_answer (report reason m)
react env d (corrects target original corrected note) m =
    drop_answer (correct env d target original corrected note m)
react env d (page_shows persisted) m = (page_show persisted m, [])
react env d (happens e) m = active_event env d e m
react env d (happens_to i e) m = other_event env d i e m
react env d (sets x) m = (record m { session = Session.apply x m.session }, [])

-- A history: each input comes with what the calls that it makes read of the clock and the random
-- source.
unfoldable pub react_all : Env → List (Draw × Input) → Match → Match
react_all env [] m = m
react_all env ((d, x) ∷ l) m = react_all env l (react env d x m).0
