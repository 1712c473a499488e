-- ===== src/Chat.antt =====
-- frontend/src/stores/chatStore.ts: the store of the anonymous chat. A method of the store is a
-- function on `ChatState`. `Date.now()` is the argument `now`, and the identifier that `pushSystem`
-- draws is the argument `id`. The timer of "peer is typing", a variable of the module, is the field
-- `typing_timer`: the time at which a pending timer fires.
mod Types
pub mod Actions
pub mod Typing
pub mod Messages
pub mod Isolation
pub mod Tests
pub use Types.*
use jolyne.Base.{
  ℕ, ◌+◌, Bool, true, false, List, [], ◌∷◌, ◌++◌, map, Option, none, some, any, String, str_eq,
  if◌then◌else◌,
}

abbrev clear_typing_timer : ChatState → ChatState
clear_typing_timer s = record s { typing_timer = none }

unfoldable pub set_status : ChatStatus → ChatState → ChatState
set_status v s = record s { status = v }

-- `isBot` and `waiting` are optional in the source, and `!!` reads a missing one as false.
unfoldable pub match_peer : String → Option Bool → Option Bool → ℕ → ChatState → ChatState
match_peer nick is_bot waiting now s = record (clear_typing_timer s) {
  status = matched;
  peer_nick = some nick;
  messages = [];
  error_code = none;
  error_message = none;
  peer_typing = false;
  ended_by = none;
  friend_prompt = none;
  peer_profile = none;
  peer_is_bot = truthy is_bot;
  waiting_room = truthy waiting;
  matched_at = some now;
  icebreakers = [];
  tandem = none;
}

unfoldable pub push_me : String → String → ℕ → ChatState → ChatState
push_me id body now s = record s {
  messages =
      s.messages
      ++ record { id = id; from = me; body = body; at = now; correction = none; kind = user } ∷ [];
}

abbrev pub has_id : String → ChatMessage → Bool
has_id id m = str_eq m.id id

unfoldable pub push_peer : String → String → ℕ → ChatState → ChatState
push_peer id body now s =
    let cleared = clear_typing_timer s in
    if any (has_id id) s.messages then record cleared { peer_typing = false } else record cleared {
      messages =
          s.messages
          ++ record { id = id; from = peer; body = body; at = now; correction = none; kind = user }
            ∷ [];
      peer_typing = false;
    }

unfoldable pub push_system : String → String → ℕ → ChatState → ChatState
push_system id body now s = record s {
  messages =
      s.messages
      ++ record { id = id; from = peer; body = body; at = now; correction = none; kind = system }
        ∷ [];
}

abbrev pub correct_message : String → MessageCorrection → ChatMessage → ChatMessage
correct_message target c m = if str_eq m.id target then record m { correction = some c } else m

unfoldable pub apply_correction : String → MessageCorrection → ChatState → ChatState
apply_correction target c s = record s { messages = map (correct_message target c) s.messages }

unfoldable pub receive_peer_typing : ℕ → ChatState → ChatState
receive_peer_typing now s = record (clear_typing_timer s) {
  typing_timer = some (now + peer_typing_auto_clear_ms);
  peer_typing = true;
}

-- The callback of the timer.
unfoldable pub typing_timeout : ChatState → ChatState
typing_timeout s = record s { typing_timer = none; peer_typing = false }

unfoldable pub peer_left : ChatState → ChatState
peer_left s = record (clear_typing_timer s) {
  status = post_chat;
  peer_typing = false;
  ended_by = some by_peer;
}

unfoldable pub farewell : ChatState → ChatState
farewell s = record (clear_typing_timer s) {
  status = ended;
  error_code = none;
  error_message = none;
  peer_typing = false;
}

unfoldable pub fail : String → Option String → ChatState → ChatState
fail code message s = record (clear_typing_timer s) {
  status = error;
  error_code = some code;
  error_message = message;
  peer_typing = false;
}

unfoldable pub reset : ChatState → ChatState
reset s = record (clear_typing_timer s) {
  status = idle;
  peer_nick = none;
  messages = [];
  error_code = none;
  error_message = none;
  peer_typing = false;
  ended_by = none;
  friend_prompt = none;
  peer_profile = none;
  peer_is_bot = false;
  waiting_room = false;
  matched_at = none;
  icebreakers = [];
  tandem = none;
}

unfoldable pub show_friend_prompt : ChatState → ChatState
show_friend_prompt s = record s { friend_prompt = some shown }

unfoldable pub self_accept_friend : ChatState → ChatState
self_accept_friend s = record s { friend_prompt = some self_accepted }

unfoldable pub friend_made : ℕ → ChatState → ChatState
friend_made friend_id s = record s { friend_prompt = some (made friend_id) }

unfoldable pub friend_skipped : ChatState → ChatState
friend_skipped s = record s { friend_prompt = some skipped }

unfoldable pub set_peer_profile : Option PeerProfile → ChatState → ChatState
set_peer_profile p s = record s { peer_profile = p }

unfoldable pub set_icebreakers : List String → ChatState → ChatState
set_icebreakers l s = record s { icebreakers = l }

unfoldable pub tandem_proposed : ChatState → ChatState
tandem_proposed s = record s { tandem = some proposed }

unfoldable pub tandem_prompted : ChatState → ChatState
tandem_prompted s = record s { tandem = some prompted }

unfoldable pub tandem_switched : String → ℕ → ℕ → ChatState → ChatState
tandem_switched lang phase_sec now s = record s { tandem = some (active lang phase_sec now) }

unfoldable pub tandem_ended : ChatState → ChatState
tandem_ended s = record s { tandem = none }
