-- ===== src/Chat/Types.antt =====
-- frontend/src/stores/chatStore.ts: the types of the chat store and the state it starts in.
use jolyne.Base.{ℕ, Bool, false, List, [], Option, none, some, String}

pub data ChatStatus : Type 0 where
  idle connecting queued matched post_chat ended error : ChatStatus

pub record MessageCorrection : Type 0 where
  pub original : String
  pub corrected : String
  pub note : Option String
  pub from_me : Bool
  pub at : ℕ

pub data Sender : Type 0 where
  me peer : Sender

pub data MessageKind : Type 0 where
  user system : MessageKind

-- `kind` is `user` where the source leaves it out.
pub record ChatMessage : Type 0 where
  pub id : String
  pub from : Sender
  pub body : String
  pub at : ℕ
  pub correction : Option MessageCorrection
  pub kind : MessageKind

pub data FriendPrompt : Type 0 where
  shown self_accepted skipped : FriendPrompt
  made : ℕ → FriendPrompt

-- `cefr` counts hundredths of a level.
pub record PeerProfile : Type 0 where
  pub photo_id : String
  pub prompts : List (String × String)
  pub verified : Option Bool
  pub cefr : Option ℕ

pub data Tandem : Type 0 where
  proposed prompted : Tandem
  active : (lang : String) (phase_sec started_at : ℕ) → Tandem

pub data EndedBy : Type 0 where
  by_peer by_self : EndedBy

pub record ChatState : Type 0 where
  pub status : ChatStatus
  pub peer_nick : Option String
  pub messages : List ChatMessage
  pub error_code : Option String
  pub error_message : Option String
  pub peer_typing : Bool
  pub ended_by : Option EndedBy
  pub friend_prompt : Option FriendPrompt
  pub peer_profile : Option PeerProfile
  pub peer_is_bot : Bool
  pub waiting_room : Bool
  pub matched_at : Option ℕ
  pub icebreakers : List String
  pub tandem : Option Tandem
  pub typing_timer : Option ℕ

abbrev pub peer_typing_auto_clear_ms : ℕ
peer_typing_auto_clear_ms = 3500

-- The fields that the store is created with, and that `reset` restores.
abbrev pub initial : ChatState
initial = record {
  status = idle;
  peer_nick = none;
  messages = [];
  error_code = none;
  error_message = none;
  peer_typing = false;
  ended_by = none;
  friend_prompt = none;
  peer_profile = none;
  peer_is_bot = false;
  waiting_room = false;
  matched_at = none;
  icebreakers = [];
  tandem = none;
  typing_timer = none;
}

-- `!!b`, for an optional flag
abbrev pub truthy : Option Bool → Bool
truthy none = false
truthy (some b) = b
