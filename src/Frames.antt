-- ===== src/Frames.antt =====
-- frontend/src/lib/ws.ts, the frames of /ws/match. A received text that is no JSON is `none` where a
-- frame is expected; a frame of a type that the source does not name is `unknown`.
use jolyne.Base.{ℕ, Bool, List, Option, String}

pub data ServerFrame : Type 0 where
  queued peer_left typing reported friend_skipped mission_complete : ServerFrame
  tandem_prompt tandem_end unknown : ServerFrame
  matched : (peer_nick : String) (is_bot waiting : Option Bool) → ServerFrame
  msg : (body : String) (id : Option String) → ServerFrame
  correction : (target_id original body : String) (note : Option String) → ServerFrame
  friend_prompt : (peer_nick : String) (window_sec : ℕ) → ServerFrame
  friend_made : (friend_id : ℕ) → ServerFrame
  peer_profile :
      (photo_id : Option String) (prompts : Option (List (String × String)))
      (verified : Option Bool) (cefr : Option ℕ)
      → ServerFrame
  nudge : (code : String) → ServerFrame
  icebreakers : (suggestions : Option (List String)) → ServerFrame
  tandem_switch : (body : String) (window_sec : ℕ) → ServerFrame
  error : (code : String) (message : Option String) → ServerFrame

pub data ClientFrame : Type 0 where
  msg : (body id : String) → ClientFrame
  next typing friend_accept tandem_propose tandem_accept : ClientFrame
  report : (body : Option String) → ClientFrame
  correct : (target_id original body : String) (note : Option String) → ClientFrame
