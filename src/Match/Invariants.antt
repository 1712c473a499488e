-- ===== src/Match/Invariants.antt =====
-- The invariants of the chat store under the inputs of the hook.
use jolyne.Base.{◌≡◌, refl, true, false, List, [], ◌∷◌, some, arith}
use jolyne.Chat.{ChatState, ChatStatus, by_peer}
use jolyne.Chat.Actions.{Action, act}
use jolyne.Chat.Typing.{IsTimed, act-IsTimed}
use jolyne.Match.{
  Env, Draw, Match, Input, stop, page_show, accept_friend, accept_tandem, next, react, react_all,
  close_on_exit,
}
use jolyne.Match.Frames.{
  IsUsed, start_inv, resume_inv, close_active_inv, send_and_inv, send_msg_inv, send_typing_inv,
  report_inv, correct_inv, propose_tandem_inv, active_event_inv, other_event_inv,
}

module _ {ℓ} (P : ChatState → Type ℓ)
    (each : (a : Action) (s : ChatState) → IsUsed a → P s → P (act a s)) (env : Env) where
  react_inv : (d : Draw) (x : Input) (m : Match) → P m.chat → P (react env d x m).0.chat
  unfolding react act stop page_show accept_friend accept_tandem next close_on_exit
  react_inv d Input.starts m h = start_inv P each env d m h
  react_inv d Input.stops m h = each Action.bids_farewell _ tt (close_active_inv P each env d m h)
  react_inv d Input.sends_next m h = h
  react_inv d Input.accepts_friend m h = send_and_inv P each env d _ Action.accepts_friend _ m tt h
  react_inv d Input.proposes_tandem m h = propose_tandem_inv P each env d m h
  react_inv d Input.accepts_tandem m h = send_and_inv P each env d _ Action.ends_tandem _ m tt h
  react_inv d Input.exits m h = close_active_inv P each env d m h
  react_inv d Input.times_out m h = each Action.times_out m.chat tt h
  react_inv d Input.resets m h = each Action.resets m.chat tt h
  react_inv d (Input.resumes base_url fp) m h = resume_inv P each env d base_url fp m h
  react_inv d (Input.sends_msg raw) m h = send_msg_inv P each env d raw m h
  react_inv d (Input.sends_typing now) m h = send_typing_inv P each env d now m h
  react_inv d (Input.reports reason) m h = report_inv P each env d reason m h
  react_inv d (Input.corrects target original corrected remark) m h =
      correct_inv P each env d target original corrected remark m h
  react_inv d (Input.page_shows true) m h = each Action.resets m.chat tt h
  react_inv d (Input.page_shows false) m h = h
  react_inv d (Input.happens e) m h = active_event_inv P each env d e m h
  react_inv d (Input.happens_to i e) m h = other_event_inv P each env d i e m h
  react_inv d (Input.sets x) m h = h

  react_all_inv : (l : List (Draw × Input)) (m : Match) → P m.chat → P (react_all env l m).chat
  unfolding react_all
  react_all_inv [] m h = h
  react_all_inv ((d, x) ∷ l) m h = react_all_inv l (react env d x m).0 (react_inv d x m h)

-- Through every history of calls, frames, connections and timers, the indicator "peer is typing" is
-- lit exactly while a timer that will clear it is pending, if it is so at the start.
pub react_all-IsTimed :
    (env : Env) (l : List (Draw × Input)) (m : Match)
    → IsTimed m.chat
    → IsTimed (react_all env l m).chat
react_all-IsTimed env l m h = react_all_inv IsTimed (λ a s _. act-IsTimed a s) env l m h

-- The screen "conversation over" knows who left.
abbrev pub IsExplained : ChatState → Type 0
IsExplained s = s.status ≡ ChatStatus.post_chat → s.ended_by ≡ some by_peer

act-IsExplained : (a : Action) (s : ChatState) → IsUsed a → IsExplained s → IsExplained (act a s)
unfolding act
act-IsExplained (Action.sets_status ChatStatus.queued) s u h = λ e. cc
act-IsExplained (Action.sets_status ChatStatus.connecting) s u h = λ e. cc
act-IsExplained (Action.matches nick is_bot waiting now) s u h = λ e. cc
act-IsExplained (Action.fails code message) s u h = λ e. cc
act-IsExplained Action.bids_farewell s u h = λ e. cc
act-IsExplained Action.resets s u h = λ e. cc
act-IsExplained Action.leaves s u h = λ e. refl
act-IsExplained (Action.pushes_peer id body now) s u h = ground arith
act-IsExplained (Action.sets_status _) s u h = absurd u
act-IsExplained _ s u h = h

-- Through every history, the status is "post_chat" only where the store records that the peer left.
pub react_all-IsExplained :
    (env : Env) (l : List (Draw × Input)) (m : Match)
    → IsExplained m.chat
    → IsExplained (react_all env l m).chat
react_all-IsExplained env l m h = react_all_inv IsExplained act-IsExplained env l m h
