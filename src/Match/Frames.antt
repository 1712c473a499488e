-- ===== src/Match/Frames.antt =====
-- The methods of the chat store through which each call of the hook and each event changes it.
use jolyne.Base.{
  ℕ, inl, inr, not, ◌||◌, List, [], ◌∷◌, Option, none, some, is_some, String, ltb, ◌-◌, Bool-cases,
  Option-cases, List-cases, get_elem?, set,
}
use jolyne.Base.Text.{is_empty, trim}
use jolyne.Langs.{LangCode}
use jolyne.Chat.{ChatState, ChatStatus, Tandem}
use jolyne.Chat.Actions.{Action, act}
use jolyne.Frames.{ServerFrame, ClientFrame}
use jolyne.Socket
use jolyne.Socket.{Socket, Event, Output, ConnState}
use jolyne.Match.{
  Env, Draw, Match, Effect, on_line, is_matched, is_queued, wire, prompt_tandem, receive,
  on_state_change, deliver, active_event, other_event, send_and, send_msg, send_typing, report,
  correct, propose_tandem, start, resume, close_active, request,
}

-- The hook sets no other status by hand than "queued" and "connecting".
abbrev pub IsUsed : Action → Type 0
IsUsed (Action.sets_status ChatStatus.queued) = Unit {0}
IsUsed (Action.sets_status ChatStatus.connecting) = Unit {0}
IsUsed (Action.sets_status _) = ⊥
IsUsed _ = Unit {0}

module _ {ℓ} (P : ChatState → Type ℓ)
    (each : (a : Action) (s : ChatState) → IsUsed a → P s → P (act a s)) (env : Env)
    (d : Draw) where
  on_line_inv : (o : Option String) (c : ChatState) → P c → P (on_line d o c)
  unfolding act
  on_line_inv none c h = h
  on_line_inv (some body) c h = each (Action.pushes_system d.sys_id body d.now) c tt h

  prompt_tandem_inv : (t : Option Tandem) (c : ChatState) → P c → P (prompt_tandem t c)
  unfolding act
  prompt_tandem_inv none c h = each Action.prompts_tandem c tt h
  prompt_tandem_inv (some t) c h = h

  receive_inv :
      (wants : Option LangCode) (f : ServerFrame) (c : ChatState)
      → P c
      → P (receive env d wants f c)
  unfolding receive act
  receive_inv wants ServerFrame.queued c h = each (Action.sets_status ChatStatus.queued) c tt h
  receive_inv wants (ServerFrame.matched nick is_bot waiting) c h =
      on_line_inv _ _ (each (Action.matches nick is_bot waiting d.now) c tt h)
  receive_inv wants (ServerFrame.msg body id) c h = each (Action.pushes_peer _ _ d.now) c tt h
  receive_inv wants (ServerFrame.correction target _ _ _) c h =
      each (Action.corrects target _) c tt h
  receive_inv wants ServerFrame.peer_left c h =
      each Action.leaves _ tt (each (Action.pushes_system d.sys_id _ d.now) c tt h)
  receive_inv wants ServerFrame.typing c h = each (Action.types d.now) c tt h
  receive_inv wants ServerFrame.reported c h = h
  receive_inv wants (ServerFrame.friend_prompt nick window_sec) c h =
      each Action.prompts_friend c tt h
  receive_inv wants (ServerFrame.friend_made friend_id) c h =
      each (Action.makes_friend friend_id) c tt h
  receive_inv wants ServerFrame.friend_skipped c h = each Action.skips_friend c tt h
  receive_inv wants (ServerFrame.peer_profile photo_id prompts verified cefr) c h =
      each (Action.sets_profile _) c tt h
  receive_inv wants (ServerFrame.icebreakers suggestions) c h =
      each (Action.sets_icebreakers _) c tt h
  receive_inv wants (ServerFrame.nudge code) c h = on_line_inv _ c h
  receive_inv wants ServerFrame.tandem_prompt c h = prompt_tandem_inv c.tandem c h
  receive_inv wants (ServerFrame.tandem_switch body window_sec) c h =
      on_line_inv _ _ (each (Action.switches_tandem body window_sec d.now) c tt h)
  receive_inv wants ServerFrame.tandem_end c h =
      each (Action.pushes_system d.sys_id _ d.now) _ tt (each Action.ends_tandem c tt h)
  receive_inv wants ServerFrame.mission_complete c h =
      each (Action.pushes_system d.sys_id _ d.now) c tt h
  receive_inv wants (ServerFrame.error code message) c h = each (Action.fails code message) c tt h
  receive_inv wants ServerFrame.unknown c h = h

  on_state_change_inv : (v : ConnState) (c : ChatState) → P c → P (on_state_change v c)
  unfolding on_state_change act
  on_state_change_inv ConnState.connecting c h = h
  on_state_change_inv ConnState.opened c h = h
  on_state_change_inv ConnState.closed c h =
      elim (Bool-cases (is_matched c.status || is_queued c.status)) [
        | inl e ↦ rw e (each (Action.sets_status ChatStatus.connecting) c tt h)
        | inr e ↦ rw e h
      ]

  deliver_inv : (out : List Output) (m : Match) → P m.chat → P (deliver env d out m).0.chat
  unfolding deliver
  deliver_inv [] m h = h
  deliver_inv (Output.state_change v ∷ out) m h = deliver_inv out _ (on_state_change_inv v m.chat h)
  deliver_inv (Output.delivers f ∷ out) m h =
      deliver_inv out _ (receive_inv m.session.wants f m.chat h)
  deliver_inv (Output.sends f ∷ out) m h = deliver_inv out m h

  pub send_and_inv :
      (f : ClientFrame) (a : Action) (effects : List Effect) (m : Match)
      → IsUsed a
      → P m.chat
      → P (send_and f (act a) effects m).1.chat
  unfolding send_and
  send_and_inv f a effects m u h = elim (Bool-cases (wire f m.active)) [
    | inl e ↦ rw e (each a m.chat u h)
    | inr e ↦ rw e h
  ]

  pub close_active_inv : (m : Match) → P m.chat → P (close_active m).chat
  unfolding close_active
  close_active_inv m h = elim (Option-cases m.active) [
    | inl e ↦ rw (e, close_active) h
    | inr (s, e) ↦ rw (e, close_active) h
  ]

  pub start_inv : (m : Match) → P m.chat → P (start m).0.chat
  unfolding start act
  start_inv m h = elim (Option-cases (request m.session)) [
    | inl e ↦ rw (e, start) h
    | inr (r, e) ↦
        rw (e, start) (each (Action.sets_status ChatStatus.connecting) _ tt (close_active_inv m h))
  ]

  pub resume_inv : (base_url fp : String) (m : Match) → P m.chat → P (resume base_url fp m).0.chat
  unfolding resume act
  resume_inv base_url fp m h = elim (List-cases m.starting) [
    | inl e ↦ rw (e, resume) h
    | inr (r, rest, e) ↦ elim (Bool-cases (is_empty base_url)) [
      | inl k ↦ rw (e, resume, k) (each (Action.fails "invalid_param" none) _ tt h)
      | inr k ↦ rw (e, resume, k) h
    ]
  ]

  pub send_msg_inv : (raw : String) (m : Match) → P m.chat → P (send_msg env d raw m).0.chat
  unfolding send_msg act
  send_msg_inv raw m h = elim (Bool-cases (is_empty (trim raw))) [
    | inl e ↦ rw e h
    | inr e ↦ rw e (send_and_inv _ (Action.pushes_me d.id _ d.now) [] m tt h)
  ]

  pub send_typing_inv : (now : ℕ) (m : Match) → P m.chat → P (send_typing now m).0.chat
  unfolding send_typing
  send_typing_inv now m h = elim (Bool-cases (ltb (now - m.last_typing_sent) 2000)) [
    | inl e ↦ rw e h
    | inr e ↦ elim (Bool-cases (not (is_matched m.chat.status))) [
      | inl k ↦ rw (e, k) h
      | inr k ↦ rw (e, k) h
    ]
  ]

  pub report_inv : (reason : Option String) (m : Match) → P m.chat → P (report reason m).1.chat
  unfolding report
  report_inv reason m h = elim (Bool-cases (is_some m.active)) [ inl e ↦ rw e h | inr e ↦ rw e h ]

  pub correct_inv :
      (target original corrected : String) (remark : Option String) (m : Match)
      → P m.chat
      → P (correct env d target original corrected remark m).1.chat
  unfolding correct act
  correct_inv target original corrected remark m h =
      elim (Bool-cases (is_empty (trim corrected) || is_empty target)) [
        | inl e ↦ rw e h
        | inr e ↦ rw e (send_and_inv _ (Action.corrects target _) _ m tt h)
      ]

  pub propose_tandem_inv : (m : Match) → P m.chat → P (propose_tandem m).1.chat
  unfolding propose_tandem act
  propose_tandem_inv m h = elim (Bool-cases (is_some m.chat.tandem)) [
    | inl e ↦ rw e h
    | inr e ↦ rw e (send_and_inv _ Action.proposes_tandem [] m tt h)
  ]

  pub active_event_inv : (e : Event) (m : Match) → P m.chat → P (active_event env d e m).0.chat
  unfolding active_event
  active_event_inv e m h = elim (Option-cases m.active) [
    | inl k ↦ rw (k, active_event) h
    | inr (s, k) ↦
        rw (k, active_event)
          (deliver_inv (Socket.step e s).1 (record m { active = some (Socket.step e s).0 }) h)
  ]

  pub other_event_inv :
      (i : ℕ) (e : Event) (m : Match) → P m.chat → P (other_event env d i e m).0.chat
  unfolding other_event
  other_event_inv i e m h = elim (Option-cases (get_elem? m.others i)) [
    | inl k ↦ rw (k, other_event) h
    | inr (s, k) ↦
        rw (k, other_event)
          (deliver_inv (Socket.step e s).1
            (record m { others = set m.others i (Socket.step e s).0 }) h)
  ]
