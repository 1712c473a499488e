-- ===== src/Match/Receive.antt =====
-- frontend/src/hooks/useMatch.ts, the callbacks `onStateChange` and `onFrame` of `start`.
use jolyne.Base.{
  Bool, true, false, not, ◌&&◌, ◌||◌, List, [], ◌∷◌, map, Option, none, some, String, str_eq,
  if◌then◌else◌,
}
use jolyne.Base.Text.{is_empty}
use jolyne.Langs.{LangCode, all_langs, lang_label, label_of_code}
use jolyne.Chat
use jolyne.Chat.{ChatState, ChatStatus, MessageCorrection, PeerProfile, Tandem, truthy}
use jolyne.Frames.{ServerFrame}
use jolyne.Socket.{ConnState}
use jolyne.Match.State.{Env, Draw, Match, Effect, buzzes, clean, on_chat}

abbrev pub is_matched : ChatStatus → Bool
is_matched ChatStatus.matched = true
is_matched _ = false

abbrev pub is_queued : ChatStatus → Bool
is_queued ChatStatus.queued = true
is_queued _ = false

unfoldable pub on_state_change : ConnState → ChatState → ChatState
on_state_change ConnState.closed c =
    if is_matched c.status || is_queued c.status then Chat.set_status ChatStatus.connecting c else c
on_state_change _ c = c

-- An optional note: an empty one is left out.
abbrev pub clean_note : Env → Option String → Option String
clean_note env none = none
clean_note env (some note) = if is_empty note then none else some (clean env note)

abbrev pub or_empty {ℓ} : {A : Type ℓ} → Option (List A) → List A
or_empty none = []
or_empty (some l) = l

abbrev pub or_text : Option String → String → String
or_text none d = d
or_text (some s) d = s

-- The line that tells of a peer who left: an empty nick counts as none.
abbrev pub left_line : Env → Option String → String
left_line env none = env.texts.system_peer_left_anon
left_line env (some nick) =
    if is_empty nick then env.texts.system_peer_left_anon else env.texts.system_peer_left nick

abbrev pub on_line : Draw → Option String → ChatState → ChatState
on_line d none c = c
on_line d (some body) c = Chat.push_system d.sys_id body d.now c

-- The system line of a new match, which tells the waiting room from a human partner.
abbrev pub match_line : Env → String → Option Bool → Option Bool → Bool → Option String
match_line env nick is_bot waiting from_waiting_bot =
    if truthy is_bot && truthy waiting
    then some env.texts.waiting_room_hint
    else if from_waiting_bot && not (truthy is_bot)
    then some (env.texts.partner_arrived nick)
    else none

unfoldable pub on_matched : Env → Draw → String → Option Bool → Option Bool → ChatState → ChatState
on_matched env d nick is_bot waiting c =
    let from_waiting_bot = is_matched c.status && c.peer_is_bot && c.waiting_room in
    on_line d (match_line env nick is_bot waiting from_waiting_bot)
      (Chat.match_peer nick is_bot waiting d.now c)

abbrev pub nudge_lang : Env → Option Tandem → Option String
nudge_lang env (some (Tandem.active lang phase_sec started_at)) =
    elim (label_of_code all_langs lang) [ none ↦ none | some l ↦ some (env.texts.nudge_tandem l) ]
nudge_lang env _ = none

abbrev pub nudge_line : Env → String → Option LangCode → Option Tandem → Option String
nudge_line env code none tandem = if str_eq code "tandem_lang" then nudge_lang env tandem else none
nudge_line env code (some wants) tandem =
    if str_eq code "practice_lang"
    then some (env.texts.nudge_practice (lang_label wants))
    else if str_eq code "tandem_lang"
    then nudge_lang env tandem
    else none

abbrev pub switch_line : Env → String → Option String
switch_line env lang = elim (label_of_code all_langs lang) [
  | none ↦ none
  | some l ↦ some (env.texts.tandem_switch l)
]

abbrev pub prompt_tandem : Option Tandem → ChatState → ChatState
prompt_tandem none c = Chat.tandem_prompted c
prompt_tandem (some t) c = c

-- The store after a frame.
unfoldable pub receive : Env → Draw → Option LangCode → ServerFrame → ChatState → ChatState
unfolding on_matched
receive env d wants ServerFrame.queued c = Chat.set_status ChatStatus.queued c
receive env d wants (ServerFrame.matched nick is_bot waiting) c =
    on_matched env d nick is_bot waiting c
receive env d wants (ServerFrame.msg body id) c =
    Chat.push_peer (or_text id d.id) (clean env body) d.now c
receive env d wants (ServerFrame.correction target original body note) c =
    Chat.apply_correction target
      (record {
        original = clean env original;
        corrected = clean env body;
        note = clean_note env note;
        from_me = false;
        at = d.now;
      })
      c
receive env d wants ServerFrame.peer_left c =
    Chat.peer_left (Chat.push_system d.sys_id (left_line env c.peer_nick) d.now c)
receive env d wants ServerFrame.typing c = Chat.receive_peer_typing d.now c
receive env d wants ServerFrame.reported c = c
receive env d wants (ServerFrame.friend_prompt nick window_sec) c = Chat.show_friend_prompt c
receive env d wants (ServerFrame.friend_made friend_id) c = Chat.friend_made friend_id c
receive env d wants ServerFrame.friend_skipped c = Chat.friend_skipped c
receive env d wants (ServerFrame.peer_profile photo_id prompts verified cefr) c =
    Chat.set_peer_profile
      (some (record {
        photo_id = or_text photo_id "";
        prompts = map (λ p. (p.0, clean env p.1)) (or_empty prompts);
        verified = verified;
        cefr = cefr;
      }))
      c
receive env d wants (ServerFrame.icebreakers suggestions) c =
    Chat.set_icebreakers (map (clean env) (or_empty suggestions)) c
receive env d wants (ServerFrame.nudge code) c = on_line d (nudge_line env code wants c.tandem) c
receive env d wants ServerFrame.tandem_prompt c = prompt_tandem c.tandem c
receive env d wants (ServerFrame.tandem_switch body window_sec) c =
    on_line d (switch_line env body) (Chat.tandem_switched body window_sec d.now c)
receive env d wants ServerFrame.tandem_end c =
    Chat.push_system d.sys_id env.texts.tandem_end d.now (Chat.tandem_ended c)
receive env d wants ServerFrame.mission_complete c =
    Chat.push_system d.sys_id env.texts.mission_complete d.now c
receive env d wants (ServerFrame.error code message) c = Chat.fail code message c
receive env d wants ServerFrame.unknown c = c

-- The vibrations that come with a frame.
unfoldable pub buzz_of : ServerFrame → List Effect
buzz_of (ServerFrame.correction _ _ _ _) = buzzes 25 ∷ []
buzz_of (ServerFrame.friend_made friend_id) = buzzes 20 ∷ []
buzz_of (ServerFrame.tandem_switch body window_sec) = buzzes 20 ∷ []
buzz_of ServerFrame.mission_complete = buzzes 30 ∷ []
buzz_of _ = []

unfoldable pub on_frame : Env → Draw → ServerFrame → Match → Match × List Effect
unfolding receive buzz_of
on_frame env d f m = (on_chat (receive env d m.session.wants f) m, buzz_of f)
