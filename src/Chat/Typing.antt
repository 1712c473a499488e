-- ===== src/Chat/Typing.antt =====
-- The indicator "peer is typing" and its timer.
use jolyne.Base.{◌≡◌, refl, List, arith, is_some}
use jolyne.Chat.{ChatState, initial}
use jolyne.Chat.Actions.{Action, act, act_all, act_all_inv}

abbrev pub IsTimed : ChatState → Type 0
IsTimed s = s.peer_typing ≡ is_some s.typing_timer

pub act-IsTimed : (a : Action) (s : ChatState) → IsTimed s → IsTimed (act a s)
unfolding act
act-IsTimed (Action.sets_status v) s h = h
act-IsTimed _ s h = ground arith

-- Whatever methods run on a new store, the indicator is lit exactly while a timer that will clear it
-- is pending.
pub act_all-IsTimed : (l : List Action) → IsTimed (act_all l initial)
act_all-IsTimed l = act_all_inv IsTimed act-IsTimed l initial refl
