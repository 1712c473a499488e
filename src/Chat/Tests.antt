-- ===== src/Chat/Tests.antt =====
-- Tests of the chat store, and its theorems at concrete inputs.
use jolyne.Base.{◌≡◌, refl, true, List, [], ◌∷◌, none, some}
use jolyne.Chat.{ChatState, MessageCorrection, me, peer, user, initial, push_me, apply_correction}
use jolyne.Chat.Actions.{Action, act, act_all}
use jolyne.Chat.Typing.{IsTimed, act_all-IsTimed}
use jolyne.Chat.Messages.{lines, IsDistinct, act-IsDistinct, apply_correction_absent}
use jolyne.Chat.Isolation.{act_all-resets}

abbrev talk : List Action
talk =
    Action.matches "Ana" (some true) none 10
    ∷ Action.pushes_me "a" "hi" 11
    ∷ Action.types 12
    ∷ Action.pushes_peer "b" "hola" 13
    ∷ []

abbrev fix_b : MessageCorrection
fix_b = record { original = "hola"; corrected = "Hola"; note = none; from_me = true; at = 14 }

abbrev talked : ChatState
unfolding act act_all
talked = act_all talk initial

talked-messages :
    lines talked
    ≡ record { id = "a"; from = me; body = "hi"; at = 11; kind = user }
      ∷ record { id = "b"; from = peer; body = "hola"; at = 13; kind = user }
      ∷ []
unfolding act act_all
talked-messages = refl

timed_example : IsTimed (act_all (Action.types 5 ∷ talk) initial)
timed_example = act_all-IsTimed (Action.types 5 ∷ talk)

IsDistinct-example : IsDistinct (act (Action.pushes_peer "b" "again" 15) talked).messages
unfolding act act_all
IsDistinct-example = act-IsDistinct (Action.pushes_peer "b" "again" 15) talked tt (refl, (refl, tt))

absent_example :
    apply_correction "z" fix_b (push_me "a" "hi" 1 initial) ≡ push_me "a" "hi" 1 initial
unfolding push_me
absent_example = apply_correction_absent "z" fix_b (push_me "a" "hi" 1 initial) refl

resets_example : act_all (Action.resets ∷ talk) talked ≡ act_all talk initial
resets_example = act_all-resets talk talked
