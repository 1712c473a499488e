-- ===== src/Chat/Isolation.antt =====
-- What a match keeps of the conversation before it, and how a conversation is marked as ended.
use jolyne.Base.{ℕ, ◌≡◌, refl, ◌≢◌, Bool, List, ◌∷◌, Option, some, String, arith}
use jolyne.Chat.{ChatState, initial, by_self}
use jolyne.Chat.Actions.{Action, act, act_all, act_all_inv}

-- Nothing of an earlier conversation survives a match: two stores of whatever history that are told
-- of the same match, and then run the same methods, are in the same state.
pub act_all-matches :
    (nick : String) (is_bot waiting : Option Bool) (now : ℕ) (l : List Action) (s t : ChatState)
    → act_all (Action.matches nick is_bot waiting now ∷ l) s
      ≡ act_all (Action.matches nick is_bot waiting now ∷ l) t
unfolding act_all act
act_all-matches nick is_bot waiting now l s t = refl

-- `reset` brings every store back to the state of a new one, the pending timer included.
pub act_all-resets :
    (l : List Action) (s : ChatState) → act_all (Action.resets ∷ l) s ≡ act_all l initial
unfolding act_all act
act_all-resets l s = refl

act-ne-by_self :
    (a : Action) (s : ChatState) → s.ended_by ≢ some by_self → (act a s).ended_by ≢ some by_self
unfolding act
act-ne-by_self Action.leaves s h = cc
act-ne-by_self Action.resets s h = cc
act-ne-by_self (Action.matches nick is_bot waiting now) s h = cc
act-ne-by_self (Action.pushes_peer id body now) s h = ground arith
act-ne-by_self _ s h = h

-- No run of the store records that this side ended the conversation.
pub act_all-ne-by_self : (l : List Action) → (act_all l initial).ended_by ≢ some by_self
act_all-ne-by_self l =
    act_all_inv (λ s. s.ended_by ≢ some by_self) act-ne-by_self l initial (λ e. cc)
