-- ===== src/Chat/Actions.antt =====
-- Every method of the chat store as a value, and the runs of the store.
use jolyne.Base.{ℕ, Bool, List, [], ◌∷◌, Option, String}
use jolyne.Chat.{
  ChatStatus, MessageCorrection, PeerProfile, ChatState, set_status, match_peer, push_me, push_peer,
  push_system, apply_correction, receive_peer_typing, typing_timeout, peer_left, farewell, fail,
  reset, show_friend_prompt, self_accept_friend, friend_made, friend_skipped, set_peer_profile,
  set_icebreakers, tandem_proposed, tandem_prompted, tandem_switched, tandem_ended,
}

pub data Action : Type 0 where
  sets_status : ChatStatus → Action
  matches : (nick : String) (is_bot waiting : Option Bool) (now : ℕ) → Action
  pushes_me : (id body : String) (now : ℕ) → Action
  pushes_peer : (id body : String) (now : ℕ) → Action
  pushes_system : (id body : String) (now : ℕ) → Action
  corrects : (target : String) → MessageCorrection → Action
  types : (now : ℕ) → Action
  times_out leaves bids_farewell resets : Action
  fails : (code : String) (message : Option String) → Action
  prompts_friend accepts_friend skips_friend : Action
  makes_friend : ℕ → Action
  sets_profile : Option PeerProfile → Action
  sets_icebreakers : List String → Action
  proposes_tandem prompts_tandem ends_tandem : Action
  switches_tandem : (lang : String) (phase_sec now : ℕ) → Action

unfoldable pub act : Action → ChatState → ChatState
unfolding set_status match_peer push_me push_peer push_system apply_correction receive_peer_typing
    typing_timeout peer_left farewell fail reset show_friend_prompt self_accept_friend friend_made
    friend_skipped set_peer_profile set_icebreakers tandem_proposed tandem_prompted tandem_switched
    tandem_ended
act (sets_status v) s = set_status v s
act (matches nick is_bot waiting now) s = match_peer nick is_bot waiting now s
act (pushes_me id body now) s = push_me id body now s
act (pushes_peer id body now) s = push_peer id body now s
act (pushes_system id body now) s = push_system id body now s
act (corrects target c) s = apply_correction target c s
act (types now) s = receive_peer_typing now s
act times_out s = typing_timeout s
act leaves s = peer_left s
act bids_farewell s = farewell s
act resets s = reset s
act (fails code message) s = fail code message s
act prompts_friend s = show_friend_prompt s
act accepts_friend s = self_accept_friend s
act skips_friend s = friend_skipped s
act (makes_friend id) s = friend_made id s
act (sets_profile p) s = set_peer_profile p s
act (sets_icebreakers l) s = set_icebreakers l s
act proposes_tandem s = tandem_proposed s
act prompts_tandem s = tandem_prompted s
act ends_tandem s = tandem_ended s
act (switches_tandem lang phase_sec now) s = tandem_switched lang phase_sec now s

unfoldable pub act_all : List Action → ChatState → ChatState
act_all [] s = s
act_all (a ∷ l) s = act_all l (act a s)

-- What every method keeps, every run keeps.
pub act_all_inv {ℓ} :
    (P : ChatState → Type ℓ)
    → ((a : Action) (s : ChatState) → P s → P (act a s))
    → (l : List Action) (s : ChatState) → P s
    → P (act_all l s)
unfolding act_all
act_all_inv P each [] s h = h
act_all_inv P each (a ∷ l) s h = act_all_inv P each l (act a s) (each a s h)
