-- ===== src/ChatView/Cooldown.antt =====
-- frontend/src/components/chat/ChatView.tsx: the delay before the next partner can be asked for.
use jolyne.Base.{
  String, ℕ, ◌+◌, ◌≤◌, ◌≡◌, refl, Bool, true, false, List, [], ◌∷◌, Option, none, some, leb, ◌<◌,
  arith, Bool-cases, Option-cases, if_cases, ◌⊎◌, inl, inr, sym,
}
use mathlib.Core.Path.{subst}
use jolyne.ChatView.{
  Entry, fresh, ChatView, sends_next, next_cooldown_ms, cool_down, mounted, same_time, sees, is_due,
  submit_correction, on_pop, go_back, Input, passes, store_changes, next_fires, toast_fires,
  presses_shortcut, clicks_next, goes_back_once, cancels, chooses, submits, react, react_all,
}

-- The time from which the next partner can be asked for.
abbrev pub allowed_from : Option ℕ → Option ℕ
allowed_from none = none
allowed_from (some at) = some (at + next_cooldown_ms)

-- For `canNext`, the pending timer, `matchedAt` and the time: with a match, the button is either enabled,
-- the delay being over, or waits for a timer that is to end it; with none, it is disabled and no timer
-- is pending.
abbrev Cooled : Bool → Option ℕ → Option ℕ → ℕ → Type 0
Cooled false due matched_at clock = due ≡ allowed_from matched_at
Cooled true due none clock = ⊥
Cooled true due (some at) clock = (at + next_cooldown_ms ≤ clock) × (due ≡ none)

record Inv (s : ChatView) : Type 0 where
  cooled : Cooled s.can_next s.next_due s.matched_at s.clock

cool_down-Inv : (s : ChatView) → Inv (cool_down s)
unfolding cool_down
cool_down-Inv s = elim (Option-cases s.matched_at) [
  | inl e ↦ rw e (record { cooled = refl })
  | inr (at, e) ↦ elim (Bool-cases (leb (at + next_cooldown_ms) s.clock)) [
    | inl b ↦ rw (e, b) (record { cooled = (ground arith, refl) })
    | inr b ↦ rw (e, b) (record { cooled = refl })
  ]
]

sees-Inv :
    (matched_at : Option ℕ) (post_chat : Bool) (s : ChatView)
    → Inv s
    → Inv (sees matched_at post_chat s)
unfolding sees
sees-Inv matched_at post_chat s h =
    if_cases Inv (same_time s.matched_at matched_at) _ _ (λ _. record { cooled = h.cooled })
      (λ _. cool_down-Inv (record s { matched_at = matched_at; post_chat = post_chat }))

Cooled-passes :
    (can : Bool) (due matched_at : Option ℕ) (clock ms : ℕ)
    → Cooled can due matched_at clock
    → Cooled can due matched_at (clock + ms)
Cooled-passes false due matched_at clock ms h = h
Cooled-passes true due none clock ms h = h
Cooled-passes true due (some at) clock ms (h, e) = (omega arith, e)

Cooled-fires :
    (can : Bool) (due matched_at : Option ℕ) (clock : ℕ)
    → is_due due clock ≡ true
    → Cooled can due matched_at clock
    → Cooled true none matched_at clock
Cooled-fires false none matched_at clock d h = cc
Cooled-fires false (some n) none clock d h = cc
Cooled-fires false (some n) (some at) clock d h = (ground arith, refl)
Cooled-fires true due none clock d h = h
Cooled-fires true due (some at) clock d (h, e) = (h, refl)

kept-Inv :
    (s t : ChatView)
    → t.can_next ≡ s.can_next
    → t.next_due ≡ s.next_due
    → t.matched_at ≡ s.matched_at
    → t.clock ≡ s.clock
    → Inv s
    → Inv t
kept-Inv s t can due matched clock h = record {
  cooled =
      subst (λ c. Cooled c t.next_due t.matched_at t.clock) (sym can)
        (rw (due, matched, clock) h.cooled);
}

-- Going back and correcting change nothing of the delay.
go_back-Inv : (s : ChatView) → Inv s → Inv (go_back s)
unfolding go_back on_pop
go_back-Inv s h =
    kept-Inv s (go_back s) (ground arith) (ground arith) (ground arith) (ground arith) h

submit_correction-Inv :
    (corrected note : String) (s : ChatView) → Inv s → Inv (submit_correction corrected note s).0
unfolding submit_correction
submit_correction-Inv corrected note s h =
    kept-Inv s (submit_correction corrected note s).0 (ground arith) (ground arith) (ground arith)
      (ground arith) h

react-Inv : (i : Input) (s : ChatView) → Inv s → Inv (react i s).0
unfolding react
react-Inv (passes ms) s h = record { cooled = Cooled-passes _ _ _ _ ms h.cooled }
react-Inv (store_changes matched_at post_chat) s h = sees-Inv matched_at post_chat s h
react-Inv next_fires s h =
    if_cases Inv (is_due s.next_due s.clock) _ _
      (λ d. record { cooled = Cooled-fires _ _ _ _ d h.cooled }) (λ _. h)
react-Inv toast_fires s h =
    if_cases Inv (is_due s.toast_due s.clock) _ _ (λ _. record { cooled = h.cooled }) (λ _. h)
react-Inv presses_shortcut s h = h
react-Inv clicks_next s h = h
react-Inv goes_back_once s h = go_back-Inv s h
react-Inv cancels s h = record { cooled = h.cooled }
react-Inv (chooses m) s h =
    if_cases Inv s.post_chat _ _ (λ _. h) (λ _. record { cooled = h.cooled })
react-Inv (submits corrected note) s h = submit_correction-Inv corrected note s h

react_all-Inv : (is : List Input) (s : ChatView) → Inv s → Inv (react_all is s).0
unfolding react_all
react_all-Inv [] s h = h
react_all-Inv (i ∷ is) s h = react_all-Inv is (react i s).0 (react-Inv i s h)

-- What the state promises of the shortcut for the next partner.
pub record IsThrottled (s : ChatView) : Type 0 where
  pub unmatched : s.matched_at ≡ none → (react presses_shortcut s).1 ≡ []
  pub early :
      (at : ℕ)
      → s.matched_at ≡ some at
      → s.clock < at + next_cooldown_ms
      → (react presses_shortcut s).1 ≡ []
  pub late :
      (at : ℕ)
      → s.matched_at ≡ some at
      → at + next_cooldown_ms ≤ s.clock
      → (react presses_shortcut (react next_fires s).0).1 ≡ sends_next ∷ []

Cooled-early :
    (can : Bool) (due : Option ℕ) (at clock : ℕ)
    → Cooled can due (some at) clock
    → clock < at + next_cooldown_ms
    → can ≡ false
Cooled-early false due at clock h l = refl
Cooled-early true due at clock (h, e) l = absurd (omega arith)

Cooled-late :
    (can : Bool) (due : Option ℕ) (at clock : ℕ)
    → Cooled can due (some at) clock
    → at + next_cooldown_ms ≤ clock
    → (can ≡ true) ⊎ (is_due due clock ≡ true)
Cooled-late false due at clock h l = inr (ground arith)
Cooled-late true due at clock h l = inl refl

Cooled-unmatched :
    (can : Bool) (due : Option ℕ) (clock : ℕ) → Cooled can due none clock → can ≡ false
Cooled-unmatched false due clock h = refl
Cooled-unmatched true due clock h = elim h [ ]

Inv-IsThrottled : (s : ChatView) → Inv s → IsThrottled s
unfolding react
Inv-IsThrottled s h = record {
  unmatched = λ e. rw (Cooled-unmatched s.can_next s.next_due s.clock (rw (← e) h.cooled)) refl;
  early = λ at e l. rw (Cooled-early s.can_next s.next_due at s.clock (rw (← e) h.cooled) l) refl;
  late =
      λ at e l. ground (arith, Cooled-late s.can_next s.next_due at s.clock (rw (← e) h.cooled) l);
}

-- After any inputs, the shortcut for the next partner asks for none while there is no match, and for
-- none in the first three seconds of a match; from then on it does, once the timer that is pending has
-- run.
pub react_all-mounted :
    (clock : ℕ) (matched_at : Option ℕ) (post_chat : Bool) (pages : List Entry) (is : List Input)
    → IsThrottled (react_all is (mounted clock matched_at post_chat pages)).0
unfolding mounted
react_all-mounted clock matched_at post_chat pages is =
    Inv-IsThrottled _ (react_all-Inv is _ (cool_down-Inv (fresh clock matched_at post_chat pages)))
