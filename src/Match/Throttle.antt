-- ===== src/Match/Throttle.antt =====
-- The throttle on the frames that say "typing".
use jolyne.Base.{
  ℕ, ◌+◌, ◌-◌, ◌≤◌, ◌≡◌, ◌⊎◌, inl, inr, Bool, true, false, not, List, [], ◌∷◌, arith, ltb,
  if◌then◌else◌, Bool-cases,
}
use mathlib.Core.Path.{subst}
use jolyne.Match.{Match, Effect, is_matched, send_typing}

abbrev is_nonempty : List Effect → Bool
is_nonempty [] = false
is_nonempty (e ∷ l) = true

-- The times of the calls of `sendTyping` that put a frame on the wire.
pub typing_times : List ℕ → Match → List ℕ
typing_times [] m = []
typing_times (t ∷ ts) m =
    let rest = typing_times ts (send_typing t m).0 in
    if is_nonempty (send_typing t m).1 then t ∷ rest else rest

-- Each time is two seconds or more after the one before it, and so is the first after `from`.
abbrev pub IsSpaced : ℕ → List ℕ → Type 0
IsSpaced from [] = Unit {0}
IsSpaced from (t ∷ ts) = (from + 2000 ≤ t) × IsSpaced t ts

IsSpaced-mono : (a b : ℕ) (ts : List ℕ) → a ≤ b → IsSpaced b ts → IsSpaced a ts
IsSpaced-mono a b [] h s = tt
IsSpaced-mono a b (t ∷ ts) h (k, s) = (omega arith, s)

-- A call either does nothing, or comes two seconds or more after the last one that did something.
send_typing_cases :
    (t : ℕ) (m : Match)
    → (send_typing t m ≡ (m, []))
      ⊎ ((m.last_typing_sent + 2000 ≤ t) × ((send_typing t m).0.last_typing_sent ≡ t))
unfolding send_typing
send_typing_cases t m = elim (Bool-cases (ltb (t - m.last_typing_sent) 2000)) [
  | inl e ↦ inl (rw e)
  | inr e ↦ elim (Bool-cases (not (is_matched m.chat.status))) [
    | inl k ↦ inl (rw (e, k))
    | inr k ↦ inr (ground arith, rw (e, k))
  ]
]

spaced :
    (t : ℕ) (ts : List ℕ) (m : Match)
    → (send_typing t m).0.last_typing_sent ≡ t
    → IsSpaced (send_typing t m).0.last_typing_sent (typing_times ts (send_typing t m).0)
    → IsSpaced t (typing_times ts (send_typing t m).0)
spaced t ts m e h = subst (λ x. IsSpaced x (typing_times ts (send_typing t m).0)) e h

-- However often the user strikes a key, two frames "typing" are two seconds or more apart.
pub typing_times-IsSpaced :
    (ts : List ℕ) (m : Match) → IsSpaced m.last_typing_sent (typing_times ts m)
unfolding typing_times
typing_times-IsSpaced [] m = tt
typing_times-IsSpaced (t ∷ ts) m = elim (send_typing_cases t m) [
  | inl same ↦ rw same (typing_times-IsSpaced ts m)
  | inr (late, last) ↦ elim (Bool-cases (is_nonempty (send_typing t m).1)) [
    | inl e ↦ rw e (late, spaced t ts m last (typing_times-IsSpaced ts (send_typing t m).0))
    | inr e ↦ rw e (
        IsSpaced-mono m.last_typing_sent t _ (omega arith)
          (spaced t ts m last (typing_times-IsSpaced ts (send_typing t m).0)))
  ]
]
