-- ===== src/FriendPrompt/Found.antt =====
-- frontend/src/components/chat/FriendPromptCard.tsx: which friend the card finds, and when it stops
-- looking.
use jolyne.Base.{
  ℕ, ◌+◌, ◌<◌, ◌≤◌, ◌≡◌, ◌≢◌, refl, true, false, List, [], ◌∷◌, Option, none, some, String, ltb,
  if_cases, length, arith, Bool-cases, ◌⊎◌, inl, inr, All,
}
use mathlib.Core.Path.{subst}
use native.Mathlib.Nat.{add-zero, zero-add, add-suc, suc-add}
use native.Mathlib.Numerals.{add-one}
use jolyne.Inbox.{FriendSummary}
use jolyne.FriendPrompt.{
  Resolving, started, max_attempts, newer, newest, resolve, count_attempt, answered, answered_all,
  tick,
}

module _ (time : String → ℕ) where
  -- None of the list is newer than the friend.
  abbrev pub IsNewest : FriendSummary → List FriendSummary → Type 0
  IsNewest f fs = All (λ g. time g.created_at ≤ time f.created_at) fs

  le-newer :
      (f g : FriendSummary)
      → (time f.created_at ≤ time (newer time f g).created_at)
        × (time g.created_at ≤ time (newer time f g).created_at)
  le-newer f g = elim (Bool-cases (ltb (time f.created_at) (time g.created_at))) [
    | inl e ↦ rw e (ground arith, omega arith)
    | inr e ↦ rw e (omega arith, ground arith)
  ]

  newest-IsNewest :
      (fs : List FriendSummary) (f : FriendSummary)
      → (time f.created_at ≤ time (newest time f fs).created_at) × IsNewest (newest time f fs) fs
  unfolding newest
  newest-IsNewest [] f = (omega arith, tt)
  newest-IsNewest (g ∷ gs) f =
      let (rest, all) = newest-IsNewest gs (newer time f g) in
      let (old, new) = le-newer f g in (omega arith, (omega arith, all))

  -- Some friend of the list is such.
  abbrev pub Some : (FriendSummary → Type 0) → List FriendSummary → Type 0
  Some P [] = ⊥
  Some P (f ∷ fs) = P f ⊎ Some P fs

  Some-newer :
      (P : FriendSummary → Type 0) (f g : FriendSummary) (gs : List FriendSummary)
      → P (newer time f g)
      → P f ⊎ (P g ⊎ Some P gs)
  Some-newer P f g gs =
      if_cases (λ n. P n → P f ⊎ (P g ⊎ Some P gs)) (ltb (time f.created_at) (time g.created_at)) g
        f (λ _ h. inr (inl h)) (λ _ h. inl h)

  Some-newest :
      (P : FriendSummary → Type 0) (fs : List FriendSummary) (f : FriendSummary)
      → P (newest time f fs)
      → P f ⊎ Some P fs
  unfolding newest
  Some-newest P [] f h = inl h
  Some-newest P (g ∷ gs) f h = elim (Some-newest P gs (newer time f g) h) [
    | inl n ↦ Some-newer P f g gs n
    | inr s ↦ inr (inr s)
  ]

  -- The card looks for the friend, and says so, until one is found or eight answers have come.
  pub record Inv (answers : ℕ) (s : Resolving) : Type 0 where
    pub counted : s.attempts ≡ answers
    pub shown : s.loading_friend ≡ s.polling
    pub bounded : s.polling ≡ true → answers < max_attempts
    pub searching : s.polling ≡ false → answers < max_attempts → s.resolved_id ≢ none
    pub found : s.polling ≡ true → s.resolved_id ≡ none

  resolve-Inv :
      (n : ℕ) (fs : List FriendSummary) (s : Resolving) → Inv n s → Inv n (resolve time fs s)
  resolve-Inv n [] s h = h
  resolve-Inv n (f ∷ fs) s h = record {
    counted = h.counted;
    shown = refl;
    bounded = λ e. cc;
    searching = λ _ _ e. cc;
    found = λ e. cc;
  }

  count_attempt-Inv : (n : ℕ) (s : Resolving) → Inv n s → Inv (n + 1) (count_attempt time s)
  count_attempt-Inv n s h = record {
    counted = ground (arith, h.counted);
    shown = ground (arith, h.shown);
    bounded = ground (arith, h.counted);
    searching = ground (arith, h.counted, h.searching);
    found = ground (arith, h.found);
  }

  answered_all-Inv :
      (answers : List (Option (List FriendSummary))) (n : ℕ) (s : Resolving)
      → Inv n s
      → Inv (length answers + n) (answered_all time answers s)
  unfolding answered_all answered
  answered_all-Inv [] n s h = rw zero-add h
  answered_all-Inv (none ∷ answers) n s h =
      rw (suc-add, ← add-suc, ← add-one)
        (answered_all-Inv answers (n + 1) (count_attempt time s) (count_attempt-Inv n s h))
  answered_all-Inv (some fs ∷ answers) n s h =
      rw (suc-add, ← add-suc, ← add-one)
        (answered_all-Inv answers (n + 1) (count_attempt time (resolve time fs s))
          (count_attempt-Inv n (resolve time fs s) (resolve-Inv n fs s h)))

  started-Inv : Inv 0 started
  started-Inv = record {
    counted = refl;
    shown = refl;
    bounded = λ e. omega arith;
    searching = λ e. cc;
    found = λ e. refl;
  }

  -- The identifier is that of a friend of one of the answers, than whom no friend of that answer is
  -- newer.
  abbrev pub IsNewestOf : ℕ → List FriendSummary → Type 0
  IsNewestOf id fs = Some (λ f. (f.id ≡ id) × IsNewest f fs) fs

  abbrev pub IsFound : ℕ → List (Option (List FriendSummary)) → Type 0
  IsFound id [] = ⊥
  IsFound id (none ∷ answers) = IsFound id answers
  IsFound id (some fs ∷ answers) = IsNewestOf id fs ⊎ IsFound id answers

  newest-IsNewestOf :
      (f : FriendSummary) (fs : List FriendSummary) → IsNewestOf (newest time f fs).id (f ∷ fs)
  newest-IsNewestOf f fs =
      Some-newest (λ g. (g.id ≡ (newest time f fs).id) × IsNewest g (f ∷ fs)) fs f
        (refl, newest-IsNewest fs f)

  resolved-count_attempt : (s : Resolving) → (count_attempt time s).resolved_id ≡ s.resolved_id
  resolved-count_attempt s = ground arith

  answered_all-IsFound :
      (answers : List (Option (List FriendSummary))) (s : Resolving) (id : ℕ)
      → (answered_all time answers s).resolved_id ≡ some id
      → (s.resolved_id ≡ some id) ⊎ IsFound id answers
  unfolding answered_all answered
  answered_all-IsFound [] s id e = inl e
  answered_all-IsFound (none ∷ answers) s id e = elim (answered_all-IsFound answers _ id e) [
    | inl h ↦ inl (rw resolved-count_attempt at h)
    | inr h ↦ inr h
  ]
  answered_all-IsFound (some [] ∷ answers) s id e = elim (answered_all-IsFound answers _ id e) [
    | inl h ↦ inl (rw resolved-count_attempt at h)
    | inr h ↦ inr (inr h)
  ]
  answered_all-IsFound (some (f ∷ fs) ∷ answers) s id e =
      elim (answered_all-IsFound answers _ id e) [
        | inl h ↦
            let found : some (newest time f fs).id ≡ some id = rw resolved-count_attempt at h in
            let same : (newest time f fs).id ≡ id = ground (arith, found) in
            inr (inl (subst (λ j. IsNewestOf j (f ∷ fs)) same (newest-IsNewestOf f fs)))
        | inr h ↦ inr (inr h)
      ]

  -- Whatever the calls answer, the card looks for the friend, and says so, as long as fewer than eight
  -- answers have come and none of them had a friend; it has found one where it stopped before the
  -- eighth, and the friend that it has found is one of an answer in which no friend is newer.
  pub answered_all-started :
      (answers : List (Option (List FriendSummary)))
      → let s = answered_all time answers started in
        (s.loading_friend ≡ tick s)
        × (tick s ≡ true → (length answers < max_attempts) × (s.resolved_id ≡ none))
        × (tick s ≡ false → length answers < max_attempts → s.resolved_id ≢ none)
        × ((id : ℕ) → s.resolved_id ≡ some id → IsFound id answers)
  unfolding tick
  answered_all-started answers =
      let h = rw add-zero at (answered_all-Inv answers 0 started started-Inv) in
      (
        h.shown,
        λ e. (h.bounded e, h.found e),
        h.searching,
        λ id e. elim (answered_all-IsFound answers started id e) [
          | inl n ↦ absurd (cc)
          | inr f ↦ f
        ],
      )
