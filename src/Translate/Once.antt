-- ===== src/Translate/Once.antt =====
-- How often a message is sent to be translated.
use jolyne.Base.{
  ℕ, ◌+◌, ◌≤◌, ◌≡◌, refl, sym, ◌∙◌, if_cases, Bool, true, false, not, ◌&&◌, inl, inr, List, [], ◌∷◌,
  ◌++◌, Option, none, some, String, str_eq, eq_iff, if◌then◌else◌, arith, Bool-cases, List-cases,
  All,
}
use mathlib.Core.Path.{subst}
use native.Mathlib.Nat.{le_trans}
use text.Mathlib.TextPositions.{eq_refl}
use jolyne.Base.Text.{is_empty}
use jolyne.Learn.Shuffle.{includes}
use jolyne.Learn.Counting.{count, count-append}
use jolyne.Translate.{
  Item, Job, AutoTranslate, started, same_target, set_target, enqueue, Input, renders, answers,
  react, guess_source_lang,
}

abbrev pub is_for : String → Job → Bool
is_for id job = str_eq id job.id

-- The call that an answer ends.
abbrev pub ended : Input → AutoTranslate → List Job
ended (renders enabled expected target items) s = []
ended (answers answer) s = elim s.queue [ [] ↦ [] | job ∷ jobs ↦ job ∷ [] ]

-- The calls that were made: those that a history ends, and those that still stand in the queue.
abbrev pub calls : (String → String) → List Input → AutoTranslate → List Job
calls lower [] s = s.queue
calls lower (i ∷ is) s = ended i s ++ calls lower is (react lower i s)

-- Every rendering has the target.
abbrev pub KeepsTarget : Option String → Input → Type 0
KeepsTarget t (renders enabled expected target items) = target ≡ t
KeepsTarget t (answers answer) = Unit {0}

module _ (id : String) where
  -- The calls that the queue holds for the message, and one more if it may still be queued.
  abbrev room : AutoTranslate → ℕ
  room s = count (is_for id) s.queue + (if includes id s.done then 0 else 1)

  room-append :
      (job : Job) (s : AutoTranslate)
      → includes job.id s.done ≡ false
      → room (record s { done = job.id ∷ s.done; queue = s.queue ++ job ∷ [] }) ≤ room s
  room-append job s h = elim (Bool-cases (str_eq id job.id)) [
    | inl e ↦
        (let out : includes id s.done ≡ false =
            subst (λ i. includes i s.done ≡ false) (sym ((eq_iff id job.id).0 e)) h in
          ground (arith, e, out, count-append (is_for id) s.queue (job ∷ [])))
    | inr e ↦ ground (arith, e, count-append (is_for id) s.queue (job ∷ []))
  ]

  room-enqueue :
      (expected : Option String) (target : String) (items : List Item) (s : AutoTranslate)
      → room (enqueue expected target items s) ≤ room s
  unfolding enqueue
  room-enqueue expected target [] s = omega arith
  room-enqueue expected target (item ∷ items) s =
      let job : Job = record {
        id = item.id;
        body = item.body;
        source = guess_source_lang item.body expected;
        target = target;
      } in
      let t = record s { done = item.id ∷ s.done; queue = s.queue ++ job ∷ [] } in
      if_cases (λ u. room (enqueue expected target items u) ≤ room s) (includes item.id s.done) s t
        (λ _. room-enqueue expected target items s)
        (λ new. le_trans (room-enqueue expected target items t) (room-append job s new))

  last_target-enqueue :
      (expected : Option String) (target : String) (items : List Item) (s : AutoTranslate)
      → (enqueue expected target items s).last_target ≡ s.last_target
  unfolding enqueue
  last_target-enqueue expected target [] s = refl
  last_target-enqueue expected target (item ∷ items) s =
      last_target-enqueue expected target items _
      ∙ if_cases (λ t. t.last_target ≡ s.last_target) (includes item.id s.done) s _ (λ _. refl)
          (λ _. refl)

  same_target_refl : (t : Option String) → same_target t t ≡ true
  same_target_refl none = refl
  same_target_refl (some lang) = eq_refl lang

  set_target_self :
      (target : Option String) (s : AutoTranslate)
      → target ≡ s.last_target
      → set_target target s ≡ s
  unfolding set_target
  set_target_self target s h = ground (arith, h, same_target_refl target)

  -- While the target stays the same, the room is used up by the calls that end.
  room-react :
      (lower : String → String) (i : Input) (s : AutoTranslate)
      → KeepsTarget s.last_target i
      → (count (is_for id) (ended i s) + room (react lower i s) ≤ room s)
        × ((react lower i s).last_target ≡ s.last_target)
  unfolding react
  room-react lower (renders enabled expected none items) s h =
      subst (λ u. (0 + room u ≤ room s) × (u.last_target ≡ s.last_target))
        (sym (set_target_self none s h)) (omega arith, refl)
  room-react lower (renders enabled expected (some lang) items) s h =
      subst
        (λ u.
          let v = if enabled && not (is_empty lang) then enqueue expected lang items u else u in
          (0 + room v ≤ room s) × (v.last_target ≡ s.last_target))
        (sym (set_target_self (some lang) s h))
        (if_cases (λ v. (0 + room v ≤ room s) × (v.last_target ≡ s.last_target))
          (enabled && not (is_empty lang)) (enqueue expected lang items s) s
          (λ _. (
            omega (arith, room-enqueue expected lang items s),
            last_target-enqueue expected lang items s,
          ))
          (λ _. (omega arith, refl)))
  room-react lower (answers none) s h = elim (List-cases s.queue) [
    | inl e ↦ ground (arith, e)
    | inr (job, jobs, e) ↦ ground (arith, e)
  ]
  room-react lower (answers (some answer)) s h = elim (List-cases s.queue) [
    | inl e ↦ ground (arith, e)
    | inr (job, jobs, e) ↦ ground (arith, e)
  ]

  room-calls :
      (lower : String → String) (is : List Input) (s : AutoTranslate)
      → All (KeepsTarget s.last_target) is
      → count (is_for id) (calls lower is s) ≤ room s
  room-calls lower [] s h = omega arith
  room-calls lower (i ∷ is) s (k, h) =
      let (used, same) = room-react lower i s k in
      let ih =
        room-calls lower is (react lower i s) (subst (λ t. All (KeepsTarget t) is) (sym same) h) in
      omega
        (arith, used, ih, count-append (is_for id) (ended i s) (calls lower is (react lower i s)))

  -- As long as the language of the user stays the same, whatever is rendered and answered, the
  -- translation of a message is asked for once at most, even if it fails.
  pub count-calls-started :
      (lower : String → String) (target : Option String) (is : List Input)
      → All (KeepsTarget target) is
      → count (is_for id) (calls lower is (started target)) ≤ 1
  count-calls-started lower target is h = room-calls lower is (started target) h
