-- ===== src/Translate/Stale.antt =====
-- An answer that comes after the language of the user has changed.
use jolyne.Base.{
  ◌≡◌, refl, sym, ap, ◌∙◌, Bool, true, false, not, ◌&&◌, inl, inr, List, [], ◌∷◌, ◌++◌, Option,
  some, String, str_eq, arith, Bool-cases,
}
use text.Mathlib.TextPositions.{eq_refl}
use jolyne.Base.Text.{is_empty, trim}
use mathlib.Core.List.{append-nil, append_assoc}
use jolyne.Base.Dict.{lookup, lookup-insert}
use jolyne.Learn.Shuffle.{includes}
use jolyne.Translate.{
  Item, Job, AutoTranslate, guess_source_lang, same_target, set_target, enqueue, render, answered,
  renders, answers, react, react_all,
}

abbrev job_of : Option String → String → Item → Job
job_of expected target item = record {
  id = item.id;
  body = item.body;
  source = guess_source_lang item.body expected;
  target = target;
}

-- The answer is one that the hook shows.
abbrev pub is_shown : (String → String) → String → String → Bool
is_shown lower translated body =
    not (is_empty translated) && not (str_eq (lower (trim translated)) (lower (trim body)))

-- What the loop over the messages leaves as it is.
record Kept (s t : AutoTranslate) (more : List Job) : Type 0 where
  queue : t.queue ≡ s.queue ++ more
  last_target : t.last_target ≡ s.last_target

enqueue-Kept :
    (expected : Option String) (lang : String) (items : List Item) (s : AutoTranslate)
    → (more : List Job) × Kept s (enqueue expected lang items s) more
unfolding enqueue
enqueue-Kept expected lang [] s =
    ([], record { queue = sym (append-nil s.queue); last_target = refl })
enqueue-Kept expected lang (item ∷ items) s = elim (Bool-cases (includes item.id s.done)) [
  | inl e ↦ rw e (enqueue-Kept expected lang items s)
  | inr e ↦ rw e (
      let job = job_of expected lang item in
      let (more, kept) =
        enqueue-Kept expected lang items
          (record s { done = item.id ∷ s.done; queue = s.queue ++ job ∷ [] }) in
      (
        job ∷ more,
        record {
          queue = kept.queue ∙ append_assoc s.queue (job ∷ []) more;
          last_target = kept.last_target;
        },
      ))
]

render-Kept :
    (enabled : Bool) (expected : Option String) (new : String) (items : List Item)
    (s : AutoTranslate)
    → same_target s.last_target (some new) ≡ false
    → (more : List Job) × ((render enabled expected (some new) items s).queue ≡ s.queue ++ more)
      × ((render enabled expected (some new) items s).last_target ≡ some new)
unfolding render set_target
render-Kept enabled expected new items s d =
    let s' = record s { last_target = some new; done = []; translations = [] } in
    let (more, kept) = enqueue-Kept expected new items s' in
    elim (Bool-cases (enabled && not (is_empty new))) [
      | inl e ↦ rw (d, e) (more, kept.queue, kept.last_target)
      | inr e ↦ rw (d, e) ([], sym (append-nil s.queue), refl)
    ]

answered-lookup :
    (lower : String → String) (translated : String) (job : Job) (jobs : List Job)
    (s : AutoTranslate)
    → s.queue ≡ job ∷ jobs
    → is_shown lower translated job.body ≡ true
    → (lookup job.id (answered lower (some translated) s).translations ≡ some translated)
      × ((answered lower (some translated) s).last_target ≡ s.last_target)
unfolding answered
answered-lookup lower translated job jobs s q h =
    ground (arith, q, h, eq_refl job.id, lookup-insert job.id job.id translated s.translations)

-- Where the user changes language while a call for a message is pending, and the message is among those
-- that are drawn in the new language, the answer to that call, which is in the language before, is shown
-- below the message in the new language, unless it is empty or repeats the message; the call for the new
-- language, if one was made, is still to come.
pub react_all-stale :
    (lower : String → String) (expected : Option String) (new translated : String) (job : Job)
    (jobs : List Job) (before : List Item) (item : Item) (after : List Item) (s : AutoTranslate)
    → s.queue ≡ job ∷ jobs
    → item.id ≡ job.id
    → same_target s.last_target (some new) ≡ false
    → is_shown lower translated job.body ≡ true
    → let t =
        react_all lower
          (renders true expected (some new) (before ++ (item ∷ after))
            ∷ answers (some translated)
            ∷ [])
          s in
      (t.last_target ≡ some new) × (lookup item.id t.translations ≡ some translated)
unfolding react_all react
react_all-stale lower expected new translated job jobs before item after s q i d h =
    let (more, queued, target) = render-Kept true expected new (before ++ (item ∷ after)) s d in
    let waits : (render true expected (some new) (before ++ (item ∷ after)) s).queue
        ≡ job ∷ (jobs ++ more) =
      queued ∙ ap (λ l. l ++ more) q in
    let (shown, same) =
      answered-lookup lower translated job (jobs ++ more)
        (render true expected (some new) (before ++ (item ∷ after)) s) waits h in
    (
      same ∙ target,
      ap
            (λ k.
              lookup k
                (answered lower (some translated)
                  (render true expected (some new) (before ++ (item ∷ after)) s)).translations)
            i
          ∙ shown,
    )
