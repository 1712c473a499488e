-- ===== src/Players/Practice.antt =====
-- frontend/src/components/learn/PracticePlayer.tsx: the course of a practice of the notebook.
use jolyne.Base.{
  ℕ, zero, suc, ◌+◌, ◌-◌, ◌≤◌, ◌<◌, ◌≡◌, refl, sym, ap, ◌∙◌, Bool, true, false, not, ◌&&◌, List, [],
  ◌∷◌, take, take_all, sum, leb, ltb, length, ◌==◌, if◌then◌else◌, arith, Bool-cases, inl, inr,
}
use mathlib.Core.Path.{subst}

pub record Practice : Type 0 where
  pub idx : ℕ
  pub mistakes : ℕ
  pub done : Bool

abbrev pub started : Practice
started = record { idx = 0; mistakes = 0; done = false }

-- The number of exercises.
module _ (total : ℕ) where
  unfoldable pub handle_exercise_done : ℕ → Practice → Practice
  handle_exercise_done ex_mistakes s =
      let s' = record s { mistakes = s.mistakes + ex_mistakes } in
      if leb total (s.idx + 1) then record s' { done = true } else record s' { idx = s.idx + 1 }

  -- The effect that closes a practice without exercises.
  unfoldable pub closes_empty : Bool
  closes_empty = total == 0

  -- An exercise is on the screen.
  unfoldable pub is_playing : Practice → Bool
  is_playing s = not s.done && ltb s.idx total

  -- The mistakes of the exercises that are done; nothing happens where none is on the screen.
  unfoldable pub run : List ℕ → Practice → Practice
  unfolding handle_exercise_done is_playing
  run [] s = s
  run (m ∷ ms) s = run ms (if is_playing s then handle_exercise_done m s else s)

  run_over : (ms : List ℕ) (s : Practice) → is_playing s ≡ false → run ms s ≡ s
  unfolding run
  run_over [] s h = refl
  run_over (m ∷ ms) s h = ground (arith, h, run_over ms s h)

  one_exercise :
      (m : ℕ) (s t : Practice)
      → s.done ≡ false
      → s.idx < total
      → handle_exercise_done m s ≡ t
      → (if is_playing s then handle_exercise_done m s else s) ≡ t
  unfolding is_playing
  one_exercise m s t d l e = ground (arith, d, l, e)

  run_left :
      (ms : List ℕ) (s : Practice) (left : ℕ)
      → s.done ≡ false
      → s.idx + suc left ≡ total
      → suc left ≤ length ms
      → run ms s ≡ record {
        idx = s.idx + left;
        mistakes = s.mistakes + sum (take (suc left) ms);
        done = true;
      }
  unfolding run handle_exercise_done
  run_left [] s left d i l = ground (arith, l)
  run_left (m ∷ ms) s zero d i l =
      let last : Practice = record { idx = s.idx; mistakes = s.mistakes + m; done = true } in
      subst
        (λ u.
          run ms u ≡ record { idx = s.idx + 0; mistakes = s.mistakes + sum (m ∷ []); done = true })
        (sym (one_exercise m s last d (omega (arith, i)) (ground (arith, i))))
        (run_over ms last refl ∙ ground arith)
  run_left (m ∷ ms) s (suc left) d i l =
      let next : Practice = record { idx = s.idx + 1; mistakes = s.mistakes + m; done = false } in
      subst
        (λ u. run ms u ≡ record {
          idx = s.idx + suc left;
          mistakes = s.mistakes + sum (m ∷ take (suc left) ms);
          done = true;
        })
        (sym (one_exercise m s next d (omega (arith, i)) (ground (arith, i, d))))
        (run_left ms next left refl (omega (arith, i)) (omega (arith, l)) ∙ ground arith)

  run_short :
      (ms : List ℕ) (s : Practice)
      → s.done ≡ false
      → s.idx + length ms < total
      → run ms s ≡ record { idx = s.idx + length ms; mistakes = s.mistakes + sum ms; done = false }
  unfolding run handle_exercise_done
  run_short [] s d i = ground (arith, d)
  run_short (m ∷ ms) s d i =
      let next : Practice = record { idx = s.idx + 1; mistakes = s.mistakes + m; done = false } in
      subst
        (λ u. run ms u ≡ record {
          idx = s.idx + length (m ∷ ms);
          mistakes = s.mistakes + sum (m ∷ ms);
          done = false;
        })
        (sym (one_exercise m s next d (omega (arith, i)) (ground (arith, i, d))))
        (run_short ms next refl (omega (arith, i)) ∙ ground arith)

  -- A practice of one exercise or more is done once as many exercises were done as it has, and not
  -- before; it counts the mistakes of those exercises, and what comes later changes nothing.
  pub run-started :
      (ms : List ℕ)
      → 1 ≤ total
      → ((run ms started).done ≡ leb total (length ms))
        × ((run ms started).mistakes ≡ sum (take total ms))
  run-started ms h = elim (Bool-cases (leb total (length ms))) [
    | inl e ↦
        (let left = total - 1 in
          let r = run_left ms started left refl (omega (arith, h)) (ground (arith, h, e)) in
          let n : suc left ≡ total = omega (arith, h) in
          (
            ap (λ s. s.done) r ∙ sym e,
            (ap (λ s. s.mistakes) r ∙ ap (λ k. 0 + sum (take k ms)) n) ∙ omega arith,
          ))
    | inr e ↦
        (let l : length ms < total = ground (arith, e) in
          let r = run_short ms started refl (omega (arith, l)) in
          (
            ap (λ s. s.done) r ∙ sym e,
            ap (λ s. s.mistakes) r
                ∙ (omega arith ∙ ap sum (sym (take_all total ms (omega (arith, l))))),
          ))
  ]
