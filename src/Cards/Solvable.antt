-- ===== src/Cards/Solvable.antt =====
-- Every exercise of a lesson can be answered without a mistake on the screen that shows it.
use jolyne.Base.{
  ℕ, zero, suc, ◌+◌, ◌≤◌, ◌<◌, ◌≡◌, refl, sym, ap, ◌∙◌, true, false, List, [], ◌∷◌, ◌++◌, map, some,
  any, get_or, length, String, str_eq, ◌==◌, arith, All, All-map, length-map,
}
use mathlib.Core.Path.{subst}
use text.Mathlib.TextPositions.{eq_refl}
use mathlib.Core.List.{append_assoc, append-nil}
use jolyne.Learn.Counting.{count}
use jolyne.Learn.Shuffle.{words}
use jolyne.Learn.Lesson.{PlayItem, Site, Exercise, choose, assemble, match_pairs, build_exercises}
use jolyne.Learn.Fair.{IsFair, build_exercises-IsFair}
use jolyne.Pairs
use jolyne.Pairs.Matched.{knowing, is_distinct, all_below, run-knowing-initial}
use jolyne.Cards.{
  choice, select, check_choice, leave_choice, Assembly, assembly, put, answer_of, is_assembled,
  check_assembly, leave_assembly, norm,
}
use jolyne.Cards.Spaces.{norm-join, words-cons}
use jolyne.Cards.Picking.{left-count, pick, are_free}

-- The clicks on the tokens at the positions.
abbrev pub puts : List String → List ℕ → Assembly → Assembly
puts tokens [] s = s
puts tokens (i ∷ is) s = puts tokens is (put tokens i s)

-- The numbers from i on, n of them.
abbrev pub upto : ℕ → ℕ → List ℕ
upto i zero = []
upto i (suc n) = i ∷ upto (suc i) n

-- The exercise of n pairs, when each is chosen in its turn.
abbrev pub IsMatched : ℕ → Type 0
IsMatched n =
    (Pairs.is_done n (Pairs.run n (knowing (upto 0 n)) Pairs.initial) ≡ true)
    × ((Pairs.run n (knowing (upto 0 n)) Pairs.initial).mistakes ≡ 0)

-- There is a way to answer, at the end of which the exercise reports no mistake.
pub IsSolvable : (String → String) → Exercise → Type 0
IsSolvable lower (choose d question answer options target) =
    (leave_choice answer (check_choice (select options answer choice))).1 ≡ some 0
IsSolvable lower (assemble meaning target tokens) =
    (is : List ℕ) × ((leave_assembly lower tokens target
        (check_assembly (puts tokens is assembly))).1
      ≡ some 0)
IsSolvable lower (match_pairs pairs) = IsMatched (length pairs)

pub any-count : (w : String) (ws : List String) → count (str_eq w) ws ≡ 1 → any (str_eq w) ws ≡ true
any-count w [] h = ground (arith, h)
any-count w (x ∷ xs) h = ground (arith, h, any-count w xs)

choose_solved :
    (answer : String) (options : List String)
    → count (str_eq answer) options ≡ 1
    → (leave_choice answer (check_choice (select options answer choice))).1 ≡ some 0
unfolding leave_choice check_choice select
choose_solved answer options h = ground (arith, any-count answer options h, eq_refl answer)

pub puts-built :
    (tokens : List String) (is : List ℕ) (s : Assembly)
    → s.footer.checked ≡ false
    → are_free (length tokens) s.built is ≡ true
    → puts tokens is s ≡ record s { built = s.built ++ is }
unfolding put
puts-built tokens [] s c f = ap (λ b. record s { built = b }) (sym (append-nil s.built))
puts-built tokens (i ∷ is) s c f =
    let t = record s { built = s.built ++ i ∷ [] } in
    let e : put tokens i s ≡ t = ground (arith, c, f) in
    ap (puts tokens is) e
    ∙ (puts-built tokens is t c (ground (arith, f))
        ∙ ap (λ b. record s { built = b }) (append_assoc s.built (i ∷ []) is))

length-upto : (i n : ℕ) → length (upto i n) ≡ n
length-upto i zero = refl
length-upto i (suc n) = omega (arith, length-upto (suc i) n)

upto-distinct :
    (i n : ℕ)
    → (is_distinct (upto i n) ≡ true) × ((k : ℕ) → k < i → any (λ j. k == j) (upto i n) ≡ false)
upto-distinct i zero = (refl, λ k h. refl)
upto-distinct i (suc n) =
    let (d, fresh) = upto-distinct (suc i) n in
    (ground (arith, d, fresh i), λ k h. ground (arith, fresh k))

upto-below : (m i n : ℕ) → i + n ≤ m → all_below m (upto i n) ≡ true
upto-below m i zero h = refl
upto-below m i (suc n) h = ground (arith, upto-below m (suc i) n)

is_assembled-words :
    (lower : String → String) (target : String) (tokens : List String) (s : Assembly)
    → map (λ i. get_or tokens i "") s.built ≡ words target
    → is_assembled lower tokens target s ≡ true
unfolding is_assembled answer_of
is_assembled-words lower target tokens s e =
    rw e (rw (norm-join lower target) (eq_refl (norm lower target)))

assemble_solved :
    (lower : String → String) (target : String) (tokens : List String)
    → ((w : String) → count (str_eq w) (words target) ≤ count (str_eq w) tokens)
    → (is : List ℕ) × ((leave_assembly lower tokens target
          (check_assembly (puts tokens is assembly))).1
        ≡ some 0)
unfolding leave_assembly check_assembly
assemble_solved lower target tokens h =
    let (is, e, f) =
      pick tokens (words target) [] (λ w. ground (arith, h w, left-count w 0 tokens)) in
    let made = puts-built tokens is assembly refl f in
    let (w, ws, more) = words-cons target in
    let some_built : 0 < length is =
      omega (arith, ap length e, length-map (λ i. get_or tokens i "") is, ap length more) in
    let right : is_assembled lower tokens target (record assembly { built = is }) ≡ true =
      is_assembled-words lower target tokens (record assembly { built = is }) e in
    (is, rw made (ground (arith, some_built, right)))

pub match_solved : (n : ℕ) → IsMatched n
match_solved n =
    let below : all_below (length (upto 0 n)) (upto 0 n) ≡ true =
      upto-below (length (upto 0 n)) 0 n (omega (arith, length-upto 0 n)) in
    let (done, chosen, faultless) = run-knowing-initial (upto 0 n) below (upto-distinct 0 n).0 in
    subst
      (λ k.
        (Pairs.is_done k (Pairs.run k (knowing (upto 0 n)) Pairs.initial) ≡ true)
        × ((Pairs.run k (knowing (upto 0 n)) Pairs.initial).mistakes ≡ 0))
      (length-upto 0 n) (done, faultless)

IsFair-IsSolvable : (lower : String → String) (ex : Exercise) → IsFair ex → IsSolvable lower ex
unfolding IsFair IsSolvable
IsFair-IsSolvable lower (choose d question answer options target) ((once, twice, few), about) =
    choose_solved answer options once
IsFair-IsSolvable lower (assemble meaning target tokens) (enough, exact, few) =
    assemble_solved lower target tokens enough
IsFair-IsSolvable lower (match_pairs pairs) h = match_solved (length pairs)

-- Whatever is drawn, every exercise of a lesson can be answered without a mistake: the answer of a
-- multiple choice can be selected and checked, the words of a phrase can be clicked among its tokens so
-- that they make the phrase, up to white space and case, and the pairs of the last exercise can be
-- chosen until it is done.
pub build_exercises-IsSolvable :
    (lower : String → String) (draw : Site → ℕ → ℕ) (items : List PlayItem)
    → All (IsSolvable lower) (build_exercises draw items)
build_exercises-IsSolvable lower draw items =
    All-map IsFair (IsSolvable lower) (build_exercises draw items) (IsFair-IsSolvable lower)
      (build_exercises-IsFair draw items)
