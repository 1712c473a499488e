-- ===== src/Cards/Spaces.antt =====
-- What `norm` makes of the words of a text, joined again.
use Prim.Native.Char.{Char, code}
use Prim.Native.String.{[], ◌∷◌}
use jolyne.Base.{◌≡◌, refl, ap, ◌∙◌, Bool, true, false, inl, inr, List, String, arith, Bool-cases}
use mathlib.Core.List.{[], ◌∷◌}
use jolyne.Base.Text.{is_empty, is_space, trim, trim_start, trim_end}
use jolyne.Learn.Shuffle.{words, split_spaces, prepend}
use jolyne.Cards.{collapse, join, norm}

is_space-blank : is_space (code " ") ≡ true
unfolding is_space
is_space-blank = refl

collapse-collapse :
    (s : String)
    → (collapse false (collapse false s) ≡ collapse false s)
      × (collapse true (collapse true s) ≡ collapse true s)
      × (collapse false (collapse true s) ≡ collapse true s)
unfolding collapse
collapse-collapse [] = (refl, refl, refl)
collapse-collapse (c ∷ s) = ground (arith, is_space-blank, collapse-collapse s)

-- A text that is trimmed at its start.
trim_start-collapse :
    (s : String)
    → (trim_start (collapse false s) ≡ collapse false (trim_start s))
      × (trim_start (collapse true s) ≡ collapse false (trim_start s))
unfolding collapse trim_start
trim_start-collapse [] = (refl, refl)
trim_start-collapse (c ∷ s) = ground (arith, is_space-blank, trim_start-collapse s)

is_empty-collapse : (s : String) → is_empty (collapse true (trim_end s)) ≡ is_empty (trim_end s)
unfolding collapse trim_end
is_empty-collapse [] = refl
is_empty-collapse (c ∷ s) = ground (arith, is_space-blank, is_empty-collapse s)

eq_of_is_empty : (s : String) → is_empty s ≡ true → s ≡ ""
eq_of_is_empty [] h = refl
eq_of_is_empty (c ∷ s) h = cc

trim_end-collapse :
    (s : String)
    → (trim_end (collapse false s) ≡ collapse false (trim_end s))
      × (trim_end (collapse true s) ≡ collapse true (trim_end s))
unfolding collapse trim_end
trim_end-collapse [] = (refl, refl)
trim_end-collapse (c ∷ s) = elim (Bool-cases (is_space (code c))) [
  | inl space ↦
      (let (outside, inside) = trim_end-collapse s in
        let empty = is_empty-collapse s in
        elim (Bool-cases (is_empty (trim_end s))) [
          | inl e ↦ rw space (
              rw (is_space-blank, inside, empty, e)
                (refl, ap (collapse true) (eq_of_is_empty (trim_end s) e)))
          | inr e ↦ rw space (rw (is_space-blank, inside, empty, e) (rw space (refl, refl)))
        ])
  | inr letter ↦ ground (arith, letter, trim_end-collapse s)
]

trim_end-trim_end : (s : String) → trim_end (trim_end s) ≡ trim_end s
unfolding trim_end
trim_end-trim_end [] = refl
trim_end-trim_end (c ∷ s) = ground (arith, is_space-blank, trim_end-trim_end s)

trim_start-trim_start : (s : String) → trim_start (trim_start s) ≡ trim_start s
unfolding trim_start
trim_start-trim_start [] = refl
trim_start-trim_start (c ∷ s) = ground (arith, is_space-blank, trim_start-trim_start s)

trim_start-trim_end : (s : String) → trim_start (trim_end s) ≡ trim_end (trim_start s)
unfolding trim_start trim_end
trim_start-trim_end [] = refl
trim_start-trim_end (c ∷ s) = ground (arith, is_space-blank, trim_start-trim_end s)

-- `norm` before the letters are made small.
abbrev pub squeeze : String → String
squeeze s = collapse false (trim s)

squeeze-squeeze : (s : String) → squeeze (squeeze s) ≡ squeeze s
unfolding trim
squeeze-squeeze s =
    let t = trim s in
    let start : trim_start t ≡ t =
      trim_start-trim_end (trim_start s) ∙ ap trim_end (trim_start-trim_start s) in
    let end : trim_end t ≡ t = trim_end-trim_end (trim_start s) in
    let same : trim (collapse false t) ≡ collapse false t =
      ap trim_end ((trim_start-collapse t).0 ∙ ap (collapse false) start)
      ∙ ((trim_end-collapse t).0 ∙ ap (collapse false) end) in
    ap (collapse false) same ∙ (collapse-collapse t).0

join_empty : join ("" ∷ []) ≡ ""
unfolding join
join_empty = refl

join-prepend : (c : Char) (ws : List String) → join (prepend c ws) ≡ c ∷ join ws
unfolding join prepend
join-prepend c [] = refl
join-prepend c (w ∷ []) = refl
join-prepend c (w ∷ v ∷ ws) = refl

-- Splitting gives a word at least.
pub split_spaces-cons :
    (b : Bool) (s : String) → (w : String) × (ws : List String) × (split_spaces b s ≡ w ∷ ws)
unfolding split_spaces prepend
split_spaces-cons b [] = ("", [], refl)
split_spaces-cons b (c ∷ s) = elim (Bool-cases (is_space (code c))) [
  | inl space ↦ elim (Bool-cases b) [
    | inl e ↦ rw (space, e) (split_spaces-cons true s)
    | inr e ↦ rw (space, e) ("", split_spaces true s, refl)
  ]
  | inr letter ↦ (let (w, ws, e) = split_spaces-cons false s in rw letter (rw e (c ∷ w, ws, refl)))
]

join-blank : (s : String) → join ("" ∷ split_spaces true s) ≡ " " ∷ join (split_spaces true s)
unfolding join
join-blank s = let (w, ws, e) = split_spaces-cons true s in rw e refl

join-split_spaces :
    (s : String)
    → (join (split_spaces false s) ≡ collapse false s)
      × (join (split_spaces true s) ≡ collapse true s)
unfolding split_spaces collapse
join-split_spaces [] = (join_empty, join_empty)
join-split_spaces (c ∷ s) = elim (Bool-cases (is_space (code c))) [
  | inl space ↦
      (let (other, ih) = join-split_spaces s in rw space (join-blank s ∙ ap (λ t. " " ∷ t) ih, ih))
  | inr letter ↦
      (let (ih, other) = join-split_spaces s in
        let one = join-prepend c (split_spaces false s) ∙ ap (λ t. c ∷ t) ih in
        rw letter (one, one))
]

-- The words of a text, joined again, have the same norm as the text.
pub norm-join : (lower : String → String) (s : String) → norm lower (join (words s)) ≡ norm lower s
unfolding norm words
norm-join lower s = ap lower (ap squeeze (join-split_spaces (trim s)).0 ∙ squeeze-squeeze s)

pub words-cons : (s : String) → (w : String) × (ws : List String) × (words s ≡ w ∷ ws)
unfolding words
words-cons s = split_spaces-cons false (trim s)
