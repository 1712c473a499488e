-- ===== src/Learn/Shuffle.antt =====
-- `shuffle` and `sampleDistinct` of frontend/src/lib/learnExercises.ts; scriptExercises.ts has the same
-- text. Random draws are an argument: `draw i` is the number drawn at the position i, and its
-- remainder by i + 1 is `Math.floor(Math.random() * (i + 1))`.
use Prim.Native.String.{[], ◌∷◌}
use Prim.Native.Char.{Char, code}
use jolyne.Base.{
  ℕ, zero, suc, ◌-◌, ◌%◌, Bool, true, false, ◌||◌, List, [], ◌∷◌, none, some, any, length, set,
  get_elem?, String, str_eq, if◌then◌else◌,
}
use jolyne.Base.Text.{is_empty, is_space, trim}

-- `[a[i], a[j]] = [a[j], a[i]]`; both positions are in range where `shuffle` swaps.
unfoldable pub swap {ℓ} : {A : Type ℓ} → ℕ → ℕ → List A → List A
swap i j a = elim (get_elem? a i) [
  | none ↦ a
  | some tmp ↦ elim (get_elem? a j) [ none ↦ a | some aj ↦ set (set a i aj) j tmp ]
]

-- The loop from the position i down to 1.
unfoldable pub shuffle_from {ℓ} : {A : Type ℓ} → (ℕ → ℕ) → ℕ → List A → List A
unfolding swap
shuffle_from draw zero a = a
shuffle_from draw (suc i) a = shuffle_from draw i (swap (suc i) (draw (suc i) % suc (suc i)) a)

unfoldable pub shuffle {ℓ} : {A : Type ℓ} → (ℕ → ℕ) → List A → List A
unfolding shuffle_from
shuffle draw a = shuffle_from draw (length a - 1) a

-- `xs.includes(v)`, `seen.has(v)`
abbrev pub includes : String → List String → Bool
includes v xs = any (str_eq v) xs

-- The loop of `sampleDistinct`: `n` counts the values that are still missing.
unfoldable pub sample_from : List String → List String → ℕ → List String
sample_from [] seen n = []
sample_from (v ∷ vs) seen zero = []
sample_from (v ∷ vs) seen (suc n) =
    let skipped = sample_from vs seen (suc n) in
    let taken = sample_from vs (v ∷ seen) n in
    if is_empty v || includes v seen then skipped else v ∷ taken

unfoldable pub sample_distinct : (ℕ → ℕ) → List String → String → ℕ → List String
unfolding shuffle sample_from
sample_distinct draw pool exclude n = sample_from (shuffle draw pool) (exclude ∷ []) n

-- `s.split(/\s+/)`, where `inside` tells that the character before is white space.
unfoldable pub prepend : Char → List String → List String
prepend c [] = (c ∷ []) ∷ []
prepend c (w ∷ ws) = (c ∷ w) ∷ ws

unfoldable pub split_spaces : Bool → String → List String
unfolding prepend
split_spaces inside [] = "" ∷ []
split_spaces inside (c ∷ s) =
    let outside = split_spaces false s in
    let later = split_spaces true s in
    if is_space (code c) then (if inside then later else "" ∷ later) else prepend c outside

-- `t.trim().split(/\s+/)`
unfoldable pub words : String → List String
unfolding trim split_spaces is_space
words t = split_spaces false (trim t)
