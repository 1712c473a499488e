-- ===== src/Base/Assoc.antt =====
-- JavaScript objects and maps with numbers for keys, as association lists.
use jolyne.Base.Tests.{◌==◌, if◌then◌else◌}
use Prim.Native.Nat.{ℕ}
use mathlib.Core.Path.{◌≡◌, refl}
use mathlib.Core.Bool.{Bool, false, ◌||◌}
use mathlib.Core.List.{List, [], ◌∷◌}
use mathlib.Core.Option.{Option, none, some}
use native.Mathlib.Omega.{arith}

module _ {ℓ} {V : Type ℓ} where
  -- `m[k]`, `m.get(k)`
  abbrev pub lookup : ℕ → List (ℕ × V) → Option V
  lookup k [] = none
  lookup k ((j, v) ∷ m) = if k == j then some v else lookup k m

  -- `k in m`
  abbrev pub has_key : ℕ → List (ℕ × V) → Bool
  has_key k [] = false
  has_key k ((j, v) ∷ m) = k == j || has_key k m

  -- `m[k] = v`, `m.set(k, v)`: a key keeps its place.
  abbrev pub insert : ℕ → V → List (ℕ × V) → List (ℕ × V)
  insert k v [] = (k, v) ∷ []
  insert k v ((j, w) ∷ m) = let rest = insert k v m in if k == j then (k, v) ∷ m else (j, w) ∷ rest

  -- `delete m[k]`, `m.delete(k)`
  abbrev pub remove : ℕ → List (ℕ × V) → List (ℕ × V)
  remove k [] = []
  remove k ((j, w) ∷ m) = let rest = remove k m in if k == j then rest else (j, w) ∷ rest

  -- Each key stands once.
  abbrev pub IsKeyed : List (ℕ × V) → Type 0
  IsKeyed [] = Unit
  IsKeyed ((k, v) ∷ m) = has_key k m ≡ false × IsKeyed m

  pub lookup-insert :
      (j k : ℕ) (v : V) (m : List (ℕ × V))
      → lookup j (insert k v m) ≡ (if j == k then some v else lookup j m)
  lookup-insert j k v [] = refl
  lookup-insert j k v ((i, w) ∷ m) = ground (arith, lookup-insert j k v m)

  pub lookup-remove :
      (j k : ℕ) (m : List (ℕ × V)) → lookup j (remove k m) ≡ (if j == k then none else lookup j m)
  lookup-remove j k [] = ground arith
  lookup-remove j k ((i, w) ∷ m) = ground (arith, lookup-remove j k m)

  pub lookup_absent : (k : ℕ) (m : List (ℕ × V)) → has_key k m ≡ false → lookup k m ≡ none
  lookup_absent k [] h = refl
  lookup_absent k ((i, w) ∷ m) h = ground (arith, lookup_absent k m)

  has_key-insert :
      (j k : ℕ) (v : V) (m : List (ℕ × V)) → has_key j (insert k v m) ≡ (j == k || has_key j m)
  has_key-insert j k v [] = refl
  has_key-insert j k v ((i, w) ∷ m) = ground (arith, has_key-insert j k v m)

  has_key-remove :
      (j k : ℕ) (m : List (ℕ × V)) → has_key j m ≡ false → has_key j (remove k m) ≡ false
  has_key-remove j k [] h = refl
  has_key-remove j k ((i, w) ∷ m) h = ground (arith, has_key-remove j k m)

  pub insert-IsKeyed : (k : ℕ) (v : V) (m : List (ℕ × V)) → IsKeyed m → IsKeyed (insert k v m)
  insert-IsKeyed k v [] h = (refl, tt)
  insert-IsKeyed k v ((i, w) ∷ m) (a, h) =
      ground (arith, has_key-insert i k v m, insert-IsKeyed k v m h)

  pub remove-IsKeyed : (k : ℕ) (m : List (ℕ × V)) → IsKeyed m → IsKeyed (remove k m)
  remove-IsKeyed k [] h = tt
  remove-IsKeyed k ((i, w) ∷ m) (a, h) =
      ground (arith, has_key-remove i k m a, remove-IsKeyed k m h)

  pub remove_absent : (k : ℕ) (m : List (ℕ × V)) → has_key k m ≡ false → remove k m ≡ m
  remove_absent k [] h = refl
  remove_absent k ((i, w) ∷ m) h = ground (arith, remove_absent k m)
