-- ===== src/Pii/Phone.antt =====
-- frontend/src/lib/pii.ts with frontend/src/components/chat/MessageInput.tsx: telephone numbers in a
-- message that is about to be sent.
use jolyne.Base.{
  ℕ, zero, suc, ◌≡◌, sym, refl, Bool, true, false, List, [], ◌∷◌, ◌++◌, Option, none, some, is_some,
  String, arith,
}
use Prim.Native.String.{[], ◌∷◌}
use mathlib.Core.Path.{subst}
use jolyne.Base.Text.{trim, is_empty}
use jolyne.Profanity.{codes}
use jolyne.MessageInput.{MessageInput, warns, submit}
use jolyne.Pii.{Item, one, opt, is_word, is_digit, is_separator, groups, phone_re, test, detect_pii}
use jolyne.Pii.Search.{Matches, takes, leaves, has, all, Occurs, here, later, test_iff}

-- A digit, with a separator before it or without.
pub record Group : Type 0 where
  pub separator : Option ℕ
  pub digit : ℕ

abbrev pub IsGroup : Group → Type 0
IsGroup g =
    elim g.separator [ none ↦ Unit {0} | some c ↦ is_separator c ≡ true ]
    × (is_digit g.digit ≡ true)

abbrev pub write : Group → List ℕ
write g = elim g.separator [ none ↦ g.digit ∷ [] | some c ↦ c ∷ g.digit ∷ [] ]

-- The number, before the rest of the text.
abbrev pub written : List Group → List ℕ → List ℕ
written [] rest = rest
written (g ∷ gs) rest = write g ++ written gs rest

abbrev pub AreGroups : ℕ → List Group → Type 0
AreGroups zero [] = Unit
AreGroups zero (g ∷ gs) = ⊥
AreGroups (suc n) [] = ⊥
AreGroups (suc n) (g ∷ gs) = IsGroup g × AreGroups n gs

group-Matches :
    (separator : Option ℕ) (digit : ℕ) (p : List Item) (w : Bool) (rest : List ℕ)
    → IsGroup (record { separator = separator; digit = digit })
    → Matches p (is_word digit) rest
    → Matches
        (opt is_separator ∷ one is_digit ∷ p)
        w
        (write (record { separator = separator; digit = digit }) ++ rest)
group-Matches none digit p w rest (s, d) m = leaves (takes d m)
group-Matches (some c) digit p w rest (s, d) m = has s (takes d m)

groups-Matches :
    (n : ℕ) (gs : List Group) (w : Bool) (rest : List ℕ)
    → AreGroups n gs
    → Matches (groups n) w (written gs rest)
groups-Matches zero [] w rest a = all
groups-Matches zero (g ∷ gs) w rest a = elim a [ ]
groups-Matches (suc n) [] w rest a = elim a [ ]
groups-Matches (suc n) (g ∷ gs) w rest (i, a) =
    group-Matches g.separator g.digit (groups n) w (written gs rest) i
      (groups-Matches n gs (is_word g.digit) rest a)

phone-Occurs :
    (before : List ℕ) (w : Bool) (d : ℕ) (gs : List Group) (rest : List ℕ)
    → is_digit d ≡ true
    → AreGroups 8 gs
    → Occurs phone_re w (before ++ (d ∷ written gs rest))
phone-Occurs [] w d gs rest e a = here (leaves (takes e (groups-Matches 8 gs (is_word d) rest a)))
phone-Occurs (c ∷ before) w d gs rest e a = later (phone-Occurs before (is_word c) d gs rest e a)

detect_pii-test :
    (text : String) → test phone_re (codes text) ≡ true → is_some (detect_pii text) ≡ true
unfolding detect_pii
detect_pii-test text h = ground (arith, h)

is_empty-codes :
    (text : String) (before : List ℕ) (c : ℕ) (rest : List ℕ)
    → codes text ≡ before ++ (c ∷ rest)
    → is_empty text ≡ false
is_empty-codes [] [] c rest e = cc
is_empty-codes [] (b ∷ before) c rest e = cc
is_empty-codes (x ∷ text) before c rest e = refl

submit-warns :
    (detect : String → Bool) (wants : Bool) (s : MessageInput)
    → is_empty (trim s.draft) ≡ false
    → s.pii_pending ≡ false
    → detect (trim s.draft) ≡ true
    → submit detect false wants s ≡ (record s { pii_pending = true }, warns (trim s.draft) ∷ [])
unfolding submit
submit-warns detect wants s e p d = ground (arith, e, p, d)

-- A message that holds a digit and eight more, each with a separator before it or without, wherever the
-- number stands and whatever surrounds it, is not sent at the first try: the user is asked.
pub submit_phone :
    (s : MessageInput) (wants : Bool) (before : List ℕ) (d : ℕ) (gs : List Group) (rest : List ℕ)
    → s.pii_pending ≡ false
    → codes (trim s.draft) ≡ before ++ (d ∷ written gs rest)
    → is_digit d ≡ true
    → AreGroups 8 gs
    → submit (λ body. is_some (detect_pii body)) false wants s
      ≡ (record s { pii_pending = true }, warns (trim s.draft) ∷ [])
submit_phone s wants before d gs rest p c e a =
    submit-warns (λ body. is_some (detect_pii body)) wants s
      (is_empty-codes (trim s.draft) before d _ c) p
      (detect_pii-test (trim s.draft) (
        (test_iff phone_re (codes (trim s.draft))).1
          (subst (Occurs phone_re false) (sym c) (phone-Occurs before false d gs rest e a))))
