-- ===== src/MessageInput/Warned.antt =====
-- Personal data is sent only after a warning.
use jolyne.Base.{
  ◌≡◌, refl, Bool, true, false, not, ◌&&◌, ◌||◌, List, [], ◌∷◌, ◌++◌, Option, none, some, String,
  str_eq, arith, All,
}
use text.Mathlib.TextPositions.{eq_refl}
use jolyne.Base.Text.{trim}
use jolyne.MessageInput.{
  MessageInput, started, Effect, sends, types, checks, warns, Input, changes, submits, sends_anyway,
  runs_check, check_answers, check_fails, applies, closes_popover, react, react_all,
}

module _ (detect : String → Bool) where
  abbrev pub is_text : String → Option String → Bool
  is_text body none = false
  is_text body (some warned) = str_eq body warned

  -- The text of the last warning, after the effects.
  abbrev pub last_warning : Option String → List Effect → Option String
  last_warning last [] = last
  last_warning last (warns body ∷ es) = last_warning (some body) es
  last_warning last (sends body ∷ es) = last_warning none es
  last_warning last (_ ∷ es) = last_warning last es

  -- Each text with personal data that is sent is the text of the last warning, which nothing was sent
  -- after.
  abbrev pub is_warned : Option String → List Effect → Bool
  is_warned last [] = true
  is_warned last (warns body ∷ es) = is_warned (some body) es
  is_warned last (sends body ∷ es) = (not (detect body) || is_text body last) && is_warned none es
  is_warned last (_ ∷ es) = is_warned last es

  is_warned-append :
      (last : Option String) (es fs : List Effect)
      → is_warned last es ≡ true
      → is_warned (last_warning last es) fs ≡ true
      → is_warned last (es ++ fs) ≡ true
  is_warned-append last [] fs h k = k
  is_warned-append last (warns body ∷ es) fs h k = is_warned-append (some body) es fs h k
  is_warned-append last (sends body ∷ es) fs h k =
      ground (arith, h, is_warned-append none es fs (ground (arith, h)) k)
  is_warned-append last (types ∷ es) fs h k = is_warned-append last es fs h k
  is_warned-append last (checks text ∷ es) fs h k = is_warned-append last es fs h k

  -- A warning that waits for its confirmation is of the text in the field.
  abbrev pub is_current : Option String → MessageInput → Bool
  is_current last s = not s.pii_pending || is_text (trim s.draft) last

  -- No replacement of the check of grammar is applied.
  abbrev pub IsTyped : Input → Type 0
  IsTyped (applies i replacement) = ⊥
  IsTyped _ = Unit {0}

  module _ (disabled wants : Bool) where
    react-is_warned :
        (i : Input) (s : MessageInput) (last : Option String)
        → IsTyped i
        → is_current last s ≡ true
        → let (t, out) = react detect disabled wants i s in
          (is_warned last out ≡ true) × (is_current (last_warning last out) t ≡ true)
    unfolding react
    react-is_warned (changes v) s last t h = ground (arith, h)
    react-is_warned submits s last t h = ground (arith, h, eq_refl (trim s.draft))
    react-is_warned sends_anyway s last t h = ground (arith, h)
    react-is_warned runs_check s last t h = ground (arith, h)
    react-is_warned (check_answers ms) s last t h = ground (arith, h)
    react-is_warned (check_fails e) s last t h = ground (arith, h)
    react-is_warned (applies i replacement) s last t h = absurd t
    react-is_warned closes_popover s last t h = ground (arith, h)

    react_all-is_warned :
        (is : List Input) (s : MessageInput) (last : Option String)
        → All IsTyped is
        → is_current last s ≡ true
        → is_warned last (react_all detect disabled wants is s).1 ≡ true
    unfolding react_all
    react_all-is_warned [] s last ts h = refl
    react_all-is_warned (i ∷ is) s last (t, ts) h =
        let (now, current) = react-is_warned i s last t h in
        let (s', out) = react detect disabled wants i s in
        is_warned-append last out (react_all detect disabled wants is s').1 now
          (react_all-is_warned is s' (last_warning last out) ts current)

    -- Whatever is typed, sent, confirmed and checked, as long as no replacement of the check of grammar
    -- is applied, a text with personal data is sent only if it is the text of the last warning, and
    -- once for a warning.
    pub react_all-started-is_warned :
        (is : List Input)
        → All IsTyped is
        → is_warned none (react_all detect disabled wants is started).1 ≡ true
    react_all-started-is_warned is ts = react_all-is_warned is started none ts refl
