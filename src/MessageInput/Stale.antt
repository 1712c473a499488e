-- ===== src/MessageInput/Stale.antt =====
-- What the check of grammar does to a text that changed meanwhile.
use jolyne.Base.{ℕ, ◌+◌, ◌≡◌, Bool, true, false, List, [], ◌∷◌, some, String, get_elem?, arith}
use jolyne.Base.Text.{is_empty, trim, append}
use jolyne.MessageInput.{
  GrammarMatch, MessageInput, sends, changes, submits, runs_check, check_answers, applies, slice_to,
  slice_from, react_all,
}

-- The text with the part of the match replaced.
abbrev pub replaced : GrammarMatch → String → String → String
replaced m replacement text =
    append (slice_to m.offset text) (append replacement (slice_from (m.offset + m.length) text))

module _ (detect : String → Bool) where
  -- Where the user goes on writing while the text is checked, and then applies a replacement, what was
  -- written meanwhile is lost: the field holds the text that was checked, with the replacement.
  pub react_all-overwritten :
      (s : MessageInput) (later replacement : String) (m : GrammarMatch) (ms : List GrammarMatch)
      (i : ℕ)
      → s.checking ≡ false
      → is_empty (trim s.draft) ≡ false
      → get_elem? ms i ≡ some m
      → (react_all detect false true
          (runs_check ∷ changes later ∷ check_answers ms ∷ applies i replacement ∷ [])
          s).0.draft
        ≡ replaced m replacement (trim s.draft)
  unfolding react_all
  react_all-overwritten s later replacement m ms i c d e = ground (arith, c, d, e)

  -- Where a warning waits for its confirmation and a replacement is applied, the next submit sends the
  -- new text without a warning, whether it has personal data or not, unless it is empty.
  pub react_all-unwarned :
      (s : MessageInput) (replacement : String) (m : GrammarMatch) (ms : List GrammarMatch) (i : ℕ)
      → s.pii_pending ≡ true
      → s.matches ≡ some ms
      → get_elem? ms i ≡ some m
      → is_empty (trim (replaced m replacement s.checked_against)) ≡ false
      → (react_all detect false true (applies i replacement ∷ submits ∷ []) s).1
        ≡ sends (trim (replaced m replacement s.checked_against)) ∷ []
  unfolding react_all
  react_all-unwarned s replacement m ms i p h e n = ground (arith, p, h, e, n)
