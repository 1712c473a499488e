-- ===== src/Auth/Email.antt =====
-- The test of an address in frontend/src/hooks/useAuthForm.ts,
-- `/^[^\s@]+@[^\s@]+\.[^\s@]+$/`.
use Prim.Native.Char.{Char, code}
use Prim.Native.String.{[], ◌∷◌}
use jolyne.Base.{
  ℕ, ◌≡◌, refl, sym, ap, ◌∙◌, ◌↔◌, Bool, true, false, not, ◌&&◌, ◌||◌, ◌==◌, String, arith,
  Bool-cases, inl, inr,
}
use mathlib.Core.Path.{subst}
use jolyne.Base.Text.{is_empty, is_space, append}

-- `[^\s@]`
abbrev pub is_plain : ℕ → Bool
is_plain c = not (is_space c || c == 0x40)

abbrev pub all_plain : String → Bool
all_plain [] = true
all_plain (c ∷ s) = is_plain (code c) && all_plain s

-- `[^\s@]+$`
abbrev pub matches_end : String → Bool
matches_end s = not (is_empty s) && all_plain s

-- `[^\s@]+`, the character k, and the rest of the expression, where `some_plain` tells that a character
-- was matched.
unfoldable pub matches_then : ℕ → (String → Bool) → Bool → String → Bool
matches_then k rest some_plain [] = false
matches_then k rest some_plain (c ∷ s) =
    let later = matches_then k rest true s in
    (some_plain && code c == k && rest s) || (is_plain (code c) && later)

-- `EMAIL_RE.test(s)`
unfoldable pub is_email : String → Bool
unfolding matches_then
is_email s = matches_then 0x40 (matches_then 0x2E matches_end false) false s

-- The text is plain characters, one at least where none came before, the character k, and a rest.
pub record IsSplit (k : ℕ) (rest : String → Bool) (some_plain : Bool) (s : String) : Type 0 where
  pub front : String
  pub mark : Char
  pub back : String
  pub is_front : all_plain front ≡ true
  pub is_long : (some_plain || not (is_empty front)) ≡ true
  pub is_mark : code mark ≡ k
  pub is_back : rest back ≡ true
  pub together : s ≡ append front (mark ∷ back)

module _ (k : ℕ) (rest : String → Bool) where
  matches_then-IsSplit :
      (some_plain : Bool) (s : String)
      → matches_then k rest some_plain s ≡ true
      → IsSplit k rest some_plain s
  unfolding matches_then
  matches_then-IsSplit some_plain [] h = absurd (ground (arith, h))
  matches_then-IsSplit some_plain (c ∷ s) h =
      elim (Bool-cases (some_plain && code c == k && rest s)) [
        | inl e ↦ record {
          front = "";
          mark = c;
          back = s;
          is_front = refl;
          is_long = ground (arith, e);
          is_mark = ground (arith, e);
          is_back = ground (arith, e);
          together = refl;
        }
        | inr e ↦
            (let later = matches_then-IsSplit true s (ground (arith, h, e)) in
              record {
                front = c ∷ later.front;
                mark = later.mark;
                back = later.back;
                is_front = ground (arith, h, e, later.is_front);
                is_long = ground arith;
                is_mark = later.is_mark;
                is_back = later.is_back;
                together = ap (λ u. c ∷ u) later.together;
              })
      ]

  matches_then-append :
      (some_plain : Bool) (front : String) (mark : Char) (back : String)
      → all_plain front ≡ true
      → (some_plain || not (is_empty front)) ≡ true
      → code mark ≡ k
      → rest back ≡ true
      → matches_then k rest some_plain (append front (mark ∷ back)) ≡ true
  unfolding matches_then
  matches_then-append some_plain [] mark back p l m b = ground (arith, l, m, b)
  matches_then-append some_plain (c ∷ front) mark back p l m b =
      ground (arith, p, matches_then-append true front mark back (ground (arith, p)) refl m b)

-- An address: a name, "@", and a host with a dot inside it, none of which has white space or another
-- "@".
pub record IsAddress (s : String) : Type 0 where
  pub name : String
  pub at : Char
  pub host : String
  pub dot : Char
  pub domain : String
  pub is_at : code at ≡ 0x40
  pub is_dot : code dot ≡ 0x2E
  pub is_name : matches_end name ≡ true
  pub is_host : matches_end host ≡ true
  pub is_domain : matches_end domain ≡ true
  pub together : s ≡ append name (at ∷ append host (dot ∷ domain))

-- The test of the form accepts exactly the addresses: a name, "@", a host, a dot and a domain, each of
-- one character or more, and without white space and "@".
pub is_email_iff : (s : String) → (is_email s ≡ true) ↔ IsAddress s
unfolding is_email
is_email_iff s = (
  (λ h.
      let outer = matches_then-IsSplit 0x40 (matches_then 0x2E matches_end false) false s h in
      let inner = matches_then-IsSplit 0x2E matches_end false outer.back outer.is_back in
      record {
        name = outer.front;
        at = outer.mark;
        host = inner.front;
        dot = inner.mark;
        domain = inner.back;
        is_at = outer.is_mark;
        is_dot = inner.is_mark;
        is_name = ground (arith, outer.is_front, outer.is_long);
        is_host = ground (arith, inner.is_front, inner.is_long);
        is_domain = inner.is_back;
        together = outer.together ∙ ap (λ u. append outer.front (outer.mark ∷ u)) inner.together;
      }),
  (λ a.
      subst (λ u. is_email u ≡ true) (sym a.together)
        (matches_then-append 0x40 (matches_then 0x2E matches_end false) false a.name a.at _
          (ground (arith, a.is_name)) (ground (arith, a.is_name)) a.is_at
          (matches_then-append 0x2E matches_end false a.host a.dot a.domain
            (ground (arith, a.is_host)) (ground (arith, a.is_host)) a.is_dot a.is_domain))),
)
