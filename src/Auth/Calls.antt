-- ===== src/Auth/Calls.antt =====
-- What the form sends to the server.
use jolyne.Base.{
  ℕ, ◌≡◌, sym, ap, Bool, true, not, ◌||◌, List, [], ◌∷◌, none, some, leb, str_eq, eq_iff,
  if◌then◌else◌, arith, All, Option-cases, if_cases, inl, inr,
}
use mathlib.Core.Path.{subst}
use jolyne.Base.Text.{trim}
use jolyne.Auth.Password.{utf16_length, password_valid}
use jolyne.Auth.Email.{is_email}
use jolyne.Auth.Form.{
  is_login, AuthForm, AuthText, Effect, calls, logs_in, signs_up, forgets, Input, submits,
  forgot_submits, sets_email, sets_display_name, sets_password, sets_password_confirm,
  sets_show_pwd, sets_sent, resets, switches_mode, accepted, refused, forgot_answers, starts_oauth,
  refusal, react,
}

module _ (User : Type 0) (is_upper is_lower is_digit : ℕ → Bool) where
  -- What a call sends is what the form holds, and passes its checks.
  abbrev pub IsValidIn : AuthForm User → Effect User → Type 0
  IsValidIn s (calls (logs_in email password)) =
      (is_email email ≡ true)
      × (email ≡ trim s.email)
      × (password ≡ s.password)
      × (leb 8 (utf16_length password) ≡ true)
  IsValidIn s (calls (signs_up email password display_name)) =
      (is_email email ≡ true)
      × (email ≡ trim s.email)
      × (password ≡ s.password)
      × (password ≡ s.password_confirm)
      × (password_valid is_upper is_lower is_digit password ≡ true)
  IsValidIn s (calls (forgets email)) = (is_email email ≡ true) × (email ≡ trim s.email)
  IsValidIn s _ = Unit {0}

  -- Where nothing is refused, the checks hold.
  refusal-none :
      (s : AuthForm User)
      → refusal User is_upper is_lower is_digit s ≡ none
      → (is_email (trim s.email) ≡ true)
        × ((not (is_login s.mode) || leb 8 (utf16_length s.password)) ≡ true)
        × ((is_login s.mode || password_valid is_upper is_lower is_digit s.password) ≡ true)
        × ((is_login s.mode || str_eq s.password s.password_confirm) ≡ true)
  unfolding refusal
  refusal-none s h = ground (arith, h)

  -- The form after its call, and the call.
  abbrev sent : AuthForm User → AuthForm User × List (Effect User)
  sent s = (
    record s { err = none; busy = true },
    (if is_login s.mode
          then calls (logs_in (trim s.email) s.password)
          else calls (signs_up (trim s.email) s.password (trim s.display_name)))
        ∷ [],
  )

  submits_refused :
      (s : AuthForm User) (text : AuthText)
      → refusal User is_upper is_lower is_digit s ≡ some text
      → react User is_upper is_lower is_digit submits s ≡ (record s { err = some text }, [])
  unfolding react
  submits_refused s text e =
      ap (λ o. elim o [ some text ↦ (record s { err = some text }, []) | none ↦ sent s ]) e

  submits_sent :
      (s : AuthForm User)
      → refusal User is_upper is_lower is_digit s ≡ none
      → react User is_upper is_lower is_digit submits s ≡ sent s
  unfolding react
  submits_sent s e =
      ap (λ o. elim o [ some text ↦ (record s { err = some text }, []) | none ↦ sent s ]) e

  submits-IsValidIn :
      (s : AuthForm User) → All (IsValidIn s) (react User is_upper is_lower is_digit submits s).1
  submits-IsValidIn s = elim (Option-cases (refusal User is_upper is_lower is_digit s)) [
    | inl e ↦
        subst (λ r. All (IsValidIn s) r.1) (sym (submits_sent s e))
          (if_cases (λ eff. All (IsValidIn s) (eff ∷ [])) (is_login s.mode)
            (calls (logs_in (trim s.email) s.password))
            (calls (signs_up (trim s.email) s.password (trim s.display_name)))
            (λ l. (ground (arith, l, refusal-none s e), tt))
            (λ l. (ground (arith, l, refusal-none s e, eq_iff s.password s.password_confirm), tt)))
    | inr (text, e) ↦ subst (λ r. All (IsValidIn s) r.1) (sym (submits_refused s text e)) tt
  ]

  -- Whatever is in the form and whatever is pressed or answered, a call is sent only for an address
  -- that passes the test of addresses, and with what the form holds: a login with a password of eight
  -- UTF-16 units or more, and a sign-up with a password that meets every criterion and was confirmed.
  pub react-IsValidIn :
      (i : Input User) (s : AuthForm User)
      → All (IsValidIn s) (react User is_upper is_lower is_digit i s).1
  unfolding react
  react-IsValidIn (sets_email v) s = tt
  react-IsValidIn (sets_display_name v) s = tt
  react-IsValidIn (sets_password v) s = tt
  react-IsValidIn (sets_password_confirm v) s = tt
  react-IsValidIn (sets_show_pwd v) s = tt
  react-IsValidIn (sets_sent v) s = tt
  react-IsValidIn (resets initial_mode) s = tt
  react-IsValidIn (switches_mode next) s = ground arith
  react-IsValidIn submits s = submits-IsValidIn s
  react-IsValidIn forgot_submits s = ground arith
  react-IsValidIn (accepted user) s = (tt, (tt, tt))
  react-IsValidIn (refused mode e) s = tt
  react-IsValidIn (forgot_answers is_ok) s = tt
  react-IsValidIn (starts_oauth provider) s = (tt, tt)
