-- ===== src/Auth/Form.antt =====
-- frontend/src/hooks/useAuthForm.ts: the state of the form, and what is submitted. A call to the server
-- is an effect and its answer an input; a call keeps the mode of the form that it was made in. The
-- user that an answer holds is a parameter.
use jolyne.Base.{
  ℕ, Bool, true, false, not, ◌&&◌, List, [], ◌∷◌, ◌++◌, Option, none, some, ltb, ◌==◌, String,
  str_eq, if◌then◌else◌,
}
use jolyne.Base.Text.{trim}
use jolyne.Auth.Password.{utf16_length, password_valid}
use jolyne.Auth.Email.{is_email}

pub data EmailMode : Type 0 where
  login signup : EmailMode

abbrev pub is_login : EmailMode → Bool
is_login login = true
is_login signup = false

abbrev pub password_min : ℕ
password_min = 8

-- The texts of `t.auth`.
pub data AuthText : Type 0 where
  invalid_email password_too_short password_criteria password_mismatch : AuthText
  invalid_credentials email_already_used oauth_error : AuthText

-- The calls of the server.
pub data Call : Type 0 where
  logs_in : (email password : String) → Call
  signs_up : (email password display_name : String) → Call
  forgets : (email : String) → Call

-- A call fails with an `AuthError` of a status, or otherwise.
pub data Failure : Type 0 where
  auth_error : (status : ℕ) → Failure
  other_error : Failure

module _ (User : Type 0) where
  pub data Effect : Type 0 where
    calls : Call → Effect
    sets_user : User → Effect
    succeeds : Effect
    tracks_signup : Effect
    redirects : (provider : String) → Effect

  pub record AuthForm : Type 0 where
    pub mode : EmailMode
    pub email : String
    pub display_name : String
    pub password : String
    pub password_confirm : String
    pub show_pwd : Bool
    pub busy : Bool
    pub err : Option AuthText
    pub sent : Bool

  abbrev pub started : EmailMode → AuthForm
  started initial_mode = record {
    mode = initial_mode;
    email = "";
    display_name = "";
    password = "";
    password_confirm = "";
    show_pwd = false;
    busy = false;
    err = none;
    sent = false;
  }

  unfoldable pub reset : EmailMode → AuthForm → AuthForm
  reset initial_mode s = record s {
    mode = initial_mode;
    email = "";
    display_name = "";
    password = "";
    password_confirm = "";
    show_pwd = false;
    busy = false;
    err = none;
    sent = false;
  }

  unfoldable pub switch_mode : EmailMode → AuthForm → AuthForm × List Effect
  switch_mode next s = (
    record s { mode = next; err = none; password = ""; password_confirm = ""; show_pwd = false },
    if not (is_login next) && is_login s.mode then tracks_signup ∷ [] else [],
  )

  module _ (is_upper is_lower is_digit : ℕ → Bool) where
    -- The checks of `submitCredentials`; none where they pass.
    unfoldable pub refusal : AuthForm → Option AuthText
    unfolding is_email trim utf16_length password_valid
    refusal s =
        if not (is_email (trim s.email))
        then some invalid_email
        else if is_login s.mode && ltb (utf16_length s.password) password_min
        then some password_too_short
        else if not (is_login s.mode) && not (password_valid is_upper is_lower is_digit s.password)
        then some password_criteria
        else if not (is_login s.mode) && not (str_eq s.password s.password_confirm)
        then some password_mismatch
        else none

    -- `submitCredentials`, up to its await.
    unfoldable pub submit_credentials : AuthForm → AuthForm × List Effect
    unfolding refusal trim
    submit_credentials s = elim (refusal s) [
      | some text ↦ (record s { err = some text }, [])
      | none ↦ (
        record s { err = none; busy = true },
        (if is_login s.mode
              then calls (logs_in (trim s.email) s.password)
              else calls (signs_up (trim s.email) s.password (trim s.display_name)))
            ∷ [],
      )
    ]

  -- `submitCredentials` from its await on, in the mode that it was called in.
  unfoldable pub failure_text : EmailMode → Failure → AuthText
  failure_text mode other_error = oauth_error
  failure_text mode (auth_error status) =
      if is_login mode && status == 401
      then invalid_credentials
      else if status == 409
      then email_already_used
      else oauth_error

  unfoldable pub credentials_accepted : User → AuthForm → AuthForm × List Effect
  credentials_accepted user s = (record s { busy = false }, sets_user user ∷ succeeds ∷ [])

  unfoldable pub credentials_refused : EmailMode → Failure → AuthForm → AuthForm × List Effect
  unfolding failure_text
  credentials_refused mode e s = (record s { err = some (failure_text mode e); busy = false }, [])

  -- `submitForgot`, up to its await, and from there on.
  unfoldable pub submit_forgot : AuthForm → AuthForm × List Effect
  unfolding is_email trim
  submit_forgot s =
      if not (is_email (trim s.email))
      then (record s { err = some invalid_email }, [])
      else (record s { err = none; busy = true }, calls (forgets (trim s.email)) ∷ [])

  unfoldable pub forgot_answered : (is_ok : Bool) → AuthForm → AuthForm
  forgot_answered is_ok s =
      if is_ok
      then record s { sent = true; busy = false }
      else record s { err = some oauth_error; busy = false }

  unfoldable pub start_oauth_flow : String → AuthForm → AuthForm × List Effect
  start_oauth_flow provider s = (record s { busy = true }, redirects provider ∷ [])

  pub data Input : Type 0 where
    sets_email sets_display_name sets_password sets_password_confirm : String → Input
    sets_show_pwd sets_sent : Bool → Input
    resets : EmailMode → Input
    switches_mode : EmailMode → Input
    submits forgot_submits : Input
    accepted : User → Input
    refused : EmailMode → Failure → Input
    forgot_answers : Bool → Input
    starts_oauth : String → Input

  module _ (is_upper is_lower is_digit : ℕ → Bool) where
    unfoldable pub react : Input → AuthForm → AuthForm × List Effect
    unfolding reset switch_mode submit_credentials submit_forgot credentials_accepted
        credentials_refused forgot_answered start_oauth_flow
    react (sets_email v) s = (record s { email = v }, [])
    react (sets_display_name v) s = (record s { display_name = v }, [])
    react (sets_password v) s = (record s { password = v }, [])
    react (sets_password_confirm v) s = (record s { password_confirm = v }, [])
    react (sets_show_pwd v) s = (record s { show_pwd = v }, [])
    react (sets_sent v) s = (record s { sent = v }, [])
    react (resets initial_mode) s = (reset initial_mode s, [])
    react (switches_mode next) s = switch_mode next s
    react submits s = submit_credentials is_upper is_lower is_digit s
    react forgot_submits s = submit_forgot s
    react (accepted user) s = credentials_accepted user s
    react (refused mode e) s = credentials_refused mode e s
    react (forgot_answers is_ok) s = (forgot_answered is_ok s, [])
    react (starts_oauth provider) s = start_oauth_flow provider s

    unfoldable pub react_all : List Input → AuthForm → AuthForm × List Effect
    unfolding react
    react_all [] s = (s, [])
    react_all (i ∷ is) s =
        let (s', out) = react i s in let (t, rest) = react_all is s' in (t, out ++ rest)
