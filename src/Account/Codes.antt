-- ===== src/Account/Codes.antt =====
-- server/handle_server_request_password_reset.go, handle_server_reset_password.go,
-- handle_server_request_email_update.go, handle_server_update_email.go,
-- handle_server_request_email_confirmation.go and handle_server_confirm_email.go. Each handler is
-- given the account's row as the middleware read it, `code` is the random code, `sent` tells
-- whether the mail went out, and `hashed` is what bcrypt answers.
pub mod History
use vow.Prelude.{
  ℕ, ◌+◌, ◌*◌, String, str_eq, Bool, true, false, not, ◌&&◌, ◌||◌, Option, none, some, List, [],
  ◌∷◌, ltb, if◌then◌else◌,
}
use vow.Prelude.Action.{Action, pure, fail, need, gets, modify, stop_if, ◌>>=◌, ◌>>◌}
use vow.Dpop.Nonce.{second}
use vow.Account.{Repo, repo_by_did, repo_by_email, update_repo}

pub data AccountError : Type 0 where
  input_error invalid_token expired_token server_error : AccountError
  unknown_account not_sent : AccountError

abbrev pub Handler : Type 0
Handler = Action (List Repo) AccountError Unit

abbrev pub ten_minutes : ℕ
ten_minutes = 10 * 60 * second

abbrev pub is_confirmed : Repo → Bool
is_confirmed urepo = elim urepo.email_confirmed_at [ none ↦ false | some at ↦ true ]

-- handleServerRequestPasswordReset: the account of the session, or that of the address in the body.
abbrev pub reset_target : Option Repo → Option String → Action (List Repo) AccountError Repo
reset_target (some repo) email = pure repo
reset_target none email = do
  e ← need email server_error
  _ ← stop_if (str_eq e "") input_error
  found ← gets (repo_by_email e)
  need found unknown_account

abbrev pub set_reset_code : String → ℕ → Repo → Repo
set_reset_code code eat r = record r {
  password_reset_code = some code;
  password_reset_code_expires_at = some eat;
}

unfoldable pub request_password_reset : Option Repo → Option String → String → ℕ → Bool → Handler
unfolding update_repo
request_password_reset repo email code now sent = do
  urepo ← reset_target repo email
  _ ← modify (update_repo urepo.did (set_reset_code code (now + ten_minutes)))
  stop_if (not sent) not_sent

abbrev pub set_password : String → Repo → Repo
set_password hash r = record r {
  password_reset_code = none;
  password_reset_code_expires_at = none;
  password = hash;
}

-- The code of the row with its time, where both columns are set.
abbrev pub stored : Option String → Option ℕ → Option (String × ℕ)
stored (some code) (some at) = some (code, at)
stored _ _ = none

unfoldable pub reset_password : Repo → String → String → Option String → ℕ → Handler
unfolding update_repo
reset_password urepo token password hashed now = do
  _ ← stop_if (str_eq token "" || str_eq password "") input_error
  issued ← need (stored urepo.password_reset_code urepo.password_reset_code_expires_at) input_error
  _ ← stop_if (not (str_eq issued.0 token)) invalid_token
  _ ← stop_if (ltb issued.1 now) expired_token
  hash ← need hashed server_error
  modify (update_repo urepo.did (set_password hash))

abbrev pub set_update_code : String → ℕ → Repo → Repo
set_update_code code eat r = record r {
  email_update_code = some code;
  email_update_code_expires_at = some eat;
}

-- The answer is whether the client must send a token.
unfoldable pub request_email_update :
    Repo → String → ℕ → Bool → Action (List Repo) AccountError Bool
unfolding update_repo
request_email_update urepo code now sent =
    if is_confirmed urepo
    then (do
      _ ← modify (update_repo urepo.did (set_update_code code (now + ten_minutes)))
      _ ← stop_if (not sent) not_sent
      pure true)
    else pure false

-- Another address is not confirmed.
abbrev pub set_email : String → Bool → Repo → Repo
set_email email changed r = record r {
  email_update_code = none;
  email_update_code_expires_at = none;
  email = email;
  email_confirmed_at = if changed then none else r.email_confirmed_at;
}

abbrev pub check_update_token : Repo → String → ℕ → Handler
check_update_token urepo token now = do
  issued ← need (stored urepo.email_update_code urepo.email_update_code_expires_at) invalid_token
  _ ← stop_if (not (str_eq issued.0 token)) invalid_token
  stop_if (ltb issued.1 now) expired_token

-- The index of the addresses is unique: an UPDATE to the address of another account fails.
unfoldable pub email_of_other : String → String → List Repo → Bool
email_of_other email did [] = false
email_of_other email did (r ∷ rs) =
    (str_eq r.email email && not (str_eq r.did did)) || email_of_other email did rs

unfoldable pub update_email : Repo → String → String → ℕ → Handler
unfolding update_repo email_of_other
update_email urepo email token now = do
  _ ← stop_if (str_eq email "") input_error
  _ ← (if str_eq token "" then pure tt else check_update_token urepo token now)
  clash ← gets (email_of_other email urepo.did)
  _ ← stop_if clash server_error
  modify (update_repo urepo.did (set_email email (not (str_eq urepo.email email))))

abbrev pub set_verification_code : String → ℕ → Repo → Repo
set_verification_code code eat r = record r {
  email_verification_code = some code;
  email_verification_code_expires_at = some eat;
}

unfoldable pub request_email_confirmation : Repo → String → ℕ → Bool → Handler
unfolding update_repo
request_email_confirmation urepo code now sent = do
  _ ← stop_if (is_confirmed urepo) input_error
  _ ← modify (update_repo urepo.did (set_verification_code code (now + ten_minutes)))
  stop_if (not sent) not_sent

abbrev pub set_confirmed : ℕ → Repo → Repo
set_confirmed now r = record r {
  email_verification_code = none;
  email_verification_code_expires_at = none;
  email_confirmed_at = some now;
}

unfoldable pub confirm_email : Repo → String → String → ℕ → Handler
unfolding update_repo
confirm_email urepo email token now = do
  _ ← stop_if (str_eq email "" || str_eq token "") input_error
  issued ←
      need (stored urepo.email_verification_code urepo.email_verification_code_expires_at)
        expired_token
  _ ← stop_if (not (str_eq issued.0 token)) input_error
  _ ← stop_if (ltb issued.1 now) expired_token
  modify (update_repo urepo.did (set_confirmed now))
