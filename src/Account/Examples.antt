-- ===== src/Account/Examples.antt =====
-- Tests of the handlers of accounts under server/ at concrete inputs, and the theorems applied there.
use vow.Prelude.{
  ◌*◌, ◌≡◌, ◌≢◌, refl, arith, String, str_eq, true, false, none, some, List, [], ◌∷◌, ◌&&◌, pos,
  ends_with, if◌then◌else◌, ok, err,
}
use vow.Dpop.Nonce.{second}
use vow.Auth.Sessions.{Issuer, Session, create_session, has_token, has_refresh}
use vow.Account.{Repo, repo_by_did, repo_by_email, update_repo}
use vow.Account.Codes.{
  expired_token, request_password_reset, reset_password, request_email_update, confirm_email,
}
use vow.Account.Codes.History.{
  Op, ask_reset, ask_update, reset, confirm, World, serve, perform, run, password_reset,
  email_update, email_verification, outstanding, last_code, IsHistory,
}
use vow.Account.Codes.History.Due.{serve-due_after}
use vow.Account.Codes.History.Changed.{granted, columns_of, change, changed}
use vow.Account.Create.{
  Accounts, Config, Attempt, invalid_invite_code, admit, spend, signup_did, remaining,
  actor_by_handle, get_actor_by_handle, get_repo_by_email,
}
use vow.Account.Create.Enroll.{
  create_account, enroll, register, settle, ensure_did, insert, clashes, has_actor, spend_invite,
  start_session,
}
use vow.Account.Create.Created.{IsCreated, create_account-IsCreated}
use vow.Account.Create.Refused.{create_account-refused}

abbrev alice : Repo
alice = record {
  did = "did:alice";
  email = "a@x";
  email_confirmed_at = none;
  email_verification_code = some "first";
  email_verification_code_expires_at = none;
  email_update_code = none;
  email_update_code_expires_at = none;
  password_reset_code = none;
  password_reset_code_expires_at = none;
  password = "old";
}

abbrev world : World
world = record { db = alice ∷ []; history = [] }

-- The code that a new account is mailed has no time, and is refused as expired.
first_code_refused : (serve (confirm "did:alice" "a@x" "first" 5) world.db).0 ≡ err expired_token
unfolding serve confirm_email repo_by_did
first_code_refused = refl

resets :
    (serve
      (reset "did:alice" "code" "new" (some "hash") (600 * second))
      (run (ask_reset "a@x" "code" 0 true ∷ []) world).db).0
    ≡ ok true
unfolding serve run perform request_password_reset reset_password repo_by_did repo_by_email
    update_repo
resets = refl

resets_once :
    (serve
      (reset "did:alice" "code" "newer" (some "hash") (600 * second))
      (run
        (ask_reset "a@x" "code" 0 true ∷ reset "did:alice" "code" "new" (some "hash") 1 ∷ [])
        world).db).0
    ≢ ok true
unfolding serve run perform request_password_reset reset_password repo_by_did repo_by_email
    update_repo
resets_once e = ground arith

unconfirmed_needs_no_token : (serve (ask_update "did:alice" "code" 0 true) world.db).0 ≡ ok false
unfolding serve request_email_update repo_by_did
unconfirmed_needs_no_token = refl

world-IsHistory : IsHistory world
unfolding outstanding last_code repo_by_did
world-IsHistory password_reset did = ground arith
world-IsHistory email_update did = ground arith
world-IsHistory email_verification did = ground arith

-- The code that was mailed to did:alice, used within its ten minutes.
abbrev good_reset : Op
good_reset = reset "did:alice" "code" "new" (some "hash") (599 * second)

abbrev asked : List Repo
asked = (run (ask_reset "a@x" "code" 0 true ∷ []) world).db

test_password : columns_of "did:alice" (serve good_reset asked).1 ≡ some ("hash", "a@x", none)
unfolding run perform serve request_password_reset reset_password repo_by_email repo_by_did
    update_repo
test_password = refl

serve-due_after_example :
    (granted (serve good_reset asked).0 ≡ true)
    × ((did : String)
        → columns_of did (serve good_reset asked).1 ≡ (
            if str_eq did "did:alice" && true
            then change (changed good_reset) (columns_of did asked)
            else columns_of did asked))
unfolding last_code run perform serve request_password_reset repo_by_email update_repo
serve-due_after_example =
    serve-due_after (ask_reset "a@x" "code" 0 true ∷ []) good_reset world world-IsHistory

abbrev config : Config
config = record { hostname = "pds.example"; require_invite = true }

abbrev issuer : Issuer
issuer = record {
  did = "did:web:pds";
  now = 0;
  jti = "j";
  sign_internal_jwt = λ c. some (if str_eq c.scope "com.atproto.access" then "acc" else "ref");
}

-- An attempt with the invite code `inv`, under a handle of the server.
abbrev attempt : String → String → Attempt
attempt email handle = record {
  request = record {
    email = email;
    handle = handle;
    did = none;
    password = "pw";
    invite_code = "inv";
  };
  invalid = none;
  token = "";
  service_auth = λ token nsid. none;
  resolve_handle = λ h. none;
  trim_space = λ s. s;
  create_did = λ h. some "did:plc:new";
  send_operation = λ did. true;
  use_stored = true;
  hash = λ p. some "hash";
  commit = λ did. true;
  code = "first";
  issuer = issuer;
}

abbrev empty : Accounts
empty = record {
  repos = [];
  actors = [];
  invites = record { code = "inv"; did = "admin"; remaining_use_count = pos 1 } ∷ [];
  uses = [];
  tokens = record { tokens = []; refresh_tokens = [] };
  operations = [];
  identities = [];
}

abbrev bob : Attempt
bob = attempt "b@x" "bob.pds.example"

abbrev with_bob : Accounts
with_bob = (create_account config bob empty).1

abbrev session : Session
session = record { access_token = "acc"; refresh_token = "ref" }

creates : create_account config bob empty ≡ (ok ("did:plc:new", session), with_bob)
unfolding create_account admit enroll register settle ensure_did insert clashes has_actor
    spend_invite spend start_session signup_did remaining actor_by_handle get_actor_by_handle
    get_repo_by_email repo_by_did repo_by_email create_session has_token has_refresh ends_with
creates = refl

create_account-IsCreated_example : IsCreated config bob empty "did:plc:new" session with_bob
create_account-IsCreated_example =
    create_account-IsCreated config bob "did:plc:new" session empty with_bob creates

-- The only use of the code is gone.
spent :
    (create_account config (attempt "c@x" "carol.pds.example") with_bob).0 ≡ err invalid_invite_code
unfolding create_account admit enroll register settle ensure_did insert clashes has_actor
    spend_invite spend start_session signup_did remaining actor_by_handle get_actor_by_handle
    get_repo_by_email repo_by_did repo_by_email create_session has_token has_refresh ends_with
spent = refl

create_account-refused_example :
    (create_account config (attempt "c@x" "carol.pds.example") with_bob).1 ≡ with_bob
create_account-refused_example =
    create_account-refused config (attempt "c@x" "carol.pds.example") with_bob invalid_invite_code
      spent (λ e. ground arith)
