-- ===== src/Account/Create.antt =====
-- server/handle_server_create_account.go and the invite codes of
-- server/handle_server_create_invite_code.go and handle_server_create_invite_codes.go. The
-- validator, bcrypt, the PLC directory, the resolution of handles and the genesis commit are
-- behind the fields of `Attempt`, with the random values of a request. One attempt is followed from
-- its first statement to its last, with no other attempt between them.
pub mod Enroll
pub mod Steps
pub mod Created
pub mod Refused
use vow.Prelude.{
  ℕ, zero, suc, String, str_eq, str_append, Bool, true, false, not, ◌&&◌, ◌||◌, Option, none, some,
  List, [], ◌∷◌, ends_with, ℤ, pos, negsuc, ltb_ℤ, if◌then◌else◌, Result, ok, err,
}
use vow.Prelude.Action.{Action, pure, lift, need, gets, modify, stop_if, ◌>>=◌, ◌>>◌}
use vow.Auth.{Tokens}
use vow.Auth.Sessions.{Issuer, Session, create_session}
use vow.Account.{Repo, Actor, repo_by_did, repo_by_email}

pub record InviteCode : Type 0 where
  pub code : String
  pub did : String
  pub remaining_use_count : ℤ

pub record InviteCodeUse : Type 0 where
  pub code : String
  pub used_by : String

pub record Accounts : Type 0 where
  pub repos : List Repo
  pub actors : List Actor
  pub invites : List InviteCode
  pub uses : List InviteCodeUse
  pub tokens : Tokens
  -- The PLC operations that were sent, and the identity events, with the account's DID and handle.
  pub operations : List (String × String)
  pub identities : List (String × String)

pub record CreateRequest : Type 0 where
  pub email : String
  pub handle : String
  pub did : Option String
  pub password : String
  pub invite_code : String

pub data CreateError : Type 0 where
  invalid_email invalid_handle invalid_password invalid_invite_code input_error : CreateError
  unauthenticated invalid_authorization forbidden : CreateError
  handle_not_available email_not_available unsupported_domain server_error : CreateError

pub record Config : Type 0 where
  pub hostname : String
  pub require_invite : Bool

pub record Attempt : Type 0 where
  -- The request with its handle in lower case, and what the validator says of it.
  pub request : CreateRequest
  pub invalid : Option CreateError
  -- The Authorization header without its `Bearer `, trimmed, and what validateServiceAuth makes of it.
  pub token : String
  pub service_auth : String → String → Option String
  pub resolve_handle : String → Option String
  pub trim_space : String → String
  pub create_did : String → Option String
  pub send_operation : String → Bool
  pub hash : String → Option String
  pub commit : String → Bool
  pub code : String
  -- whether the INSERT of the invite code's use goes through
  pub use_stored : Bool
  pub issuer : Issuer

abbrev pub Creating : Type 0 → Type 0
Creating A = Action Accounts CreateError A

unfoldable pub actor_by_handle : String → List Actor → Option Actor
actor_by_handle handle [] = none
actor_by_handle handle (a ∷ as_) =
    if str_eq a.handle handle then some a else actor_by_handle handle as_

-- A row without a DID counts as none.
abbrev pub with_did : {A : Type 0} → (A → String) → Option A → Option A
with_did did_of none = none
with_did did_of (some a) = if str_eq (did_of a) "" then none else some a

unfoldable pub get_actor_by_handle : String → List Actor → Option Actor
unfolding actor_by_handle
get_actor_by_handle handle actors = with_did (λ a. a.did) (actor_by_handle handle actors)

unfoldable pub get_repo_by_email : String → List Repo → Option Repo
unfolding repo_by_email
get_repo_by_email email repos = with_did (λ r. r.did) (repo_by_email email repos)

-- The zero row where there is none.
unfoldable pub remaining : String → List InviteCode → ℤ
remaining code [] = pos 0
remaining code (i ∷ is) = if str_eq i.code code then i.remaining_use_count else remaining code is

abbrev pub minus_one : ℤ → ℤ
minus_one (pos zero) = negsuc 0
minus_one (pos (suc n)) = pos n
minus_one (negsuc n) = negsuc (suc n)

-- UPDATE invite_codes SET remaining_use_count = remaining_use_count - 1 WHERE code = ?
unfoldable pub spend : String → List InviteCode → List InviteCode
spend code [] = []
spend code (i ∷ is) =
    (if str_eq i.code code
      then record i { remaining_use_count = minus_one i.remaining_use_count }
      else i)
    ∷ spend code is

-- The DID that the request claims, empty where the account is to have a new one.
unfoldable pub signup_did : Attempt → Result CreateError String
signup_did a = elim a.request.did [
  | none ↦ ok ""
  | some did ↦
      if str_eq a.token ""
      then err unauthenticated
      else (elim (a.service_auth a.token "com.atproto.server.createAccount") [
        | none ↦ err invalid_authorization
        | some iss ↦ if str_eq iss did then ok did else err forbidden
      ])
]

-- Whether what was found belongs to another DID.
abbrev pub of_other : Option String → String → Bool
of_other none did = false
of_other (some found) did = not (str_eq found did)

abbrev pub actor_did : Option Actor → Option String
actor_did none = none
actor_did (some a) = some a.did

abbrev pub repo_did : Option Repo → Option String
repo_did none = none
repo_did (some r) = some r.did

abbrev pub invited : Attempt → Accounts → Bool
invited a db =
    not (str_eq (a.trim_space a.request.invite_code) "")
    && not (ltb_ℤ (remaining a.request.invite_code db.invites) (pos 1))

-- The suffix of the handle.
abbrev pub in_domain : Config → String → Bool
in_domain config handle =
    ends_with (str_append "." config.hostname) handle || str_eq handle config.hostname

abbrev pub valid : Option CreateError → Result CreateError Unit
valid none = ok tt
valid (some e) = err e

-- handleCreateAccount up to the last answer that the client has to mend: the DID claimed.
unfoldable pub admit : Config → Attempt → Creating String
admit config a = do
  _ ← lift (valid a.invalid)
  did ← lift (signup_did a)
  actor ← gets (λ (db : Accounts). get_actor_by_handle a.request.handle db.actors)
  _ ← stop_if (of_other (actor_did actor) did) handle_not_available
  _ ← stop_if (of_other (a.resolve_handle a.request.handle) did) handle_not_available
  good ← gets (invited a)
  _ ← stop_if (config.require_invite && not good) invalid_invite_code
  repo ← gets (λ (db : Accounts). get_repo_by_email a.request.email db.repos)
  _ ← stop_if (of_other (repo_did repo) did) email_not_available
  _ ← stop_if (not (in_domain config a.request.handle)) unsupported_domain
  pure did
