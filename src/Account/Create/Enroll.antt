-- ===== src/Account/Create/Enroll.antt =====
-- server/handle_server_create_account.go: the account that handleCreateAccount stores for an attempt
-- that it admits, and the whole handler.
use vow.Prelude.{
  String, str_eq, Bool, true, false, not, ◌&&◌, ◌||◌, Option, none, some, List, [], ◌∷◌,
  if◌then◌else◌, ok, err,
}
use vow.Prelude.Action.{pure, need, gets, modify, stop_if, ◌>>=◌}
use vow.Auth.Sessions.{Session, create_session}
use vow.Account.{Repo, Actor, repo_by_did, repo_by_email}
use vow.Account.Create.{
  Accounts, Config, Attempt, Creating, actor_by_handle, get_actor_by_handle, spend, admit,
  server_error,
}

-- A new DID, and its operation sent to the directory.
unfoldable pub ensure_did : Attempt → String → Creating String
ensure_did a did =
    if str_eq did ""
    then (do
      fresh ← need (a.create_did a.request.handle) server_error
      _ ← stop_if (not (a.send_operation fresh)) server_error
      _ ←
          modify (λ (db : Accounts). record db {
            operations = (fresh, a.request.handle) ∷ db.operations;
          })
      pure fresh)
    else pure did

abbrev pub is_new : Option String → Bool
is_new none = true
is_new (some did) = str_eq did ""

abbrev pub new_repo : Attempt → String → String → Repo
new_repo a did hashed = record {
  did = did;
  email = a.request.email;
  email_confirmed_at = none;
  email_verification_code = some a.code;
  email_verification_code_expires_at = none;
  email_update_code = none;
  email_update_code_expires_at = none;
  password_reset_code = none;
  password_reset_code_expires_at = none;
  password = hashed;
}

abbrev pub present : {A : Type 0} → Option A → Bool
present none = false
present (some a) = true

unfoldable pub has_actor : String → List Actor → Bool
has_actor did [] = false
has_actor did (a ∷ as_) = if str_eq a.did did then true else has_actor did as_

-- The indexes that an INSERT of the rows meets: the DID and the address of the repo, the DID and
-- the handle of the actor, which is inserted where the handle had none.
unfoldable pub clashes : Attempt → String → Accounts → Bool
unfolding has_actor actor_by_handle get_actor_by_handle
clashes a did db =
    present (repo_by_did did db.repos)
    || present (repo_by_email a.request.email db.repos)
    || (not (present (get_actor_by_handle a.request.handle db.actors))
        && (has_actor did db.actors || present (actor_by_handle a.request.handle db.actors)))

abbrev pub insert_actor : Attempt → String → List Actor → List Actor
insert_actor a did actors =
    if present (get_actor_by_handle a.request.handle actors)
    then actors
    else record { did = did; handle = a.request.handle } ∷ actors

-- The rows in one transaction, and the event where the DID is new.
unfoldable pub insert : Attempt → String → String → Creating Unit
unfolding clashes get_actor_by_handle
insert a did hashed = do
  clash ← gets (clashes a did)
  _ ← stop_if clash server_error
  _ ← modify (λ (db : Accounts). record db {
    repos = new_repo a did hashed ∷ db.repos;
    actors = insert_actor a did db.actors;
  })
  modify (λ (db : Accounts). record db {
    identities =
        if is_new a.request.did then (did, a.request.handle) ∷ db.identities else db.identities;
  })

-- An INSERT of the use that fails is only logged.
unfoldable pub spend_invite : Config → Attempt → String → Creating Unit
unfolding spend
spend_invite config a did =
    if config.require_invite
    then (modify (λ (db : Accounts). record db {
      invites = spend a.request.invite_code db.invites;
      uses =
          if a.use_stored
          then record { code = a.request.invite_code; used_by = did } ∷ db.uses
          else db.uses;
    }))
    else pure tt

-- createSession on the tables of the tokens.
unfoldable pub start_session : Attempt → String → Creating Session
start_session a did db =
    let (result, tokens) = create_session a.issuer did db.tokens in
    (
      elim result [ ok session ↦ ok session | err e ↦ err server_error ],
      record db { tokens = tokens },
    )

-- The account as the database has it: its DID.
unfoldable pub register : Attempt → String → Creating String
unfolding ensure_did insert
register a claimed = do
  did ← ensure_did a claimed
  hashed ← need (a.hash a.request.password) server_error
  _ ← stop_if (is_new a.request.did && not (a.commit did)) server_error
  _ ← insert a did hashed
  pure did

-- What follows for an account in the database: the invite code and the first session.
unfoldable pub settle : Config → Attempt → String → Creating (String × Session)
unfolding spend_invite start_session
settle config a did = do
  _ ← spend_invite config a did
  session ← start_session a did
  pure (did, session)

unfoldable pub enroll : Config → Attempt → String → Creating (String × Session)
unfolding register settle
enroll config a claimed = register a claimed >>= settle config a

-- handleCreateAccount
unfoldable pub create_account : Config → Attempt → Creating (String × Session)
unfolding admit enroll
create_account config a = admit config a >>= enroll config a
