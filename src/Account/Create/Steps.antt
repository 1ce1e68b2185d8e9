-- ===== src/Account/Create/Steps.antt =====
-- The steps of handleCreateAccount (server/handle_server_create_account.go) where they went through.

use vow.Prelude.{
  ◌≡◌, ◌⊎◌, refl, ap, subst, ◌∙◌, arith, String, str_eq, true, false, not, ◌&&◌, none, some, ◌∷◌,
  eq_iff, Result, ok,
}
use vow.Prelude.Action.{ran, had, went_on, returned}
use vow.Prelude.Results.{ok_injective}
use vow.Auth.Sessions.{Session, create_session}
use vow.Account.Create.{
  Accounts, Config, Attempt, CreateError, server_error, signup_did, get_actor_by_handle, in_domain,
  of_other, actor_did, invited, admit,
}
use vow.Account.Create.Enroll.{
  is_new, ensure_did, new_repo, insert, insert_actor, clashes, spend_invite, start_session,
  register, settle,
}

-- What the checks left of an attempt, with the DID that it claims.
pub admit_passed :
    (config : Config) (a : Attempt) (db t : Accounts) (did : String)
    → admit config a db ≡ (ok did, t)
    → (t ≡ db)
      × (a.invalid ≡ none)
      × (signup_did a ≡ ok did)
      × (of_other (actor_did (get_actor_by_handle a.request.handle db.actors)) did ≡ false)
      × (of_other (a.resolve_handle a.request.handle) did ≡ false)
      × (config.require_invite && not (invited a db) ≡ false)
      × (in_domain config a.request.handle ≡ true)
unfolding admit
admit_passed config a db t did e = ground arith

pub ensure_did_passed :
    (a : Attempt) (claimed did : String) (db u : Accounts)
    → ensure_did a claimed db ≡ (ok did, u)
    → ((claimed ≡ did) × (str_eq claimed "" ≡ false))
      ⊎ ((claimed ≡ "")
          × (a.create_did a.request.handle ≡ some did)
          × (a.send_operation did ≡ true))
unfolding ensure_did
ensure_did_passed a claimed did db u e = ground (arith, eq_iff claimed "")

pub ensure_did_keeps :
    (a : Attempt) (claimed did : String) (db u : Accounts)
    → ensure_did a claimed db ≡ (ok did, u)
    → (u.repos ≡ db.repos) × (u.actors ≡ db.actors) × (u.tokens ≡ db.tokens)
unfolding ensure_did
ensure_did_keeps a claimed did db u e = ground arith

pub insert_passed :
    (a : Attempt) (did hashed : String) (db t : Accounts)
    → insert a did hashed db ≡ (ok tt, t)
    → (clashes a did db ≡ false)
      × (t.repos ≡ new_repo a did hashed ∷ db.repos)
      × (t.actors ≡ insert_actor a did db.actors)
      × (t.tokens ≡ db.tokens)
unfolding insert
insert_passed a did hashed db t e = ground arith

pub settle_passed :
    (config : Config) (a : Attempt) (did made : String) (session : Session) (db t : Accounts)
    → settle config a did db ≡ (ok (made, session), t)
    → (made ≡ did)
      × (t.repos ≡ db.repos)
      × (t.actors ≡ db.actors)
      × (create_session a.issuer did db.tokens ≡ (ok session, t.tokens))
unfolding settle spend_invite start_session
settle_passed config a did made session db t e = ground arith

pub register_passed :
    (a : Attempt) (claimed did : String) (db t : Accounts)
    → register a claimed db ≡ (ok did, t)
    → (u : Accounts) × (hashed : String) × (ensure_did a claimed db ≡ (ok did, u))
      × (a.hash a.request.password ≡ some hashed)
      × (insert a did hashed u ≡ (ok tt, t))
unfolding register
register_passed a claimed did db t e =
    let u = (ensure_did a claimed db).1 in
    let (made, e0, e1) = ran (ensure_did a claimed) _ did db t e in
    let (hashed, h, e2) = had (a.hash a.request.password) server_error _ did u t e1 in
    let (fine, e3) =
      went_on (is_new a.request.did && not (a.commit made)) server_error _ did u t e2 in
    let (un, e4, e5) = ran (insert a made hashed) _ did u t e3 in
    let same : made ≡ did =
      ok_injective made did (ap (λ (z : Result CreateError String × Accounts). z.0) e5) in
    let after : (insert a made hashed u).1 ≡ t =
      ap (λ (z : Result CreateError String × Accounts). z.1) e5 in
    (
      u,
      hashed,
      returned (ensure_did a claimed db) (ok did) u (e0 ∙ ap ok same) refl,
      h,
      subst (λ x. insert a x hashed u ≡ (ok tt, t)) same
          (returned (insert a made hashed u) (ok tt) t e4 after),
    )
