-- ===== src/Account/Create/Created.antt =====
-- What an account is that server/handle_server_create_account.go created.
use Prim.Native.Char.{Char}
use Prim.Native.String.append
use vow.Prelude.{
  ◌≡◌, ◌⊎◌, inl, inr, refl, sym, ap, subst, ◌∙◌, arith, String, str_eq, str_append, true, false,
  Option, none, some, List, ◌∷◌, ends_with, Bool-cases, Option-cases, eq_iff, ok,
}
use vow.Prelude.Action.{ran, returned}
use vow.Auth.Sessions.{Session, create_session}
use vow.Account.{Repo, Actor, repo_by_did, repo_by_email}
use vow.Account.Create.{
  Accounts, Config, Attempt, signup_did, actor_by_handle, get_actor_by_handle, in_domain, of_other,
  actor_did, admit,
}
use vow.Account.Create.Enroll.{
  ensure_did, new_repo, insert_actor, clashes, register, settle, enroll, create_account,
}
use vow.Account.Create.Steps.{
  admit_passed, ensure_did_passed, ensure_did_keeps, insert_passed, settle_passed, register_passed,
}

-- A text ends in another.
abbrev EndsWith : String → String → Type 0
EndsWith suffix s = (start : String) × (s ≡ str_append start suffix)

append_nil : (s : String) → str_append "" s ≡ s
append_nil s = λ i. append.nil s i

append_cons :
    (c : Char) (s t : String) → str_append (String.◌∷◌ c s) t ≡ String.◌∷◌ c (str_append s t)
append_cons c s t = λ i. append.cons c s t i

ends_with-EndsWith : (suffix s : String) → ends_with suffix s ≡ true → EndsWith suffix s
unfolding ends_with
ends_with-EndsWith suffix String.[] e = ("", sym (append_nil suffix ∙ (eq_iff suffix "").0 e))
ends_with-EndsWith suffix (String.◌∷◌ c s) e = elim (Bool-cases (str_eq suffix (String.◌∷◌ c s))) [
  | inl same ↦ ("", sym (append_nil suffix ∙ (eq_iff suffix (String.◌∷◌ c s)).0 same))
  | inr other ↦
      let (start, found) = ends_with-EndsWith suffix s (rw other at e) in
      (String.◌∷◌ c start, ap (String.◌∷◌ c) found ∙ sym (append_cons c start suffix))
]

claimed_signed :
    (a : Attempt) (did : String)
    → signup_did a ≡ ok did
    → (did ≡ "")
      ⊎ ((a.request.did ≡ some did)
          × (a.service_auth a.token "com.atproto.server.createAccount" ≡ some did))
unfolding signup_did
claimed_signed a did e = elim (Option-cases a.request.did) [
  | inl absent ↦ ground arith
  | inr (wanted, present_) ↦
      elim (Option-cases (a.service_auth a.token "com.atproto.server.createAccount")) [
        | inl refused ↦ absurd (ground arith)
        | inr (iss, signed) ↦
            inr (ground (arith, eq_iff iss wanted), ground (arith, eq_iff iss wanted))
      ]
]

-- The account's DID is the one that the request claims, and that signed for it; or the request
-- claims none, and the DID is new, its operation sent to the PLC directory.
abbrev IsOwned : Attempt → String → String → Type 0
IsOwned a claimed did =
    ((claimed ≡ did)
      × (a.request.did ≡ some did)
      × (a.service_auth a.token "com.atproto.server.createAccount" ≡ some did))
    ⊎ ((claimed ≡ "") × (a.create_did a.request.handle ≡ some did) × (a.send_operation did ≡ true))

-- The columns of a new row.
pub record IsRow (a : Attempt) (did hashed : String) (r : Repo) : Type 0 where
  pub did_is : r.did ≡ did
  pub email_is : r.email ≡ a.request.email
  pub password_is : r.password ≡ hashed
  pub unconfirmed : r.email_confirmed_at ≡ none
  pub verification : r.email_verification_code ≡ some a.code
  pub verification_time : r.email_verification_code_expires_at ≡ none
  pub update : (r.email_update_code ≡ none) × (r.email_update_code_expires_at ≡ none)
  pub reset : (r.password_reset_code ≡ none) × (r.password_reset_code_expires_at ≡ none)

pub record IsCreated (config : Config) (a : Attempt) (db : Accounts) (did : String)
    (session : Session) (t : Accounts) : Type 0 where
  pub claimed : String
  pub hashed : String
  pub actor : Actor
  pub passed : a.invalid ≡ none
  pub owned : IsOwned a claimed did
  pub suffixed :
      EndsWith (str_append "." config.hostname) a.request.handle
      ⊎ (a.request.handle ≡ config.hostname)
  pub resolved :
      (a.resolve_handle a.request.handle ≡ none)
      ⊎ (a.resolve_handle a.request.handle ≡ some claimed)
  pub fresh_did : repo_by_did did db.repos ≡ none
  pub fresh_email : repo_by_email a.request.email db.repos ≡ none
  pub password : a.hash a.request.password ≡ some hashed
  pub row : Repo
  pub stored : t.repos ≡ row ∷ db.repos
  pub row_is : IsRow a did hashed row
  pub handled : actor_by_handle a.request.handle t.actors ≡ some actor
  pub named : actor.did ≡ did
  pub started : create_session a.issuer did db.tokens ≡ (ok session, t.tokens)

no_other :
    (found : Option String) (did : String)
    → of_other found did ≡ false
    → (found ≡ none) ⊎ (found ≡ some did)
no_other none did e = inl refl
no_other (some x) did e = inr (ap some ((eq_iff x did).0 (ground arith)))

domain_suffixed :
    (config : Config) (handle : String)
    → in_domain config handle ≡ true
    → EndsWith (str_append "." config.hostname) handle ⊎ (handle ≡ config.hostname)
domain_suffixed config handle e =
    elim (Bool-cases (ends_with (str_append "." config.hostname) handle)) [
      | inl suffix ↦ inl (ends_with-EndsWith (str_append "." config.hostname) handle suffix)
      | inr other ↦ inr ((eq_iff handle config.hostname).0 (ground arith))
    ]

no_clash :
    (a : Attempt) (did : String) (db : Accounts)
    → clashes a did db ≡ false
    → (repo_by_did did db.repos ≡ none) × (repo_by_email a.request.email db.repos ≡ none)
unfolding clashes
no_clash a did db e = ground arith

-- Whose the handle is afterwards.
handle_stored :
    (a : Attempt) (claimed did : String) (actors : List Actor)
    → ((claimed ≡ did) ⊎ (claimed ≡ ""))
    → of_other (actor_did (get_actor_by_handle a.request.handle actors)) claimed ≡ false
    → (actor : Actor) × (actor_by_handle a.request.handle (insert_actor a did actors) ≡ some actor)
      × (actor.did ≡ did)
unfolding get_actor_by_handle actor_by_handle
handle_stored a claimed did actors owned free =
    elim (Option-cases (actor_by_handle a.request.handle actors)) [
      | inl absent ↦ (
        record { did = did; handle = a.request.handle },
        ground (arith, eq_iff a.request.handle a.request.handle),
        refl,
      )
      | inr (actor, found) ↦ elim (Bool-cases (str_eq actor.did "")) [
        | inl nameless ↦ (
          record { did = did; handle = a.request.handle },
          ground (arith, eq_iff a.request.handle a.request.handle),
          refl,
        )
        | inr named ↦
            (actor, ground arith, ground (arith, eq_iff actor.did claimed, eq_iff actor.did ""))
      ]
    ]

owner_of :
    (a : Attempt) (claimed did : String) (db u : Accounts)
    → signup_did a ≡ ok claimed
    → ensure_did a claimed db ≡ (ok did, u)
    → IsOwned a claimed did
owner_of a claimed did db u s e = elim (ensure_did_passed a claimed did db u e) [
  | inr (none_claimed, made, sent) ↦ inr (none_claimed, made, sent)
  | inl (same, named) ↦ elim (claimed_signed a claimed s) [
    | inl empty ↦ absurd (ground (arith, eq_iff claimed ""))
    | inr (wanted, signed) ↦ inl (same, wanted ∙ ap some same, signed ∙ ap some same)
  ]
]

either :
    (a : Attempt) (claimed did : String) → IsOwned a claimed did → (claimed ≡ did) ⊎ (claimed ≡ "")
either a claimed did (inl (same, wanted, signed)) = inl same
either a claimed did (inr (empty, made, sent)) = inr empty

-- The rows that were read are those of the database that the attempt met.
enrolled_account :
    (config : Config) (a : Attempt) (claimed did : String) (session : Session) (db t : Accounts)
    → admit config a db ≡ (ok claimed, db)
    → enroll config a claimed db ≡ (ok (did, session), t)
    → IsCreated config a db did session t
unfolding enroll
enrolled_account config a claimed did session db t admitted e =
    let (same_db, passed, signup, free, resolved, invite, domain) =
      admit_passed config a db db claimed admitted in
    let v = (register a claimed db).1 in
    let (made, e0, e1) = ran (register a claimed) (settle config a) (did, session) db t e in
    let (same, repos, actors, started) = settle_passed config a made did session v t e1 in
    let (u, hashed, ensured, hash, inserted) =
      register_passed a claimed made db v (returned (register a claimed db) (ok made) v e0 refl) in
    let (kept_repos, kept_actors, kept_tokens) = ensure_did_keeps a claimed made db u ensured in
    let (clash, new_repos, new_actors, new_tokens) = insert_passed a made hashed u v inserted in
    let owned = owner_of a claimed made db u signup ensured in
    let (fresh_did, fresh_email) = no_clash a made u clash in
    let (actor, handled, named) =
      handle_stored a claimed made db.actors (either a claimed made owned) free in
    subst (λ x. IsCreated config a db x session t) (sym same)
      (record {
        claimed = claimed;
        hashed = hashed;
        actor = actor;
        passed = passed;
        owned = owned;
        suffixed = domain_suffixed config a.request.handle domain;
        resolved = no_other (a.resolve_handle a.request.handle) claimed resolved;
        fresh_did = ap (repo_by_did made) (sym kept_repos) ∙ fresh_did;
        fresh_email = ap (repo_by_email a.request.email) (sym kept_repos) ∙ fresh_email;
        stored = repos ∙ new_repos ∙ ap (λ x. new_repo a made hashed ∷ x) kept_repos;
        password = hash;
        row = new_repo a made hashed;
        row_is = record {
          did_is = refl;
          email_is = refl;
          password_is = refl;
          unconfirmed = refl;
          verification = refl;
          verification_time = refl;
          update = (refl, refl);
          reset = (refl, refl);
        };
        handled =
            ap (actor_by_handle a.request.handle)
              (actors ∙ new_actors ∙ ap (insert_actor a made) kept_actors)
            ∙ handled;
        named = named;
        started = ap (create_session a.issuer made) (sym (new_tokens ∙ kept_tokens)) ∙ started;
      })

-- An account that createAccount made: the request passed the validator, the handle ends in the
-- server's domain or is its name, and resolves to nothing but the claimed DID. The DID is the one
-- that the request claims, and that a service token for createAccount is from, or else a new one
-- whose operation was sent. No row had the DID or the address before; the one row that is new has
-- them with the hash of the password, an address that is not confirmed, no time for its verification
-- code and no other code; the handle is the DID's, and the session is one of createSession for it.
pub create_account-IsCreated :
    (config : Config) (a : Attempt) (did : String) (session : Session) (db t : Accounts)
    → create_account config a db ≡ (ok (did, session), t)
    → IsCreated config a db did session t
unfolding create_account
create_account-IsCreated config a did session db t e =
    let u = (admit config a db).1 in
    let (claimed, e0, e1) = ran (admit config a) (enroll config a) (did, session) db t e in
    let admitted = returned (admit config a db) (ok claimed) u e0 refl in
    let same = (admit_passed config a db u claimed admitted).0 in
    enrolled_account config a claimed did session db t
      (subst (λ x. admit config a db ≡ (ok claimed, x)) same admitted)
      (subst (λ x. enroll config a claimed x ≡ (ok (did, session), t)) same e1)
