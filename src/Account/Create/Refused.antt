-- ===== src/Account/Create/Refused.antt =====
-- The refusals of server/handle_server_create_account.go that the client has to mend.
use vow.Prelude.{◌≡◌, ◌≢◌, refl, arith, String, Result, ok, err}
use vow.Prelude.Action.{continue}
use vow.Account.Create.{Accounts, Config, Attempt, CreateError, server_error, admit}
use vow.Account.Create.Enroll.{
  ensure_did, insert, spend_invite, start_session, register, settle, enroll, create_account,
}

admit_keeps : (config : Config) (a : Attempt) (db : Accounts) → (admit config a db).1 ≡ db
unfolding admit
admit_keeps config a db = ground arith

register_error :
    (a : Attempt) (did : String) (db : Accounts) (e : CreateError)
    → (register a did db).0 ≡ err e
    → e ≡ server_error
unfolding register ensure_did insert
register_error a did db e h = ground arith

settle_error :
    (config : Config) (a : Attempt) (did : String) (db : Accounts) (e : CreateError)
    → (settle config a did db).0 ≡ err e
    → e ≡ server_error
unfolding settle spend_invite start_session
settle_error config a did db e h = ground arith

-- An attempt that is refused for any reason but a failure of the server changes nothing: no DID is
-- sent to the directory, no row is written, no use of an invite code is gone and no token issued.
pub create_account-refused :
    (config : Config) (a : Attempt) (db : Accounts) (e : CreateError)
    → (create_account config a db).0 ≡ err e
    → e ≢ server_error
    → (create_account config a db).1 ≡ db
unfolding create_account enroll
create_account-refused config a db e h other =
    admitted (admit config a db).0 (admit config a db).1 (admit_keeps config a db) h
  where
    registered :
        (r : Result CreateError String) (u v : Accounts)
        → ((x : CreateError) → r ≡ err x → x ≡ server_error)
        → (continue r (settle config a) u).0 ≡ err e
        → e ≡ server_error
    registered (err x) u v errors h = let known = errors x refl in ground arith
    registered (ok did) u v errors h = settle_error config a did u e h

    admitted :
        (r : Result CreateError String) (t : Accounts)
        → t ≡ db
        → (continue r (enroll config a) t).0 ≡ err e
        → (continue r (enroll config a) t).1 ≡ db
    admitted (err x) t same h = same
    admitted (ok did) t same h = absurd (
        other (
          registered (register a did t).0 (register a did t).1 db
            (λ x f. register_error a did t x f) h))
