-- ===== src/Account/Codes/History/Told.antt =====
-- Each request of an account's handlers under server/ changes its codes as the history says.
use vow.Prelude.{
  ℕ, ◌+◌, ◌≡◌, refl, sym, subst, eq_iff, arith, String, str_eq, Bool, true, not, Bool-cases,
  Option-cases, inl, inr, Option, none, some, List, [], ◌∷◌, ok, err, if◌then◌else◌,
}
use vow.Prelude.Action.{Action, ◌>>◌, pure}
use vow.Account.{
  Repo, repo_by_did, repo_by_email, update_repo, repo_by_did-update_repo, repo_by_did-did,
}
use vow.Account.Codes.{
  AccountError, not_sent, unknown_account, ten_minutes, request_password_reset, reset_password,
  request_email_update, update_email, request_email_confirmation, confirm_email, email_of_other,
  set_reset_code, set_update_code, set_verification_code, set_password, set_email, set_confirmed,
}
use vow.Account.Codes.History.{
  Op, ask_reset, ask_update, ask_confirmation, reset, update, confirm, Answer, Served, with_repo,
  subject, serve, World, perform, Kind, code_of, outstanding, keeps, effect, then_code, last_code,
  IsHistory,
}

outstanding-update_repo :
    (kind : Kind) (did other : String) (set : Repo → Repo) (db : List Repo)
    → ((r : Repo) → (set r).did ≡ r.did)
    → outstanding kind did (update_repo other set db) ≡ (
        if str_eq did other
        then (elim (repo_by_did did db) [ none ↦ none | some r ↦ code_of kind (set r) ])
        else outstanding kind did db)
unfolding outstanding
outstanding-update_repo kind did other set db same =
    ground (arith, repo_by_did-update_repo did other set db same)

-- A request does to the codes what its effect says.
abbrev IsTold : Op → String → List Repo → Answer × List Repo → Type 0
IsTold op d db (a, after) =
    (kind : Kind) (did : String)
    → outstanding kind did after ≡ (
        if str_eq did d
        then then_code (effect kind op a) (outstanding kind did db)
        else outstanding kind did db)

untouched-IsTold :
    (op : Op) (d : String) (db : List Repo) (a : Answer)
    → ((kind : Kind) → effect kind op a ≡ keeps)
    → IsTold op d db (a, db)
untouched-IsTold op d db a nothing kind did = ground (arith, nothing kind)

updated-IsTold :
    (op : Op) (d : String) (db : List Repo) (a : Answer) (r : Repo) (set : Repo → Repo)
    → repo_by_did d db ≡ some r
    → ((row : Repo) → (set row).did ≡ row.did)
    → ((kind : Kind) (row : Repo)
        → code_of kind (set row) ≡ then_code (effect kind op a) (code_of kind row))
    → IsTold op d db (a, update_repo d set db)
unfolding outstanding
updated-IsTold op d db a r set e same says kind did =
    ground (arith, outstanding-update_repo kind did d set db same, says kind r, eq_iff did d)

-- Each handler, on the row of its account.
abbrev Row : Repo → List Repo → Type 0
Row r db = repo_by_did r.did db ≡ some r

abbrev answered : Action (List Repo) AccountError Unit → Served
answered m = m >> pure true

module _ (r : Repo) (db : List Repo) (e : Row r db) where
  reset-IsTold :
      (token password : String) (hashed : Option String) (now : ℕ)
      → IsTold
          (reset r.did token password hashed now)
          r.did
          db
          (answered (reset_password r token password hashed now) db)
  unfolding reset_password
  reset-IsTold token password none now kind did = ground arith
  reset-IsTold token password (some hash) now kind did = ground (
    arith,
    updated-IsTold (reset r.did token password (some hash) now) r.did db (ok true) r
        (set_password hash) e (λ row. refl) says kind did,
  )
    where
      says :
          (kind : Kind) (row : Repo)
          → code_of kind (set_password hash row)
            ≡ then_code
                (effect kind (reset r.did token password (some hash) now) (ok true))
                (code_of kind row)
      says kind row = ground arith

  update-IsTold :
      (email token : String) (now : ℕ)
      → IsTold
          (update r.did email token now)
          r.did
          db
          (answered (update_email r email token now) db)
  unfolding update_email email_of_other
  update-IsTold email token now kind did = ground (
    arith,
    updated-IsTold (update r.did email token now) r.did db (ok true) r
        (set_email email (not (str_eq r.email email))) e (λ row. refl) says kind did,
  )
    where
      says :
          (kind : Kind) (row : Repo)
          → code_of kind (set_email email (not (str_eq r.email email)) row)
            ≡ then_code (effect kind (update r.did email token now) (ok true)) (code_of kind row)
      says kind row = ground arith

  confirm-IsTold :
      (email token : String) (now : ℕ)
      → IsTold
          (confirm r.did email token now)
          r.did
          db
          (answered (confirm_email r email token now) db)
  unfolding confirm_email
  confirm-IsTold email token now kind did = ground (
    arith,
    updated-IsTold (confirm r.did email token now) r.did db (ok true) r (set_confirmed now) e
        (λ row. refl) says kind did,
  )
    where
      says :
          (kind : Kind) (row : Repo)
          → code_of kind (set_confirmed now row)
            ≡ then_code (effect kind (confirm r.did email token now) (ok true)) (code_of kind row)
      says kind row = ground arith

  ask_confirmation-IsTold :
      (code : String) (now : ℕ) (sent : Bool)
      → IsTold
          (ask_confirmation r.did code now sent)
          r.did
          db
          (answered (request_email_confirmation r code now sent) db)
  unfolding request_email_confirmation
  ask_confirmation-IsTold code now sent kind did = ground (
    arith,
    updated-IsTold (ask_confirmation r.did code now sent) r.did db
        (if sent then ok true else err not_sent) r (set_verification_code code (now + ten_minutes))
        e (λ row. refl) says kind did,
  )
    where
      says :
          (kind : Kind) (row : Repo)
          → code_of kind (set_verification_code code (now + ten_minutes) row)
            ≡ then_code
                (effect kind
                  (ask_confirmation r.did code now sent)
                  (if sent then ok true else err not_sent))
                (code_of kind row)
      says kind row = ground arith

  ask_update-IsTold :
      (code : String) (now : ℕ) (sent : Bool)
      → IsTold (ask_update r.did code now sent) r.did db (request_email_update r code now sent db)
  unfolding request_email_update
  ask_update-IsTold code now sent kind did = ground (
    arith,
    updated-IsTold (ask_update r.did code now sent) r.did db
        (if sent then ok true else err not_sent) r (set_update_code code (now + ten_minutes)) e
        (λ row. refl) says kind did,
  )
    where
      says :
          (kind : Kind) (row : Repo)
          → code_of kind (set_update_code code (now + ten_minutes) row)
            ≡ then_code
                (effect kind
                  (ask_update r.did code now sent)
                  (if sent then ok true else err not_sent))
                (code_of kind row)
      says kind row = ground arith

repo_by_email-repo_by_did :
    (email : String) (rs : List Repo) (r : Repo)
    → repo_by_email email rs ≡ some r
    → (row : Repo) × (repo_by_did r.did rs ≡ some row)
unfolding repo_by_email repo_by_did
repo_by_email-repo_by_did email [] r e = absurd (ground arith)
repo_by_email-repo_by_did email (s ∷ rs) r e = elim (Bool-cases (str_eq s.did r.did)) [
  | inl same ↦ (s, rw same refl)
  | inr other ↦
      let (row, found) =
        repo_by_email-repo_by_did email rs r (ground (arith, eq_iff s.did r.did)) in
      (row, rw other found)
]

ask_reset-IsTold :
    (email code : String) (now : ℕ) (sent : Bool) (db : List Repo)
    → IsTold
        (ask_reset email code now sent)
        (subject (ask_reset email code now sent) db)
        db
        (answered (request_password_reset none (some email) code now sent) db)
unfolding request_password_reset
ask_reset-IsTold email code now sent db kind did = elim (Option-cases (repo_by_email email db)) [
  | inl missing ↦ ground arith
  | inr (r, e) ↦
      let (row, found) = repo_by_email-repo_by_did email db r e in
      ground (
        arith,
        updated-IsTold (ask_reset email code now sent) r.did db
            (if sent then ok true else err not_sent) row (set_reset_code code (now + ten_minutes))
            found (λ row. refl) says kind did,
      )
]
  where
    says :
        (kind : Kind) (row : Repo)
        → code_of kind (set_reset_code code (now + ten_minutes) row)
          ≡ then_code
              (effect kind (ask_reset email code now sent) (if sent then ok true else err not_sent))
              (code_of kind row)
    says kind row = ground arith

known :
    (d : String) (handler : Repo → Served) (db : List Repo) (r : Repo)
    → repo_by_did d db ≡ some r
    → handler r db ≡ with_repo d handler db
known d handler db r e = rw (e, with_repo) refl

unknown :
    (d : String) (handler : Repo → Served) (db : List Repo)
    → repo_by_did d db ≡ none
    → ◌≡◌ {A = Answer × List Repo} (err unknown_account, db) (with_repo d handler db)
unknown d handler db e = rw (e, with_repo) refl

with_repo-IsTold :
    (op : String → Op) (handler : Repo → Served) (d : String) (db : List Repo)
    → ((kind : Kind) → effect kind (op d) (err unknown_account) ≡ keeps)
    → ((r : Repo) → Row r db → IsTold (op r.did) r.did db (handler r db))
    → IsTold (op d) d db (with_repo d handler db)
with_repo-IsTold op handler d db nothing told = elim (Option-cases (repo_by_did d db)) [
  | inl e ↦
      subst (IsTold (op d) d db) (unknown d handler db e)
        (untouched-IsTold (op d) d db (err unknown_account) nothing)
  | inr (r, e) ↦
      let same = repo_by_did-did d db r e in
      let row = subst (λ x. repo_by_did x db ≡ some r) (sym same) e in
      subst (IsTold (op d) d db) (known d handler db r e)
        (subst (λ x. IsTold (op x) x db (handler r db)) same (told r row))
]

serve-IsTold : (op : Op) (db : List Repo) → IsTold op (subject op db) db (serve op db)
unfolding serve
serve-IsTold (ask_reset email code now sent) db = ask_reset-IsTold email code now sent db
serve-IsTold (ask_update d code now sent) db =
    with_repo-IsTold (λ x. ask_update x code now sent) (λ r. request_email_update r code now sent) d
      db (λ kind. ground arith) (λ r e. ask_update-IsTold r db e code now sent)
serve-IsTold (ask_confirmation d code now sent) db =
    with_repo-IsTold (λ x. ask_confirmation x code now sent)
      (λ r. answered (request_email_confirmation r code now sent)) d db (λ kind. ground arith)
      (λ r e. ask_confirmation-IsTold r db e code now sent)
serve-IsTold (reset d token password hashed now) db =
    with_repo-IsTold (λ x. reset x token password hashed now)
      (λ r. answered (reset_password r token password hashed now)) d db (λ kind. ground arith)
      (λ r e. reset-IsTold r db e token password hashed now)
serve-IsTold (update d email token now) db =
    with_repo-IsTold (λ x. update x email token now)
      (λ r. answered (update_email r email token now)) d db (λ kind. ground arith)
      (λ r e. update-IsTold r db e email token now)
serve-IsTold (confirm d email token now) db =
    with_repo-IsTold (λ x. confirm x email token now)
      (λ r. answered (confirm_email r email token now)) d db (λ kind. ground arith)
      (λ r e. confirm-IsTold r db e email token now)

pub perform-IsHistory : (op : Op) (w : World) → IsHistory w → IsHistory (perform op w)
unfolding perform last_code
perform-IsHistory op w h kind did = ground (arith, serve-IsTold op w.db kind did, h kind did)
