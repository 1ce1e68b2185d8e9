-- ===== src/Account/Codes/History/Changed.antt =====
-- What the handlers of an account's mailed codes do to the columns that the codes guard: password,
-- address and confirmation.
use vow.Prelude.{
  ℕ, ◌+◌, ◌≡◌, refl, ap, arith, String, str_eq, eq_iff, Bool, true, false, not, ◌&&◌, Option-cases,
  inl, inr, Option, none, some, List, ok, err, if◌then◌else◌,
}
use vow.Account.{
  Repo, repo_by_did, repo_by_email, update_repo, repo_by_did-update_repo, repo_by_did-did,
}
use vow.Account.Codes.{
  ten_minutes, request_password_reset, reset_password, request_email_update, update_email,
  request_email_confirmation, confirm_email, email_of_other, set_reset_code, set_update_code,
  set_verification_code, set_password, set_email, set_confirmed,
}
use vow.Account.Codes.History.{
  Op, ask_reset, ask_update, ask_confirmation, reset, update, confirm, Answer, subject, serve,
}

abbrev pub granted : Answer → Bool
granted (ok required) = true
granted (err e) = false

-- The hash of the password, the address, and when it was confirmed.
abbrev pub Columns : Type 0
Columns = String × String × Option ℕ

abbrev pub columns : Repo → Columns
columns r = (r.password, r.email, r.email_confirmed_at)

abbrev pub columns_of : String → List Repo → Option Columns
columns_of did db = elim (repo_by_did did db) [ none ↦ none | some r ↦ some (columns r) ]

-- What a granted request makes of them: a reset has the new hash, an update the new address, which is
-- no longer confirmed where it is another, and a confirmation the time.
abbrev pub changed : Op → Columns → Columns
changed (reset did token password (some hash) now) (p, e, c) = (hash, e, c)
changed (update did email token now) (p, e, c) = (p, email, if str_eq e email then c else none)
changed (confirm did email token now) (p, e, c) = (p, e, some now)
changed _ (p, e, c) = (p, e, c)

abbrev pub change : (Columns → Columns) → Option Columns → Option Columns
change f none = none
change f (some c) = some (f c)

columns-update_repo :
    (f : Columns → Columns) (did other : String) (set : Repo → Repo) (db : List Repo)
    → ((r : Repo) → (set r).did ≡ r.did)
    → ((r : Repo) → repo_by_did other db ≡ some r → columns (set r) ≡ f (columns r))
    → columns_of did (update_repo other set db)
      ≡ (if str_eq did other then change f (columns_of did db) else columns_of did db)
columns-update_repo f did other set db same says = elim (Option-cases (repo_by_did did db)) [
  | inl missing ↦ ground (arith, repo_by_did-update_repo did other set db same)
  | inr (r, found) ↦ ground (
    arith,
    repo_by_did-update_repo did other set db same,
    eq_iff did other,
    says r,
    ap (λ x. repo_by_did x db),
  )
]

change_nothing : (o : Option Columns) → change (λ c. c) o ≡ o
change_nothing none = refl
change_nothing (some (p, e, c)) = refl

-- An update of codes alone.
codes_alone :
    (did other : String) (set : Repo → Repo) (db : List Repo)
    → ((r : Repo) → (set r).did ≡ r.did)
    → ((r : Repo) → columns (set r) ≡ columns r)
    → columns_of did (update_repo other set db) ≡ columns_of did db
codes_alone did other set db same says = ground (
  arith,
  columns-update_repo (λ c. c) did other set db same (λ r e. says r),
  change_nothing (columns_of did db),
)

-- After a request, the columns of any account: those of its subject are changed where it is granted.
abbrev IsChanged : Op → List Repo → String → Type 0
IsChanged op db did = columns_of did (serve op db).1 ≡ (
    if str_eq did (subject op db) && granted (serve op db).0
    then change (changed op) (columns_of did db)
    else columns_of did db)

reset-IsChanged :
    (d token password : String) (hashed : Option String) (now : ℕ) (db : List Repo) (did : String)
    → IsChanged (reset d token password hashed now) db did
unfolding serve reset_password
reset-IsChanged d token password none now db did = ground arith
reset-IsChanged d token password (some hash) now db did = elim (Option-cases (repo_by_did d db)) [
  | inl missing ↦ ground arith
  | inr (r, found) ↦ ground (
    arith,
    repo_by_did-did d db r found,
    columns-update_repo (changed (reset d token password (some hash) now)) did d (set_password hash)
        db (λ x. refl) (λ x e. refl),
  )
]

update-IsChanged :
    (d email token : String) (now : ℕ) (db : List Repo) (did : String)
    → IsChanged (update d email token now) db did
unfolding serve update_email email_of_other
update-IsChanged d email token now db did = elim (Option-cases (repo_by_did d db)) [
  | inl missing ↦ ground arith
  | inr (r, found) ↦ ground (
    arith,
    repo_by_did-did d db r found,
    columns-update_repo (changed (update d email token now)) did d
        (set_email email (not (str_eq r.email email))) db (λ x. refl) (λ x e. row r found x e),
  )
]
  where
    row :
        (r : Repo)
        → repo_by_did d db ≡ some r
        → (x : Repo) → repo_by_did d db ≡ some x
        → columns (set_email email (not (str_eq r.email email)) x)
          ≡ changed (update d email token now) (columns x)
    row r found x e = ground arith

confirm-IsChanged :
    (d email token : String) (now : ℕ) (db : List Repo) (did : String)
    → IsChanged (confirm d email token now) db did
unfolding serve confirm_email
confirm-IsChanged d email token now db did = elim (Option-cases (repo_by_did d db)) [
  | inl missing ↦ ground arith
  | inr (r, found) ↦ ground (
    arith,
    repo_by_did-did d db r found,
    columns-update_repo (changed (confirm d email token now)) did d (set_confirmed now) db
        (λ x. refl) (λ x e. refl),
  )
]

pub serve-IsChanged : (op : Op) (db : List Repo) (did : String) → IsChanged op db did
unfolding serve request_password_reset request_email_update request_email_confirmation
serve-IsChanged (reset d token password hashed now) db did =
    reset-IsChanged d token password hashed now db did
serve-IsChanged (update d email token now) db did = update-IsChanged d email token now db did
serve-IsChanged (confirm d email token now) db did = confirm-IsChanged d email token now db did
serve-IsChanged (ask_reset email code now sent) db did =
    elim (Option-cases (repo_by_email email db)) [
      | inl missing ↦ ground arith
      | inr (r, found) ↦ ground (
        arith,
        codes_alone did r.did (set_reset_code code (now + ten_minutes)) db (λ x. refl) (λ x. refl),
        change_nothing (columns_of did db),
      )
    ]
serve-IsChanged (ask_update d code now sent) db did = elim (Option-cases (repo_by_did d db)) [
  | inl missing ↦ ground arith
  | inr (r, found) ↦ ground (
    arith,
    codes_alone did r.did (set_update_code code (now + ten_minutes)) db (λ x. refl) (λ x. refl),
    change_nothing (columns_of did db),
  )
]
serve-IsChanged (ask_confirmation d code now sent) db did = elim (Option-cases (repo_by_did d db)) [
  | inl missing ↦ ground arith
  | inr (r, found) ↦ ground (
    arith,
    codes_alone did r.did (set_verification_code code (now + ten_minutes)) db (λ x. refl)
        (λ x. refl),
    change_nothing (columns_of did db),
  )
]
