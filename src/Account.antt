-- ===== src/Account.antt =====
-- The accounts of models/models.go and what the handlers under server/ do to them: the codes that
-- are mailed (Account/Codes), the creation of an account with its invite code (Account/Create).
-- Times are in nanoseconds, and the database stores what it is told to.
pub mod Codes
pub mod Create
mod Examples
use vow.Prelude.{
  ℕ, ◌≡◌, refl, arith, String, str_eq, true, false, Option, none, some, List, [], ◌∷◌,
  if◌then◌else◌, eq_iff, ◌⊎◌, inl, inr, Bool-cases,
}
use mathlib.Core.Option

-- A row of the table of repos, as far as the handlers of an account read it.
pub record Repo : Type 0 where
  pub did : String
  pub email : String
  pub email_confirmed_at : Option ℕ
  pub email_verification_code : Option String
  pub email_verification_code_expires_at : Option ℕ
  pub email_update_code : Option String
  pub email_update_code_expires_at : Option ℕ
  pub password_reset_code : Option String
  pub password_reset_code_expires_at : Option ℕ
  pub password : String

pub record Actor : Type 0 where
  pub did : String
  pub handle : String

-- SELECT ... WHERE r.did = ?
unfoldable pub repo_by_did : String → List Repo → Option Repo
repo_by_did did [] = none
repo_by_did did (r ∷ rs) = if str_eq r.did did then some r else repo_by_did did rs

-- SELECT ... WHERE r.email = ?
unfoldable pub repo_by_email : String → List Repo → Option Repo
repo_by_email email [] = none
repo_by_email email (r ∷ rs) = if str_eq r.email email then some r else repo_by_email email rs

-- UPDATE repos SET ... WHERE did = ?
unfoldable pub update_repo : String → (Repo → Repo) → List Repo → List Repo
update_repo did set [] = []
update_repo did set (r ∷ rs) = (if str_eq r.did did then set r else r) ∷ update_repo did set rs

pub repo_by_did-did :
    (did : String) (rs : List Repo) (r : Repo) → repo_by_did did rs ≡ some r → r.did ≡ did
unfolding repo_by_did
repo_by_did-did did [] r e = absurd (ground arith)
repo_by_did-did did (s ∷ rs) r e = ground (arith, eq_iff s.did did, repo_by_did-did did rs r)

pub repo_by_did-update_repo :
    (did other : String) (set : Repo → Repo) (rs : List Repo)
    → ((r : Repo) → (set r).did ≡ r.did)
    → repo_by_did did (update_repo other set rs)
      ≡ (if str_eq did other then Option.map set (repo_by_did did rs) else repo_by_did did rs)
unfolding repo_by_did update_repo
repo_by_did-update_repo did other set [] keeps = ground arith
repo_by_did-update_repo did other set (r ∷ rs) keeps = ground (
  arith,
  keeps r,
  eq_iff r.did did,
  eq_iff r.did other,
  eq_iff did other,
  repo_by_did-update_repo did other set rs keeps,
)
