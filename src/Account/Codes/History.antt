-- ===== src/Account/Codes/History.antt =====
-- The mailed codes of server/ as a history of requests: which code stands for an account, told from
-- what was asked and answered alone, and that the columns of the rows say the same.
pub mod Told
pub mod Changed
pub mod Due
use vow.Prelude.{
  ℕ, ◌+◌, ◌≤◌, ◌≡◌, ◌≢◌, refl, eq_iff, arith, String, str_eq, Bool, true, false, not, Bool-cases,
  Option-cases, inl, inr, Option, none, some, List, [], ◌∷◌, Result, ok, err, if◌then◌else◌, ◌&&◌,
  ◌⊎◌,
}
use vow.Prelude.Action.{Action, need, continue, on_stop, on_need, ◌>>=◌, ◌>>◌, pure}
use vow.Account.{
  Repo, repo_by_did, repo_by_email, update_repo, repo_by_did-update_repo, repo_by_did-did,
}
use vow.Account.Codes.{
  AccountError, not_sent, unknown_account, Handler, ten_minutes, stored, request_password_reset,
  reset_password, request_email_update, update_email, request_email_confirmation, confirm_email,
  email_of_other, set_reset_code, set_update_code, set_verification_code, set_password, set_email,
  set_confirmed,
}

-- A request with what the handler meets. The first is made with an address, the others in a session.
pub data Op : Type 0 where
  ask_reset : (email code : String) → ℕ → (sent : Bool) → Op
  ask_update ask_confirmation : (did code : String) → ℕ → (sent : Bool) → Op
  reset : (did token password : String) → Option String → ℕ → Op
  update confirm : (did email token : String) → ℕ → Op

-- In the answer to ask_update, whether the client must send a token.
abbrev pub Answer : Type 0
Answer = Result AccountError Bool

abbrev pub Served : Type 0
Served = Action (List Repo) AccountError Bool

-- The middleware reads the row, the handler is given it.
abbrev pub with_repo : String → (Repo → Served) → Served
with_repo did handler db = elim (repo_by_did did db) [
  | none ↦ (err unknown_account, db)
  | some r ↦ handler r db
]

abbrev pub subject : Op → List Repo → String
subject (ask_reset email code now sent) db = elim (repo_by_email email db) [
  | none ↦ ""
  | some r ↦ r.did
]
subject (ask_update did code now sent) db = did
subject (ask_confirmation did code now sent) db = did
subject (reset did token password hashed now) db = did
subject (update did email token now) db = did
subject (confirm did email token now) db = did

unfoldable pub serve : Op → Served
unfolding request_password_reset reset_password request_email_update update_email
    request_email_confirmation confirm_email
serve (ask_reset email code now sent) =
    request_password_reset none (some email) code now sent >> pure true
serve (ask_update did code now sent) = with_repo did (λ r. request_email_update r code now sent)
serve (ask_confirmation did code now sent) =
    with_repo did (λ r. request_email_confirmation r code now sent >> pure true)
serve (reset did token password hashed now) =
    with_repo did (λ r. reset_password r token password hashed now >> pure true)
serve (update did email token now) =
    with_repo did (λ r. update_email r email token now >> pure true)
serve (confirm did email token now) =
    with_repo did (λ r. confirm_email r email token now >> pure true)

-- A request that was answered, with the account that it was about.
pub record Event : Type 0 where
  pub op : Op
  pub did : String
  pub answer : Answer

pub record World : Type 0 where
  pub db : List Repo
  pub history : List Event

unfoldable pub perform : Op → World → World
unfolding serve
perform op w = record {
  db = (serve op w.db).1;
  history = record { op = op; did = subject op w.db; answer = (serve op w.db).0 } ∷ w.history;
}

unfoldable pub run : List Op → World → World
unfolding perform
run [] w = w
run (op ∷ ops) w = run ops (perform op w)

pub data Kind : Type 0 where
  password_reset email_update email_verification : Kind

-- What the row says: the code of a kind, with the time until which it is good.
abbrev pub code_of : Kind → Repo → Option (String × ℕ)
code_of password_reset r = stored r.password_reset_code r.password_reset_code_expires_at
code_of email_update r = stored r.email_update_code r.email_update_code_expires_at
code_of email_verification r = stored r.email_verification_code r.email_verification_code_expires_at

unfoldable pub outstanding : Kind → String → List Repo → Option (String × ℕ)
unfolding repo_by_did
outstanding kind did db = elim (repo_by_did did db) [ none ↦ none | some r ↦ code_of kind r ]

pub data Effect : Type 0 where
  keeps clears : Effect
  sets : String → ℕ → Effect

-- A code is stored before it is mailed.
abbrev pub was_stored : Answer → Bool
was_stored (ok required) = required
was_stored (err not_sent) = true
was_stored (err _) = false

abbrev pub was_ok : Answer → Bool
was_ok (ok _) = true
was_ok (err _) = false

-- What an answered request does to the code of a kind.
abbrev pub effect : Kind → Op → Answer → Effect
effect password_reset (ask_reset _ code now _) a =
    if was_stored a then sets code (now + ten_minutes) else keeps
effect email_update (ask_update _ code now _) a =
    if was_stored a then sets code (now + ten_minutes) else keeps
effect email_verification (ask_confirmation _ code now _) a =
    if was_stored a then sets code (now + ten_minutes) else keeps
effect password_reset (reset _ _ _ _ _) a = if was_ok a then clears else keeps
effect email_update (update _ _ _ _) a = if was_ok a then clears else keeps
effect email_verification (confirm _ _ _ _) a = if was_ok a then clears else keeps
effect _ _ a = keeps

abbrev pub then_code : Effect → Option (String × ℕ) → Option (String × ℕ)
then_code keeps before = before
then_code clears before = none
then_code (sets code eat) before = some (code, eat)

-- The code of a kind that stands for an account, by the history alone, the last request first.
unfoldable pub last_code : Kind → String → List Event → Option (String × ℕ)
last_code kind did [] = none
last_code kind did (e ∷ h) =
    let before = last_code kind did h in
    if str_eq did e.did then then_code (effect kind e.op e.answer) before else before

abbrev pub IsHistory : World → Type 0
IsHistory w =
    (kind : Kind) (did : String) → outstanding kind did w.db ≡ last_code kind did w.history
