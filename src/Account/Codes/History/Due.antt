-- ===== src/Account/Codes/History/Due.antt =====
-- When the handlers of an account's mailed codes grant what is asked, told from the history.
use vow.Prelude.{
  if◌then◌else◌, subst, ℕ, ◌≡◌, ap, arith, String, str_eq, Bool, true, false, not, ◌&&◌, ◌||◌,
  Option-cases, inl, inr, Option, none, some, List, [], ◌∷◌, leb,
}
use vow.Account.{Repo, repo_by_did, repo_by_email, repo_by_did-did}
use vow.Account.Codes.{
  is_confirmed, email_of_other, request_password_reset, reset_password, request_email_update,
  update_email, request_email_confirmation, confirm_email,
}
use vow.Account.Codes.History.{
  subject, Op, ask_reset, ask_update, ask_confirmation, reset, update, confirm, serve, Event, World,
  run, password_reset, email_update, email_verification, outstanding, last_code, IsHistory,
}
use vow.Account.Codes.History.Told.{perform-IsHistory}
use vow.Account.Codes.History.Changed.{granted, columns_of, change, changed, serve-IsChanged}

abbrev filled : Option String → Bool
filled none = false
filled (some s) = true

-- The token is the code that stands, and its time has not passed.
abbrev good : Option (String × ℕ) → String → ℕ → Bool
good none token now = false
good (some (code, eat)) token now = str_eq code token && leb now eat

abbrev on_row : Option Repo → (Repo → Bool) → Bool
on_row none test = false
on_row (some r) test = test r

-- What a request must meet to be granted. The codes are those of the history; of the rows only
-- the addresses are read, and whether the address is confirmed.
abbrev pub due : Op → List Repo → List Event → Bool
due (ask_reset email code now sent) db h =
    not (str_eq email "") && on_row (repo_by_email email db) (λ r. sent)
due (ask_update did code now sent) db h =
    on_row (repo_by_did did db) (λ r. not (is_confirmed r) || sent)
due (ask_confirmation did code now sent) db h =
    on_row (repo_by_did did db) (λ r. not (is_confirmed r) && sent)
due (reset did token password hashed now) db h =
    not (str_eq token "" || str_eq password "")
    && good (last_code password_reset did h) token now
    && filled hashed
due (update did email token now) db h =
    not (str_eq email "")
    && (str_eq token "" || good (last_code email_update did h) token now)
    && on_row (repo_by_did did db) (λ r. not (email_of_other email did db))
due (confirm did email token now) db h =
    not (str_eq email "" || str_eq token "") && good (last_code email_verification did h) token now

serve-due : (op : Op) (w : World) → IsHistory w → granted (serve op w.db).0 ≡ due op w.db w.history
unfolding serve outstanding request_password_reset reset_password request_email_update update_email
    request_email_confirmation confirm_email
serve-due (ask_reset email code now sent) w h = ground arith
serve-due (ask_update did code now sent) w h = ground arith
serve-due (ask_confirmation did code now sent) w h = ground arith
serve-due (reset did token password hashed now) w h = ground (arith, h password_reset did)
serve-due (update did email token now) w h = elim (Option-cases (repo_by_did did w.db)) [
  | inl missing ↦ ground arith
  | inr (r, e) ↦ ground (
    arith,
    h email_update did,
    repo_by_did-did did w.db r e,
    ap (λ x. email_of_other email x w.db) (repo_by_did-did did w.db r e),
  )
]
serve-due (confirm did email token now) w h = ground (arith, h email_verification did)

run-IsHistory : (ops : List Op) (w : World) → IsHistory w → IsHistory (run ops w)
unfolding run
run-IsHistory [] w h = h
run-IsHistory (op ∷ ops) w h = run-IsHistory ops _ (perform-IsHistory op w h)

-- After any requests, the next one is granted exactly when it is due: the token is the code that the
-- account's last request of that kind had mailed, no later than ten minutes after it and not used
-- since, or empty for an address; nothing but the mail, the hash, the form of the request and the
-- address of another account stands in the way of a good token. Where it is due, the account it is
-- about, and no other, then has the new password's hash, the new address, unconfirmed where it is
-- another, or the time of the confirmation; all the other passwords, addresses and confirmations
-- are as before, and all of them where it is not due or only asks for a code.
pub serve-due_after :
    (ops : List Op) (op : Op) (w : World)
    → IsHistory w
    → let db = (run ops w).db in
      let is_due = due op db (run ops w).history in
      (granted (serve op db).0 ≡ is_due)
      × ((did : String)
          → columns_of did (serve op db).1 ≡ (
              if str_eq did (subject op db) && is_due
              then change (changed op) (columns_of did db)
              else columns_of did db))
serve-due_after ops op w h =
    let db = (run ops w).db in
    let answered = serve-due op (run ops w) (run-IsHistory ops w h) in
    (
      answered,
      λ did.
          subst
            (λ (b : Bool). columns_of did (serve op db).1 ≡ (
              if str_eq did (subject op db) && b
              then change (changed op) (columns_of did db)
              else columns_of did db))
            answered (serve-IsChanged op db did),
    )
