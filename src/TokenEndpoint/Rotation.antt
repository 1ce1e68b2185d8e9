-- ===== src/TokenEndpoint/Rotation.antt =====
-- server/handle_oauth_token.go: the refresh_token grant.
use vow.Prelude.{
  ℕ, ◌+◌, ◌*◌, ◌^◌, ◌≤◌, ◌⊎◌, sym, subst, ◌≡◌, ◌≢◌, refl, ◌∙◌, ap, arith, String, str_eq, str_eq_ne,
  str_ne_of_test, eq_iff, Bool, false, Bool-cases, inl, inr, not, Option, none, some, List, [], ◌∷◌,
  if◌then◌else◌, ok, err, ◌||◌, ◌&&◌,
}
use vow.Prelude.Action.{Action, pure, need, gets, stop_if, ◌>>=◌, went_on, had}
use vow.TokenEndpoint.{
  Claims, OauthToken, Db, OauthTokenRequest, OauthTokenResponse, Client, Env, TokenError,
  missing_parameter, jkt_required, server_error, client_mismatch, method_mismatch, proof_required,
  wrong_jkt, session_expired, refresh_expired, token_max_age, scan_refresh, zero_token, is_some,
  get_session_age_from_token,
}
use vow.TokenEndpoint.{unsupported_grant}
use vow.TokenEndpoint.Exchange.{
  authorization_code, stop_on, not_stopped, token_type, claims_for, IsAccess, claims_for-IsAccess,
}

unfoldable pub check_jkt : Option String → Option String → Option TokenError
check_jkt none proof = none
check_jkt (some jkt) none = some proof_required
check_jkt (some jkt) (some proof) = if str_eq jkt proof then none else some wrong_jkt

abbrev renewed : Env → String → OauthToken → OauthToken
renewed env access t = record t {
  token = access;
  refresh_token = env.new_refresh_token;
  expires_at = env.now + token_max_age;
  updated_at = env.now;
}

-- UPDATE oauth_tokens SET ... WHERE refresh_token = ?
unfoldable pub update_rows : Env → String → String → List OauthToken → List OauthToken
update_rows env access old [] = []
update_rows env access old (t ∷ ts) =
    let rest = update_rows env access old ts in
    (if str_eq t.refresh_token old then renewed env access t else t) ∷ rest

-- The unique indexes refuse the update where another row has one of the new values.
abbrev occupied : Env → String → String → List OauthToken → Bool
occupied env access old [] = false
occupied env access old (t ∷ ts) =
    (not (str_eq t.refresh_token old)
      && (str_eq t.token access || str_eq t.refresh_token env.new_refresh_token))
    || occupied env access old ts

abbrev update : Env → String → String → Action Db TokenError Unit
update env access old db =
    if occupied env access old db.oauth_tokens
    then (err server_error, db)
    else (ok tt, record db { oauth_tokens = update_rows env access old db.oauth_tokens })

-- What follows the look-up of the row.
unfoldable pub rotate_token :
    Env → Client → String → OauthToken → Action Db TokenError OauthTokenResponse
unfolding update_rows
rotate_token env client old t = do
  let p = t.parameters
  _ ← stop_if (not (str_eq client.client_id t.client_id)) client_mismatch
  _ ← stop_if (not (str_eq client.auth_method t.client_auth_method)) method_mismatch
  _ ← stop_on (check_jkt p.dpop_jkt client.proof_jkt)
  let age = get_session_age_from_token env.now t
  _ ← stop_if age.0 session_expired
  _ ← stop_if age.1 refresh_expired
  _ ← stop_if (client.dpop_bound_access_tokens && not (is_some p.dpop_jkt)) jkt_required
  access ← need (env.sign_internal_jwt (claims_for env t.sub p t.client_id)) server_error
  _ ← update env access old
  pure (record {
    access_token = access;
    token_type = token_type p.dpop_jkt;
    refresh_token = env.new_refresh_token;
    scope = p.scope;
    sub = t.sub;
  })

unfoldable pub refresh_grant :
    Env → Client → OauthTokenRequest → Action Db TokenError OauthTokenResponse
unfolding rotate_token scan_refresh
refresh_grant env client req = do
  old ← need req.refresh_token missing_parameter
  t ← gets (λ (db : Db). scan_refresh old db.oauth_tokens)
  rotate_token env client old t

scan_updated :
    (env : Env) (access old : String) (ts : List OauthToken)
    → env.new_refresh_token ≢ old
    → scan_refresh old (update_rows env access old ts) ≡ zero_token
unfolding scan_refresh update_rows
scan_updated env access old [] ne = refl
scan_updated env access old (t ∷ ts) ne = elim (Bool-cases (str_eq t.refresh_token old)) [
  | inl e ↦
      rw (e, update_rows, str_eq_ne env.new_refresh_token old ne)
        (scan_updated env access old ts ne)
  | inr e ↦ rw (e, update_rows, scan_refresh, e) (scan_updated env access old ts ne)
]

-- A row that had the refresh token has the new tokens and times, and the other columns as before; any
-- other row is as before.
abbrev IsRenewal : Env → String → String → OauthToken → OauthToken → Type 0
IsRenewal env access old t u =
    ((t.refresh_token ≡ old)
      × (u.token ≡ access)
      × (u.refresh_token ≡ env.new_refresh_token)
      × (u.expires_at ≡ env.now + 3600 * 10 ^ 9)
      × (u.updated_at ≡ env.now)
      × (u.created_at ≡ t.created_at)
      × (u.client_id ≡ t.client_id)
      × (u.client_auth_method ≡ t.client_auth_method)
      × (u.parameters ≡ t.parameters)
      × (u.sub ≡ t.sub)
      × (u.code ≡ t.code)
      × (u.ip ≡ t.ip))
    ⊎ ((t.refresh_token ≢ old) × (u ≡ t))

abbrev AreRenewals : Env → String → String → List OauthToken → List OauthToken → Type 0
AreRenewals env access old [] [] = Unit
AreRenewals env access old (t ∷ ts) (u ∷ us) =
    IsRenewal env access old t u × AreRenewals env access old ts us
AreRenewals env access old _ _ = ⊥

update_rows-AreRenewals :
    (env : Env) (access old : String) (ts : List OauthToken)
    → AreRenewals env access old ts (update_rows env access old ts)
unfolding update_rows
update_rows-AreRenewals env access old [] = tt
update_rows-AreRenewals env access old (t ∷ ts) = elim (Bool-cases (str_eq t.refresh_token old)) [
  | inl e ↦ rw e (
    inl (
      (eq_iff t.refresh_token old).0 e,
      refl,
      refl,
      refl,
      refl,
      refl,
      refl,
      refl,
      refl,
      refl,
      refl,
      refl,
    ),
    update_rows-AreRenewals env access old ts,
  )
  | inr e ↦
      rw e (
        inr (str_ne_of_test t.refresh_token old e, refl),
        update_rows-AreRenewals env access old ts,
      )
]

-- A row bound to a key is answered to a proof by that key only.
abbrev IsBound : Option String → Option String → Type 0
IsBound stored proof = (stored ≡ none) ⊎ ((jkt : String) × (stored ≡ some jkt) × (proof ≡ some jkt))

check_jkt-IsBound :
    (stored proof : Option String) → check_jkt stored proof ≡ none → IsBound stored proof
unfolding check_jkt
check_jkt-IsBound none proof e = inl refl
check_jkt-IsBound (some jkt) none e = absurd (ground arith)
check_jkt-IsBound (some jkt) (some given) e =
    inr (jkt, refl, ap some (sym ((eq_iff jkt given).0 (ground arith))))

-- A session lives two weeks without authentication of the client and two years with it, its refresh
-- token two weeks and ninety days.
abbrev IsYoung : ℕ → OauthToken → Type 0
IsYoung now t =
    ((t.client_auth_method ≡ "none")
      × (now ≤ t.created_at + 14 * (24 * 3600 * 10 ^ 9))
      × (now ≤ t.updated_at + 14 * (24 * 3600 * 10 ^ 9)))
    ⊎ ((t.client_auth_method ≢ "none")
        × (now ≤ t.created_at + 730 * (24 * 3600 * 10 ^ 9))
        × (now ≤ t.updated_at + 90 * (24 * 3600 * 10 ^ 9)))

get_session_age_from_token-IsYoung :
    (now : ℕ) (t : OauthToken)
    → (get_session_age_from_token now t).0 ≡ false
    → (get_session_age_from_token now t).1 ≡ false
    → IsYoung now t
unfolding get_session_age_from_token
get_session_age_from_token-IsYoung now t a b =
    elim (Bool-cases (str_eq t.client_auth_method "none")) [
      | inl public ↦ inl ((eq_iff t.client_auth_method "none").0 public, ground arith, ground arith)
      | inr private ↦
          inr (str_ne_of_test t.client_auth_method "none" private, ground arith, ground arith)
    ]

-- What a refresh has shown of the stored row.
pub record IsRefreshed (env : Env) (client : Client) (old : String) (t : OauthToken) (db after : Db)
    (res : OauthTokenResponse) : Type 0 where
  pub own : client.client_id ≡ t.client_id
  pub method : client.auth_method ≡ t.client_auth_method
  pub bound : IsBound t.parameters.dpop_jkt client.proof_jkt
  pub young : IsYoung env.now t
  pub claims : Claims
  pub access : IsAccess env t.sub t.client_id t.parameters claims
  pub signed : env.sign_internal_jwt claims ≡ some res.access_token
  pub answer : res.refresh_token ≡ env.new_refresh_token
  pub renewed_rows : AreRenewals env res.access_token old db.oauth_tokens after.oauth_tokens

rotate_token-IsRefreshed :
    (env : Env) (client : Client) (old : String) (t : OauthToken) (db after : Db)
    (res : OauthTokenResponse)
    → rotate_token env client old t db ≡ (ok res, after)
    → IsRefreshed env client old t db after res
      × (after.oauth_tokens ≡ update_rows env res.access_token old db.oauth_tokens)
unfolding rotate_token
rotate_token-IsRefreshed env client old t db after res e =
    let p = t.parameters in
    let (a, e1) =
      went_on (not (str_eq client.client_id t.client_id)) client_mismatch _ res db after e in
    let (b, e2) =
      went_on (not (str_eq client.auth_method t.client_auth_method)) method_mismatch _ res db after
        e1 in
    let (c, e3) = not_stopped (check_jkt p.dpop_jkt client.proof_jkt) _ res db after e2 in
    let age = get_session_age_from_token env.now t in
    let (d, e4) = went_on age.0 session_expired _ res db after e3 in
    let (f, e5) = went_on age.1 refresh_expired _ res db after e4 in
    let (g, e6) =
      went_on (client.dpop_bound_access_tokens && not (is_some p.dpop_jkt)) jkt_required _ res db
        after e5 in
    let claims = claims_for env t.sub p t.client_id in
    let (access, y, e7) = had (env.sign_internal_jwt claims) server_error _ res db after e6 in
    elim (Bool-cases (occupied env access old db.oauth_tokens)) [
      | inl clash ↦ absurd (ground arith)
      | inr free ↦
          let access_is : access ≡ res.access_token = ground arith in
          let updated : after.oauth_tokens ≡ update_rows env res.access_token old db.oauth_tokens =
            ground arith in
          (
            record {
              own = (eq_iff client.client_id t.client_id).0 (ground arith);
              method = (eq_iff client.auth_method t.client_auth_method).0 (ground arith);
              bound = check_jkt-IsBound p.dpop_jkt client.proof_jkt c;
              young = get_session_age_from_token-IsYoung env.now t d f;
              claims = claims_for env t.sub p t.client_id;
              access = claims_for-IsAccess env t.sub t.client_id p;
              signed = y ∙ ap some access_is;
              answer = ground arith;
              renewed_rows =
                  subst (AreRenewals env res.access_token old db.oauth_tokens) (sym updated)
                    (update_rows-AreRenewals env res.access_token old db.oauth_tokens);
            },
            updated,
          )
    ]

-- Also the rows, as the code computes them.
refresh_grant-IsRefreshed_rows :
    (env : Env) (client : Client) (req : OauthTokenRequest) (db after : Db)
    (res : OauthTokenResponse)
    → refresh_grant env client req db ≡ (ok res, after)
    → (old : String) × (req.refresh_token ≡ some old)
      × IsRefreshed env client old (scan_refresh old db.oauth_tokens) db after res
      × (after.oauth_tokens ≡ update_rows env res.access_token old db.oauth_tokens)
unfolding refresh_grant
refresh_grant-IsRefreshed_rows env client req db after res e =
    let (old, o, e1) = had req.refresh_token missing_parameter _ res db after e in
    let (refreshed, rows) =
      rotate_token-IsRefreshed env client old (scan_refresh old db.oauth_tokens) db after res e1 in
    (old, o, refreshed, rows)

-- A refresh is granted only for a row of the client that asks, with the same method of
-- authentication, with a proof by the key that the row is bound to, if any, and within two weeks of
-- the session's start and of the last refresh, or two years and ninety days for a client that
-- authenticates. The signed claims have the row's account, client, scope and key, and an hour to go;
-- every row that had the token has the answer's tokens and times and is otherwise as before, and all
-- the other rows are as before.
pub refresh_grant-IsRefreshed :
    (env : Env) (client : Client) (req : OauthTokenRequest) (db after : Db)
    (res : OauthTokenResponse)
    → refresh_grant env client req db ≡ (ok res, after)
    → (old : String) × (req.refresh_token ≡ some old)
      × IsRefreshed env client old (scan_refresh old db.oauth_tokens) db after res
refresh_grant-IsRefreshed env client req db after res e =
    let (old, o, refreshed, rows) = refresh_grant-IsRefreshed_rows env client req db after res e in
    (old, o, refreshed)

-- A refresh token that was rotated is spent: where the new one differs, every later request with the
-- old one is refused and changes nothing.
pub refresh_grant-once :
    (env later : Env) (client other : Client) (req again : OauthTokenRequest) (old : String)
    (db after : Db) (res : OauthTokenResponse)
    → req.refresh_token ≡ some old
    → again.refresh_token ≡ some old
    → env.new_refresh_token ≢ old
    → other.client_id ≢ ""
    → refresh_grant env client req db ≡ (ok res, after)
    → refresh_grant later other again after ≡ (err client_mismatch, after)
unfolding refresh_grant rotate_token
refresh_grant-once env later client other req again old db after res e f ne named ran =
    let (same, o, g, updated) = refresh_grant-IsRefreshed_rows env client req db after res ran in
    let same_is : same ≡ old = ground arith in
    let stored =
      updated ∙ ap (λ (w : String). update_rows env res.access_token w db.oauth_tokens) same_is in
    let gone : scan_refresh old after.oauth_tokens ≡ zero_token =
      ap (scan_refresh old) stored ∙ scan_updated env res.access_token old db.oauth_tokens ne in
    rw (f, refresh_grant, gone, rotate_token, str_eq_ne other.client_id "" named) refl

-- A form value that is missing or empty is no parameter.
abbrev form_value : (String → String) → String → Option String
form_value form name = if str_eq (form name) "" then none else some (form name)

unfoldable pub token_request : (String → String) → OauthTokenRequest
token_request form = record {
  grant_type = form "grant_type";
  code = form_value form "code";
  code_verifier = form_value form "code_verifier";
  redirect_uri = form_value form "redirect_uri";
  refresh_token = form_value form "refresh_token";
}

-- So no request that was read from a form has an empty redirect_uri.
pub token_request-redirect_uri :
    (form : String → String) → (token_request form).redirect_uri ≢ some ""
unfolding token_request
token_request-redirect_uri form e = elim (Bool-cases (str_eq (form "redirect_uri") "")) [
  | inl empty ↦ ground arith
  | inr given ↦ ground (arith, str_ne_of_test (form "redirect_uri") "" given)
]

abbrev is_in : String → List String → Bool
is_in s [] = false
is_in s (x ∷ xs) = str_eq x s || is_in s xs

-- The endpoint behind AuthenticateClient.
unfoldable pub handle_oauth_token :
    Env → Client → OauthTokenRequest → Action Db TokenError OauthTokenResponse
unfolding authorization_code refresh_grant
handle_oauth_token env client req db =
    let by_code = authorization_code env client req db in
    let by_refresh = refresh_grant env client req db in
    if not (is_in req.grant_type client.grant_types)
    then (err unsupported_grant, db)
    else if str_eq req.grant_type "authorization_code"
    then by_code
    else if str_eq req.grant_type "refresh_token"
    then by_refresh
    else (err unsupported_grant, db)
