-- ===== src/Authorize/Once.antt =====
-- server/handle_oauth_authorize.go: a request is approved once, and for the account of the session.
use vow.Prelude.{
  ◌<◌, ◌≤◌, ◌≡◌, ◌≢◌, refl, ap, sym, ◌∙◌, arith, String, str_eq, Bool, true, false, ◌||◌,
  Bool-cases, inl, inr, some, List, [], ◌∷◌, ltb, Result, ok,
}
use vow.Prelude.Action.{had, went_on}
use vow.Authorize.{
  Approval, interleave, AuthorizationRequest, AuthorizeError, Sent, approved, Form, Env,
  decode_request_uri, scan_request, update_request, redirect_uri, is_some, authorize_approve,
  authorize_decided, authorize_post, signed_out, bad_uri, server_error, expired, already_authorized,
}

abbrev pub Outcome : Type 0
Outcome = Result AuthorizeError Sent × List AuthorizationRequest

-- What stands behind a code that was sent out.
pub record IsApproved (env : Env) (others : List Approval) (form : Form)
    (rows after : List AuthorizationRequest) (uri code : String) : Type 0 where
  pub did : String
  pub session : env.session_did ≡ some did
  pub id : String
  pub named : decode_request_uri env form.request_uri ≡ some id
  pub live : env.now ≤ (scan_request id rows).expires_at
  pub fresh : is_some (scan_request id rows).sub || is_some (scan_request id rows).code ≡ false
  pub code_is : code ≡ env.code
  pub uri_is : uri ≡ redirect_uri env (scan_request id rows).parameters
  pub written : after ≡ update_request did env.code env.ip id (interleave others rows)

uri_of : Outcome → String
uri_of (ok (approved u c), rows) = u
uri_of r = ""

code_of : Outcome → String
code_of (ok (approved u c), rows) = c
code_of r = ""

was_approved : Outcome → Bool
was_approved (ok (approved u c), rows) = true
was_approved r = false

pub authorize_post-IsApproved :
    (env : Env) (others : List Approval) (form : Form) (rows after : List AuthorizationRequest)
    (uri code : String)
    → authorize_post env others form rows ≡ (ok (approved uri code), after)
    → IsApproved env others form rows after uri code
unfolding authorize_post authorize_approve uri_of code_of was_approved
authorize_post-IsApproved env others form rows after uri code e =
    let sent = approved uri code in
    let (did, session, e1) = had env.session_did signed_out _ sent rows after e in
    let (id, named, e2) =
      had (decode_request_uri env form.request_uri) bad_uri _ sent rows after e1 in
    let r = scan_request id rows in
    let (page, known, e3) = had (env.client_uri r.client_id) server_error _ sent rows after e2 in
    by_decision did session id named page e3 (str_eq form.accept_or_reject "reject") refl
  where
    by_decision :
        (did : String)
        → env.session_did ≡ some did
        → (id : String) → decode_request_uri env form.request_uri ≡ some id
        → (page : String)
        → authorize_decided env others did id (scan_request id rows) page form rows
          ≡ (ok (approved uri code), after)
        → (b : Bool) → str_eq form.accept_or_reject "reject" ≡ b
        → IsApproved env others form rows after uri code
    by_decision did session id named page e true is =
        let e0 = rw (authorize_decided, is) at e in absurd (ground (arith, ap was_approved e0))
    by_decision did session id named page e false is =
        let e0 = rw (authorize_decided, is) at e in
        let sent = approved uri code in
        let r = scan_request id rows in
        let (live, e1) = went_on (ltb r.expires_at env.now) expired _ sent rows after e0 in
        let (fresh, e2) =
          went_on (is_some r.sub || is_some r.code) already_authorized _ sent rows after e1 in
        record {
          did = did;
          session = session;
          id = id;
          named = named;
          live = ground arith;
          fresh = fresh;
          code_is = sym (ap code_of e2);
          uri_is = sym (ap uri_of e2);
          written = sym (ap (λ (z : Outcome). z.1) e2);
        }

-- A row stays, with its time, and keeps an account that it has.
abbrev IsKept : AuthorizationRequest → AuthorizationRequest → Type 0
IsKept r t = (t.expires_at ≡ r.expires_at) × (is_some r.sub || is_some t.sub ≡ is_some t.sub)

scan_request-update_request :
    (did code ip written id : String) (rows : List AuthorizationRequest)
    → 0 < (scan_request id rows).expires_at
    → IsKept (scan_request id rows) (scan_request id (update_request did code ip written rows))
unfolding scan_request update_request
scan_request-update_request did code ip written id [] h = absurd (omega (arith, h))
scan_request-update_request did code ip written id (r ∷ rs) h =
    elim (Bool-cases (str_eq r.request_id id)) [
      | inl this ↦ elim (Bool-cases (str_eq r.request_id written)) [
        | inl mine ↦ rw (this, mine, this) ground arith
        | inr other ↦ rw (this, other, this) ground arith
      ]
      | inr other ↦
          let h0 = rw (scan_request, other) at h in
          let rest = scan_request-update_request did code ip written id rs h0 in
          elim (Bool-cases (str_eq r.request_id written)) [
            | inl mine ↦ rw (other, mine, other) rest
            | inr theirs ↦ rw (other, theirs, other) rest
          ]
    ]

scan_request-interleave :
    (ws : List Approval) (id : String) (rows : List AuthorizationRequest)
    → 0 < (scan_request id rows).expires_at
    → IsKept (scan_request id rows) (scan_request id (interleave ws rows))
unfolding interleave
scan_request-interleave [] id rows h = ground arith
scan_request-interleave (w ∷ ws) id rows h =
    let first = scan_request-update_request w.did w.code w.ip w.id id rows h in
    let later =
      scan_request-interleave ws id (update_request w.did w.code w.ip w.id rows)
        (omega (arith, h, first.0)) in
    (later.0 ∙ first.0, ground (arith, first.1, later.1))

-- The row that was approved has an account.
scan_request-approved :
    (did code ip id : String) (rows : List AuthorizationRequest)
    → 0 < (scan_request id rows).expires_at
    → is_some (scan_request id (update_request did code ip id rows)).sub ≡ true
unfolding scan_request update_request
scan_request-approved did code ip id [] h = absurd (omega (arith, h))
scan_request-approved did code ip id (r ∷ rs) h = elim (Bool-cases (str_eq r.request_id id)) [
  | inl this ↦ rw (this, this) refl
  | inr other ↦
      let h0 = rw (scan_request, other) at h in
      rw (other, other) (scan_request-approved did code ip id rs h0)
]

-- A request is approved once, by all the handlers that read it afterwards. At any time but zero, a
-- code is sent out only for a request that has not expired and, when it was read, had no account and
-- no code; the rows then have the account of the session and this code for it, behind whatever
-- approvals other handlers have written since. Any approvals may be written after that, by handlers
-- that had read the request before: no handler that reads it from then on sends out a code for it,
-- under whatever URI that names it, for whatever account.
pub authorize_post-once :
    (env again : Env) (others later racing : List Approval) (form form2 : Form)
    (rows after : List AuthorizationRequest) (uri code uri2 code2 : String)
    → 0 < env.now
    → authorize_post env others form rows ≡ (ok (approved uri code), after)
    → decode_request_uri again form2.request_uri ≡ decode_request_uri env form.request_uri
    → IsApproved env others form rows after uri code
      × ((authorize_post again racing form2 (interleave later after)).0 ≢ ok (approved uri2 code2))
authorize_post-once env again others later racing form form2 rows after uri code uri2 code2 clock e
      same =
    let first = authorize_post-IsApproved env others form rows after uri code e in
    (
      first,
      λ e2.
          let then_rows = interleave later after in
          let second =
            authorize_post-IsApproved again racing form2 then_rows
              (authorize_post again racing form2 then_rows).1 uri2 code2
              (λ i. (e2 i, (authorize_post again racing form2 then_rows).1)) in
          let named : some second.id ≡ some first.id = sym second.named ∙ (same ∙ first.named) in
          let id_is : second.id ≡ first.id = ground arith in
          let there : 0 < (scan_request first.id rows).expires_at =
            omega (arith, clock, first.live) in
          let raced = scan_request-interleave others first.id rows there in
          let met = interleave others rows in
          let still : 0 < (scan_request first.id met).expires_at = omega (arith, there, raced.0) in
          let mine = update_request first.did env.code env.ip first.id met in
          let own =
            scan_request-update_request first.did env.code env.ip first.id first.id met still in
          let taken = scan_request-approved first.did env.code env.ip first.id met still in
          let kept = scan_request-interleave later first.id mine (omega (arith, still, own.0)) in
          let stale : is_some (scan_request first.id (interleave later mine)).sub ≡ true =
            ground (arith, kept.1, taken) in
          let row : scan_request second.id then_rows
              ≡ scan_request first.id (interleave later mine) =
            ap (λ (x : String). scan_request x then_rows) id_is
            ∙ ap (λ (x : List AuthorizationRequest). scan_request first.id (interleave later x))
                first.written in
          let clash =
            sym (ap (λ (r : AuthorizationRequest). is_some r.sub || is_some r.code) row)
            ∙ second.fresh in
          ground (arith, clash, stale),
    )
