-- ===== src/Authorize.antt =====
-- server/handle_oauth_authorize.go: the approval of an authorization request (handleOauthAuthorizePost),
-- with the request URIs of oauth/helpers.go. Texts are cut by bytes, as Go does. Times are in
-- nanoseconds, and 0 is the zero time. Between the SELECT of a handler and its UPDATE, other
-- handlers may write their approvals.
pub mod Once
mod Examples
use vow.Prelude.{
  ℕ, ◌+◌, String, str_eq, str_append, Bool, true, false, not, ◌||◌, Option, none, some, List, [],
  ◌∷◌, if◌then◌else◌, ltb, length, drop, Bytes, bytes, Result, ok, err,
}
use vow.Prelude.Results.{require}
use vow.Prelude.Action.{Action, pure, fail, need, lift, gets, modify, stop_if, ◌>>=◌, ◌>>◌}

-- The fields of provider.ParRequest that the handler reads.
pub record Parameters : Type 0 where
  pub state : String
  pub redirect_uri : String
  pub response_type : String
  pub response_mode : Option String

pub record AuthorizationRequest : Type 0 where
  pub request_id : String
  pub client_id : String
  pub parameters : Parameters
  pub expires_at : ℕ
  pub sub : Option String
  pub code : Option String
  pub accepted : Bool
  pub ip : String

abbrev pub zero_request : AuthorizationRequest
zero_request = record {
  request_id = "";
  client_id = "";
  parameters = record { state = ""; redirect_uri = ""; response_type = ""; response_mode = none };
  expires_at = 0;
  sub = none;
  code = none;
  accepted = false;
  ip = "";
}

pub data AuthorizeError : Type 0 where
  signed_out bad_uri server_error expired already_authorized : AuthorizeError

-- Where the browser is sent: to the page of the client that was rejected, or back to it with a code.
pub data Sent : Type 0 where
  rejected : String → Sent
  approved : String → String → Sent

pub record Form : Type 0 where
  pub request_uri : String
  pub accept_or_reject : String

-- The session's account, the clock, a fresh code, the address of the browser, the page of a client
-- that GetClient finds, and net/url.
pub record Env : Type 0 where
  pub session_did : Option String
  pub now : ℕ
  pub code : String
  pub ip : String
  pub hostname : String
  pub client_uri : String → Option String
  pub query_escape : String → String
  pub query_unescape : Bytes → Option String
  pub encode_values : List (String × String) → String

abbrev pub request_uri_prefix : String
request_uri_prefix = "urn:ietf:params:oauth:request_uri:"

unfoldable pub encode_request_uri : Env → String → String
encode_request_uri env id = str_append request_uri_prefix (env.query_escape id)

-- The prefix is cut off, and not compared.
unfoldable pub decode_request_uri : Env → String → Option String
decode_request_uri env uri =
    if ltb (length (bytes uri)) (length (bytes request_uri_prefix))
    then none
    else env.query_unescape (drop (length (bytes request_uri_prefix)) (bytes uri))

unfoldable pub scan_request : String → List AuthorizationRequest → AuthorizationRequest
scan_request id [] = zero_request
scan_request id (r ∷ rs) = if str_eq r.request_id id then r else scan_request id rs

abbrev pub approve : String → String → String → AuthorizationRequest → AuthorizationRequest
approve did code ip r = record r { sub = some did; code = some code; accepted = true; ip = ip }

-- UPDATE ... SET sub = ?, code = ?, accepted = ?, ip = ? WHERE request_id = ?
unfoldable pub update_request :
    String → String → String → String → List AuthorizationRequest → List AuthorizationRequest
update_request did code ip id [] = []
update_request did code ip id (r ∷ rs) =
    (if str_eq r.request_id id then approve did code ip r else r) ∷ update_request did code ip id rs

-- The UPDATE of another handler: whose approval, with which code, for which request.
pub record Approval : Type 0 where
  pub did : String
  pub code : String
  pub ip : String
  pub id : String

unfoldable pub interleave : List Approval → List AuthorizationRequest → List AuthorizationRequest
unfolding update_request
interleave [] rows = rows
interleave (w ∷ ws) rows = interleave ws (update_request w.did w.code w.ip w.id rows)

abbrev by_type : Parameters → String
by_type p = if str_eq p.response_type "code" then "?" else "#"

unfoldable pub hash_or_question : Parameters → String
hash_or_question p = elim p.response_mode [
  | none ↦ by_type p
  | some mode ↦
      if str_eq mode "fragment" then "#" else if str_eq mode "query" then "?" else by_type p
]

unfoldable pub redirect_uri : Env → Parameters → String
unfolding hash_or_question
redirect_uri env p = str_append p.redirect_uri (
    str_append (hash_or_question p) (
      env.encode_values (
        ("state", p.state)
        ∷ ("iss", str_append "https://" env.hostname)
        ∷ ("code", env.code)
        ∷ [])))

abbrev pub is_some : Option String → Bool
is_some none = false
is_some (some s) = true

abbrev pub Change : Type 0 → Type 0
Change A = Action (List AuthorizationRequest) AuthorizeError A

unfoldable pub authorize_approve :
    Env → List Approval → String → String → AuthorizationRequest → Change Sent
unfolding update_request redirect_uri
authorize_approve env others did id r = do
  _ ← stop_if (ltb r.expires_at env.now) expired
  _ ← stop_if (is_some r.sub || is_some r.code) already_authorized
  _ ← modify (interleave others)
  _ ← modify (update_request did env.code env.ip id)
  pure (approved (redirect_uri env r.parameters) env.code)

unfoldable pub authorize_decided :
    Env → List Approval → String → String → AuthorizationRequest → String → Form → Change Sent
unfolding authorize_approve
authorize_decided env others did id r page form = elim (str_eq form.accept_or_reject "reject") [
  | true ↦ pure (rejected page)
  | false ↦ authorize_approve env others did id r
]

-- `others` are the approvals that are written between its SELECT and its UPDATE.
unfoldable pub authorize_post : Env → List Approval → Form → Change Sent
unfolding decode_request_uri scan_request authorize_decided
authorize_post env others form = do
  did ← need env.session_did signed_out
  id ← need (decode_request_uri env form.request_uri) bad_uri
  r ← gets (scan_request id)
  page ← need (env.client_uri r.client_id) server_error
  authorize_decided env others did id r page form
