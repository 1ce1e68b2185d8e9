-- ===== src/WebAuthn/Response.antt =====
-- server/handle_signer_connect.go: verifyWebAuthnSignResponse and isTokenExpired.
use vow.Prelude.{
  ℕ, ◌≡◌, sym, ◌∙◌, ap, arith, Bool, true, false, not, ◌||◌, ◌&&◌, Option, none, some, String,
  str_eq, ltb, ◌==◌, length, Bytes, Result, ok, err,
}
use vow.Prelude.Results.{◌>>=◌, refuse_if, require, bind_ok, passed, required}
use vow.WebAuthn.Libraries.{ℤ, pos, negsuc, Libraries}
use vow.WebAuthn.Assertion.{
  AssertionError, verify_assertion, IsAsserted, verify_assertion-IsAsserted,
}

-- wsIncoming
pub record Incoming : Type 0 where
  pub type_ : String
  pub request_id : String
  pub authenticator_data : String
  pub client_data_json : String
  pub signature : String
  pub commit_signature : String
  pub jwt_payload : String

pub data ResponseError : Type 0 where
  missing_field bad_encoding bad_length bad_signing_key bad_commit_signature : ResponseError
  bad_assertion : AssertionError → ResponseError

abbrev wrap : Result AssertionError Bytes → Result ResponseError Bytes
wrap (ok raw) = ok raw
wrap (err e) = err (bad_assertion e)

unfoldable pub verify_webauthn_sign_response :
    Libraries → Bytes → Bytes → String → Incoming → String → Result ResponseError Bytes
verify_webauthn_sign_response lib auth_key signing_key payload inc rp_id = do
  _ ←
      refuse_if
        (str_eq inc.authenticator_data ""
          || str_eq inc.client_data_json ""
          || str_eq inc.signature "")
        missing_field
  _ ← refuse_if (str_eq inc.commit_signature "") missing_field
  challenge ← require (lib.raw_url_decode payload) bad_encoding
  client_data ← require (lib.raw_url_decode inc.client_data_json) bad_encoding
  auth_data ← require (lib.raw_url_decode inc.authenticator_data) bad_encoding
  der ← require (lib.raw_url_decode inc.signature) bad_encoding
  _ ← wrap (verify_assertion lib auth_key challenge client_data auth_data der rp_id)
  commit_sig ← require (lib.raw_url_decode inc.commit_signature) bad_encoding
  _ ← refuse_if (not (length commit_sig == 64)) bad_length
  key ← require (lib.parse_public_bytes_k256 signing_key) bad_signing_key
  _ ← refuse_if (not (lib.hash_and_verify_lenient key challenge commit_sig)) bad_commit_signature
  ok commit_sig

-- The claims of a token whose payload decodes, as encoding/json and strings.SplitN give them: none
-- where there are not three parts or the payload does not decode, else `exp`, 0 where it is missing.
unfoldable pub is_token_expired : ℕ → Option ℤ → Bool
is_token_expired now none = true
is_token_expired now (some (pos exp)) = ltb 0 exp && ltb exp now
is_token_expired now (some (negsuc exp)) = false

module _ (lib : Libraries) where
  -- The signature that is handed on: 64 bytes that verify with the account's signing key over the
  -- very challenge that a WebAuthn assertion by the account's passkey answered. The assertion is what
  -- the message's fields decode to: its client data, its authenticator data and its signature.
  pub record IsSigned (auth_key signing_key : Bytes) (payload : String) (inc : Incoming)
      (rp_id : String) (sig : Bytes) : Type 0 where
    pub challenge : Bytes
    pub challenge_is : lib.raw_url_decode payload ≡ some challenge
    pub client_data : Bytes
    pub client_data_is : lib.raw_url_decode inc.client_data_json ≡ some client_data
    pub auth_data : Bytes
    pub auth_data_is : lib.raw_url_decode inc.authenticator_data ≡ some auth_data
    pub der : Bytes
    pub der_is : lib.raw_url_decode inc.signature ≡ some der
    pub raw : Bytes
    pub asserted : IsAsserted lib auth_key challenge client_data auth_data der raw rp_id
    pub sig_is : lib.raw_url_decode inc.commit_signature ≡ some sig
    pub width : length sig ≡ 64
    pub key : lib.K256
    pub key_is : lib.parse_public_bytes_k256 signing_key ≡ some key
    pub verified : lib.hash_and_verify_lenient key challenge sig ≡ true

  unwrap : (r : Result AssertionError Bytes) (raw : Bytes) → wrap r ≡ ok raw → r ≡ ok raw
  unwrap (ok x) raw e = ap ok (ground arith)
  unwrap (err x) raw e = absurd (ground arith)

  -- A sign_response is answered with a signature only if the recorded payload decodes to a challenge,
  -- its fields to client data, authenticator data and a signature which together are a WebAuthn
  -- assertion by the passkey for that challenge and this host, and its commit signature to 64 bytes
  -- that verify over the challenge with the account's signing key; these are what is returned.
  pub verify_webauthn_sign_response-IsSigned :
      (auth_key signing_key : Bytes) (payload : String) (inc : Incoming) (rp_id : String)
      (sig : Bytes)
      → verify_webauthn_sign_response lib auth_key signing_key payload inc rp_id ≡ ok sig
      → IsSigned auth_key signing_key payload inc rp_id sig
  unfolding verify_webauthn_sign_response
  verify_webauthn_sign_response-IsSigned auth_key signing_key payload inc rp_id sig e =
      let (present, e1) =
        passed
          (str_eq inc.authenticator_data ""
            || str_eq inc.client_data_json ""
            || str_eq inc.signature "")
          missing_field _ sig e in
      let (given, e2) = passed (str_eq inc.commit_signature "") missing_field _ sig e1 in
      let (challenge, c, e3) = required (lib.raw_url_decode payload) bad_encoding _ sig e2 in
      let (client_data, cd, e4) =
        required (lib.raw_url_decode inc.client_data_json) bad_encoding _ sig e3 in
      let (auth_data, ad, e5) =
        required (lib.raw_url_decode inc.authenticator_data) bad_encoding _ sig e4 in
      let (der, d, e6) = required (lib.raw_url_decode inc.signature) bad_encoding _ sig e5 in
      let assertion = verify_assertion lib auth_key challenge client_data auth_data der rp_id in
      let (raw, asserted, e7) = bind_ok (wrap assertion) _ sig e6 in
      let (got, g, e8) = required (lib.raw_url_decode inc.commit_signature) bad_encoding _ sig e7 in
      let (wide, e9) = passed (not (length got == 64)) bad_length _ sig e8 in
      let (key, k, e10) =
        required (lib.parse_public_bytes_k256 signing_key) bad_signing_key _ sig e9 in
      let (v, e11) =
        passed (not (lib.hash_and_verify_lenient key challenge got)) bad_commit_signature _ sig
          e10 in
      let same : got ≡ sig = ground arith in
      record {
        challenge = challenge;
        challenge_is = c;
        client_data = client_data;
        client_data_is = cd;
        auth_data = auth_data;
        auth_data_is = ad;
        der = der;
        der_is = d;
        raw = raw;
        asserted =
            verify_assertion-IsAsserted lib auth_key challenge client_data auth_data der raw rp_id
              (unwrap assertion raw asserted);
        sig_is = g ∙ ap some same;
        width = ap (length {A = ℕ}) (sym same) ∙ ground arith;
        key = key;
        key_is = k;
        verified = ap (lib.hash_and_verify_lenient key challenge) (sym same) ∙ ground arith;
      }
