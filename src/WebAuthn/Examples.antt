-- ===== src/WebAuthn/Examples.antt =====
-- Tests of server/webauthn.go at a concrete registration and assertion, with stand-ins for the
-- libraries, and the theorems applied there.
use vow.Prelude.{
  ◌+◌, ◌-◌, ◌≡◌, refl, arith, String, str_eq, true, Option, none, some, [], ◌∷◌, ◌++◌, replicate,
  Bytes, ok, if◌then◌else◌, ◌==◌, length, take, drop,
}
use vow.WebAuthn.BigEndian.{agree, digits, big_bytes, set_bytes_from, set_bytes, pad}
use vow.WebAuthn.Libraries.{ℤ, pos, negsuc, Libraries}
use vow.WebAuthn.Registration.{
  parse_cose_key, parse_auth_data, IsAttested, parse_auth_data-IsParsed,
}
use vow.WebAuthn.Assertion.{
  der_to_raw_ecdsa, der_to_raw_ecdsa-roundtrip, decompress_p256, verify_assertion, IsAsserted,
  verify_assertion-IsAsserted,
}
use vow.WebAuthn.Response.{
  Incoming, verify_webauthn_sign_response, IsSigned, verify_webauthn_sign_response-IsSigned,
}

abbrev entries : ℤ → Option Bytes
entries (pos n) = if n == 1 then some (1 ∷ []) else none
entries (negsuc n) = some ((2 + n) ∷ [])

abbrev number_of : Bytes → Option ℤ
number_of [] = none
number_of (b ∷ bs) = some (pos (3 - b))

abbrev decoded : String → Option Bytes
decoded s =
    if str_eq s "auth"
    then some (replicate 37 97)
    else if str_eq s "commit"
    then some (replicate 64 115)
    else some (1 ∷ 2 ∷ [])

abbrev pub lib : Libraries
lib = record {
  raw_url_decode = decoded;
  url_decode = λ s. none;
  unmarshal_client_data =
      λ b. some (record { type_ = "webauthn.get"; challenge = "pay"; origin = "" });
  sha256 = λ b. replicate 32 97;
  unmarshal_attestation = λ b. some b;
  unmarshal_map = λ b. some entries;
  unmarshal_int = number_of;
  unmarshal_bytes = λ b. some (replicate 32 9);
  unmarshal_asn1 = λ b. some ((pos 300, pos 4), []);
  Key = Unit;
  unmarshal_compressed = λ b. some (1, 2);
  parse_uncompressed = λ b. some tt;
  verify = λ k d r s. r == 300;
  K256 = Unit;
  parse_public_bytes_k256 = λ b. some tt;
  hash_and_verify_lenient = λ k m s. true;
}

abbrev registered : Bytes
registered = replicate 32 0 ++ (64 ∷ []) ++ replicate 20 0 ++ (0 ∷ 2 ∷ 8 ∷ 9 ∷ 5 ∷ [])

parses_registered : parse_auth_data lib registered ≡ ok (3 ∷ replicate 32 9, 8 ∷ 9 ∷ [])
unfolding parse_auth_data parse_cose_key
parses_registered = refl

parse_auth_data-IsParsed_example : IsAttested lib registered (3 ∷ replicate 32 9) (8 ∷ 9 ∷ [])
parse_auth_data-IsParsed_example =
    parse_auth_data-IsParsed lib registered (ok (3 ∷ replicate 32 9, 8 ∷ 9 ∷ [])) parses_registered

abbrev raw : Bytes
raw = replicate 30 0 ++ (1 ∷ 44 ∷ []) ++ replicate 31 0 ++ (4 ∷ [])

der_to_raw_ecdsa-roundtrip_example :
    (x : Bytes) × (der_to_raw_ecdsa lib [] ≡ ok x)
    × (length x ≡ 64)
    × (set_bytes (take 32 x) ≡ 300)
    × (set_bytes (drop 32 x) ≡ 4)
der_to_raw_ecdsa-roundtrip_example =
    der_to_raw_ecdsa-roundtrip lib [] (pos 300) (pos 4) refl (omega arith) (omega arith)

asserts :
    verify_assertion lib (replicate 33 2) (1 ∷ 2 ∷ []) (1 ∷ 2 ∷ []) (replicate 37 97) [] "host"
    ≡ ok raw
unfolding verify_assertion der_to_raw_ecdsa decompress_p256 agree big_bytes digits set_bytes
    set_bytes_from pad
asserts = refl

verify_assertion-IsAsserted_example :
    IsAsserted lib (replicate 33 2) (1 ∷ 2 ∷ []) (1 ∷ 2 ∷ []) (replicate 37 97) [] raw "host"
verify_assertion-IsAsserted_example =
    verify_assertion-IsAsserted lib (replicate 33 2) (1 ∷ 2 ∷ []) (1 ∷ 2 ∷ []) (replicate 37 97) []
      raw "host" asserts

abbrev pub answer : Incoming
answer = record {
  type_ = "sign_response";
  request_id = "id";
  authenticator_data = "auth";
  client_data_json = "{}";
  signature = "der";
  commit_signature = "commit";
  jwt_payload = "";
}

pub verifies_answer :
    verify_webauthn_sign_response lib (replicate 33 2) [] "pay" answer "host"
    ≡ ok (replicate 64 115)
unfolding verify_webauthn_sign_response verify_assertion der_to_raw_ecdsa decompress_p256 agree
    big_bytes digits set_bytes set_bytes_from pad
verifies_answer = refl

verify_webauthn_sign_response-IsSigned_example :
    IsSigned lib (replicate 33 2) [] "pay" answer "host" (replicate 64 115)
verify_webauthn_sign_response-IsSigned_example =
    verify_webauthn_sign_response-IsSigned lib (replicate 33 2) [] "pay" answer "host"
      (replicate 64 115) verifies_answer
