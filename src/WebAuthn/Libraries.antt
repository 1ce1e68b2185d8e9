-- ===== src/WebAuthn/Libraries.antt =====
-- What server/webauthn.go calls: encoding/json, encoding/base64, crypto/sha256, encoding/asn1,
-- crypto/elliptic, crypto/ecdsa, fxamacker/cbor and atcrypto, as the results that the code reads.
use vow.Prelude.{ℕ, String, Bool, Option, Bytes}

pub data ℤ : Type 0 where
  pos negsuc : ℕ → ℤ

-- encoding/json's view of clientDataJSON.
pub record ClientDataJson : Type 0 where
  pub type_ : String
  pub challenge : String
  pub origin : String

pub record Libraries : Type 1 where
  pub raw_url_decode : String → Option Bytes
  pub url_decode : String → Option Bytes
  pub unmarshal_client_data : Bytes → Option ClientDataJson
  pub sha256 : Bytes → Bytes
  -- cbor.Unmarshal into an attestationObject, of which the authData is read
  pub unmarshal_attestation : Bytes → Option Bytes
  -- into map[int]cbor.RawMessage, into int and into []byte
  pub unmarshal_map : Bytes → Option (ℤ → Option Bytes)
  pub unmarshal_int : Bytes → Option ℤ
  pub unmarshal_bytes : Bytes → Option Bytes
  -- asn1.Unmarshal into two big integers: these and the rest
  pub unmarshal_asn1 : Bytes → Option ((ℤ × ℤ) × Bytes)
  pub Key : Type 0
  pub unmarshal_compressed : Bytes → Option (ℕ × ℕ)
  pub parse_uncompressed : Bytes → Option Key
  pub verify : Key → Bytes → ℕ → ℕ → Bool
  pub K256 : Type 0
  pub parse_public_bytes_k256 : Bytes → Option K256
  pub hash_and_verify_lenient : K256 → Bytes → Bytes → Bool
