-- ===== src/WebAuthn/Assertion.antt =====
-- server/webauthn.go: verifyAssertion, derToRawECDSA and decompressP256.
use vow.Prelude.{
  ℕ, ◌+◌, ◌-◌, ◌%◌, ◌^◌, ◌<◌, ◌≡◌, refl, sym, ◌∙◌, ap, arith, true, not, ◌||◌, Option, none, some,
  [], ◌∷◌, ◌++◌, String, str_eq, eq_iff, ltb, ◌==◌, length, take, take_all, drop, Bytes, bytes,
  Result, ok, length-append,
}
use vow.Prelude.Results.{◌>>=◌, refuse_if, require, bind_ok, passed, required}
use vow.WebAuthn.BigEndian.{
  byte_at, agree, agree-take, big_bytes, set_bytes, pad, length-pad, set_bytes-pad,
  set_bytes-big_bytes, length-big_bytes,
}
use vow.WebAuthn.Libraries.{ℤ, pos, negsuc, ClientDataJson, Libraries}

pub data AssertionError : Type 0 where
  bad_client_data wrong_type bad_challenge challenge_length challenge_mismatch short_data :
      AssertionError
  rp_id_mismatch no_user_presence bad_der trailing_bytes too_large bad_key bad_signature :
      AssertionError

-- Int.Bytes is that of the absolute value.
abbrev abs : ℤ → ℕ
abs (pos n) = n
abs (negsuc n) = 1 + n

unfoldable pub der_to_raw_ecdsa : Libraries → Bytes → Result AssertionError Bytes
der_to_raw_ecdsa lib der = do
  ((r, s), rest) ← require (lib.unmarshal_asn1 der) bad_der
  _ ← refuse_if (not (length rest == 0)) trailing_bytes
  let r_bytes = big_bytes (abs r)
  let s_bytes = big_bytes (abs s)
  _ ← refuse_if (ltb 32 (length r_bytes) || ltb 32 (length s_bytes)) too_large
  ok (pad 32 r_bytes ++ pad 32 s_bytes)

unfoldable pub decompress_p256 : (lib : Libraries) → Bytes → Result AssertionError lib.Key
decompress_p256 lib compressed = do
  _ ← refuse_if (not (length compressed == 33)) bad_key
  (x, y) ← require (lib.unmarshal_compressed compressed) bad_key
  require (lib.parse_uncompressed (4 ∷ (pad 32 (big_bytes x) ++ pad 32 (big_bytes y)))) bad_key

-- The challenge without padding, and with it as the fallback.
abbrev decode_challenge : Libraries → String → Option Bytes
decode_challenge lib challenge = elim (lib.raw_url_decode challenge) [
  | some got ↦ some got
  | none ↦ lib.url_decode challenge
]

unfoldable pub verify_assertion :
    Libraries → Bytes → Bytes → Bytes → Bytes → Bytes → String → Result AssertionError Bytes
unfolding der_to_raw_ecdsa decompress_p256
verify_assertion lib key expected_challenge client_data auth_data signature_der rp_id = do
  cd ← require (lib.unmarshal_client_data client_data) bad_client_data
  _ ← refuse_if (not (str_eq cd.type_ "webauthn.get")) wrong_type
  got ← require (decode_challenge lib cd.challenge) bad_challenge
  _ ← refuse_if (not (length got == length expected_challenge)) challenge_length
  _ ← refuse_if (not (agree (length expected_challenge) got expected_challenge)) challenge_mismatch
  _ ← refuse_if (ltb (length auth_data) 37) short_data
  _ ← refuse_if (not (agree 32 auth_data (lib.sha256 (bytes rp_id)))) rp_id_mismatch
  _ ← refuse_if (byte_at auth_data 32 % 2 == 0) no_user_presence
  raw ← der_to_raw_ecdsa lib signature_der
  pub_key ← decompress_p256 lib key
  let digest = lib.sha256 (auth_data ++ lib.sha256 client_data)
  let r = set_bytes (take 32 raw)
  let s = set_bytes (drop 32 raw)
  _ ← refuse_if (not (lib.verify pub_key digest r s)) bad_signature
  ok raw

take-append : (xs ys : Bytes) → take (length xs) (xs ++ ys) ≡ xs
take-append [] ys = refl
take-append (x ∷ xs) ys = ap (λ r. x ∷ r) (take-append xs ys)

drop-append : (xs ys : Bytes) → drop (length xs) (xs ++ ys) ≡ ys
drop-append [] ys = refl
drop-append (x ∷ xs) ys = drop-append xs ys

set_bytes-half : (n : ℕ) → set_bytes (pad 32 (big_bytes n)) ≡ n
unfolding pad
set_bytes-half n = set_bytes-pad (32 - length (big_bytes n)) (big_bytes n) ∙ set_bytes-big_bytes n

module _ (lib : Libraries) where
  -- A DER signature whose integers are below 2^256 is turned into 64 bytes, from the halves of
  -- which SetBytes reads the absolute values of the integers.
  pub der_to_raw_ecdsa-roundtrip :
      (der : Bytes) (r s : ℤ)
      → lib.unmarshal_asn1 der ≡ some ((r, s), [])
      → abs r < 256 ^ 32
      → abs s < 256 ^ 32
      → (raw : Bytes) × (der_to_raw_ecdsa lib der ≡ ok raw)
        × (length raw ≡ 64)
        × (set_bytes (take 32 raw) ≡ abs r)
        × (set_bytes (drop 32 raw) ≡ abs s)
  unfolding der_to_raw_ecdsa
  der_to_raw_ecdsa-roundtrip der r s e small_r small_s =
      let br = length-big_bytes (abs r) 32 small_r in
      let bs = length-big_bytes (abs s) 32 small_s in
      let left = pad 32 (big_bytes (abs r)) in
      let right = pad 32 (big_bytes (abs s)) in
      let wide = length-pad 32 (big_bytes (abs r)) br in
      (
        left ++ right,
        rw e (ground arith),
        omega (arith, length-append left right, wide, length-pad 32 (big_bytes (abs s)) bs),
        ap (λ (n : ℕ). set_bytes (take n (left ++ right))) (sym wide)
            ∙ (ap set_bytes (take-append left right) ∙ set_bytes-half (abs r)),
        ap (λ (n : ℕ). set_bytes (drop n (left ++ right))) (sym wide)
            ∙ (ap set_bytes (drop-append left right) ∙ set_bytes-half (abs s)),
      )

  -- What an assertion that verifyAssertion accepts has shown.
  pub record IsAsserted (key challenge client_data auth_data signature_der raw : Bytes)
      (rp_id : String) : Type 0 where
    pub cd : ClientDataJson
    pub parsed : lib.unmarshal_client_data client_data ≡ some cd
    pub type_ : cd.type_ ≡ "webauthn.get"
    pub challenged : decode_challenge lib cd.challenge ≡ some challenge
    pub for_rp : take 32 auth_data ≡ take 32 (lib.sha256 (bytes rp_id))
    pub present : byte_at auth_data 32 % 2 ≡ 1
    pub signature : der_to_raw_ecdsa lib signature_der ≡ ok raw
    pub public_key : lib.Key
    pub key_is : decompress_p256 lib key ≡ ok public_key
    pub verified :
        lib.verify public_key
          (lib.sha256 (auth_data ++ lib.sha256 client_data))
          (set_bytes (take 32 raw))
          (set_bytes (drop 32 raw))
        ≡ true

  -- An accepted assertion is of type webauthn.get, answers exactly the expected challenge, is made
  -- for the relying party with the user present, and its signature over the authenticator data and
  -- the hash of the client data verifies with the given key; the result is that signature.
  pub verify_assertion-IsAsserted :
      (key challenge client_data auth_data signature_der raw : Bytes) (rp_id : String)
      → verify_assertion lib key challenge client_data auth_data signature_der rp_id ≡ ok raw
      → IsAsserted key challenge client_data auth_data signature_der raw rp_id
  unfolding verify_assertion
  verify_assertion-IsAsserted key challenge client_data auth_data signature_der raw rp_id e =
      let (cd, parsed, e1) =
        required (lib.unmarshal_client_data client_data) bad_client_data _ raw e in
      let (typed, e2) = passed (not (str_eq cd.type_ "webauthn.get")) wrong_type _ raw e1 in
      let (got, decoded, e3) =
        required (decode_challenge lib cd.challenge) bad_challenge _ raw e2 in
      let (long, e4) = passed (not (length got == length challenge)) challenge_length _ raw e3 in
      let (same, e5) =
        passed (not (agree (length challenge) got challenge)) challenge_mismatch _ raw e4 in
      let (enough, e6) = passed (ltb (length auth_data) 37) short_data _ raw e5 in
      let (hash, e7) =
        passed (not (agree 32 auth_data (lib.sha256 (bytes rp_id)))) rp_id_mismatch _ raw e6 in
      let (up, e8) = passed (byte_at auth_data 32 % 2 == 0) no_user_presence _ raw e7 in
      let (sig, signed, e9) = bind_ok (der_to_raw_ecdsa lib signature_der) _ raw e8 in
      let (public_key, key_is, e10) = bind_ok (decompress_p256 lib key) _ raw e9 in
      let digest = lib.sha256 (auth_data ++ lib.sha256 client_data) in
      let (v, e11) =
        passed
          (not (lib.verify public_key digest (set_bytes (take 32 sig)) (set_bytes (drop 32 sig))))
          bad_signature _ raw e10 in
      let sig_is : sig ≡ raw = ground arith in
      let got_is : got ≡ challenge =
        sym (take_all (length challenge) got (ground arith))
        ∙ (agree-take (length challenge) got challenge (ground arith)
            ∙ take_all (length challenge) challenge (omega arith)) in
      record {
        cd = cd;
        parsed = parsed;
        type_ = ground (arith, eq_iff cd.type_ "webauthn.get");
        challenged = decoded ∙ ap some got_is;
        for_rp = agree-take 32 auth_data (lib.sha256 (bytes rp_id)) (ground arith);
        present = ground arith;
        signature = signed ∙ ap ok sig_is;
        public_key = public_key;
        key_is = key_is;
        verified =
            ap
              (λ (x : Bytes).
                lib.verify public_key digest (set_bytes (take 32 x)) (set_bytes (drop 32 x)))
              (sym sig_is)
            ∙ ground arith;
      }
