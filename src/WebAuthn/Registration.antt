-- ===== src/WebAuthn/Registration.antt =====
-- server/webauthn.go: parseAttestationObject, parseAuthData and parseCOSEKey.
use vow.Prelude.{
  ℕ, zero, suc, ◌+◌, ◌*◌, ◌/◌, ◌%◌, ◌≤◌, ◌≡◌, ◌≢◌, refl, sym, ◌∙◌, ap, arith, Bool, false, not,
  ◌||◌, Option, none, some, [], ◌∷◌, ◌++◌, ltb, ◌==◌, if◌then◌else◌, length, take, drop, Bytes,
  String, Result, ok, err, length-take, get_elem?, Bool-cases, inl, inr, ◌<◌,
}
use vow.Prelude.Results.{◌>>=◌, refuse_if, require, bind_ok, passed, required}
use vow.WebAuthn.BigEndian.{byte_at}
use vow.WebAuthn.Libraries.{ℤ, pos, negsuc, Libraries}

pub data ParseError : Type 0 where
  bad_base64 bad_cbor too_short no_attested_data bad_key_type bad_curve bad_coordinates panicked :
      ParseError

-- An entry of the COSE map: `default` where there is none.
abbrev field_or : {A : Type 0} → (Bytes → Option A) → A → Option Bytes → Result ParseError A
field_or decode default none = ok default
field_or decode default (some raw) = require (decode raw) bad_cbor

abbrev is : ℕ → ℤ → Bool
is n (pos m) = m == n
is n (negsuc m) = false

abbrev compress : Bytes → Bytes → Bytes
compress x y = (if byte_at y 31 % 2 == 1 then 3 else 2) ∷ x

unfoldable pub parse_cose_key : Libraries → Bytes → Result ParseError Bytes
parse_cose_key lib cose_key = do
  m ← require (lib.unmarshal_map cose_key) bad_cbor
  kty ← field_or lib.unmarshal_int (pos 0) (m (pos 1))
  _ ← refuse_if (not (is 2 kty)) bad_key_type
  crv ← field_or lib.unmarshal_int (pos 0) (m (negsuc 0))
  _ ← refuse_if (not (is 1 crv)) bad_curve
  x ← field_or lib.unmarshal_bytes [] (m (negsuc 1))
  y ← field_or lib.unmarshal_bytes [] (m (negsuc 2))
  _ ← refuse_if (not (length x == 32) || not (length y == 32)) bad_coordinates
  ok (compress x y)

-- Go's authData[i], authData[i:j] and authData[i:], which panic where the data end before.
abbrev index : Bytes → ℕ → Result ParseError ℕ
index bs i = require (get_elem? bs i) panicked

abbrev slice : Bytes → ℕ → ℕ → Result ParseError Bytes
slice bs i n = if ltb (length bs) (i + n) then err panicked else ok (take n (drop i bs))

abbrev slice_from : Bytes → ℕ → Result ParseError Bytes
slice_from bs i = if ltb (length bs) i then err panicked else ok (drop i bs)

-- The public key and the credential ID.
unfoldable pub parse_auth_data : Libraries → Bytes → Result ParseError (Bytes × Bytes)
unfolding parse_cose_key
parse_auth_data lib auth_data = do
  _ ← refuse_if (ltb (length auth_data) 37) too_short
  flags ← index auth_data 32
  _ ← refuse_if (flags / 64 % 2 == 0) no_attested_data
  _ ← refuse_if (ltb (length auth_data) 55) too_short
  high ← index auth_data 53
  low ← index auth_data 54
  let cred_id_len = high * 256 + low
  _ ← refuse_if (ltb (length auth_data) (55 + cred_id_len)) too_short
  credential_id ← slice auth_data 55 cred_id_len
  cose_key ← slice_from auth_data (55 + cred_id_len)
  key ← parse_cose_key lib cose_key
  ok (key, credential_id)

unfoldable pub parse_attestation_object : Libraries → String → Result ParseError (Bytes × Bytes)
unfolding parse_auth_data
parse_attestation_object lib b64 = do
  raw ← require (lib.raw_url_decode b64) bad_base64
  auth_data ← require (lib.unmarshal_attestation raw) bad_cbor
  parse_auth_data lib auth_data

-- The EC2 key on P-256 that a COSE map holds: kty 2, crv 1, two coordinates of 32 bytes.
pub record IsCoseKey (lib : Libraries) (cose_key key : Bytes) : Type 0 where
  pub entries : ℤ → Option Bytes
  pub decoded : lib.unmarshal_map cose_key ≡ some entries
  pub kty_raw : Bytes
  pub kty : (entries (pos 1) ≡ some kty_raw) × (lib.unmarshal_int kty_raw ≡ some (pos 2))
  pub crv_raw : Bytes
  pub crv : (entries (negsuc 0) ≡ some crv_raw) × (lib.unmarshal_int crv_raw ≡ some (pos 1))
  pub x_raw : Bytes
  pub x : Bytes
  pub x_is : (entries (negsuc 1) ≡ some x_raw) × (lib.unmarshal_bytes x_raw ≡ some x)
  pub y_raw : Bytes
  pub y : Bytes
  pub y_is : (entries (negsuc 2) ≡ some y_raw) × (lib.unmarshal_bytes y_raw ≡ some y)
  pub widths : (length x ≡ 32) × (length y ≡ 32)
  pub compressed : key ≡ compress x y

is_pos : (n : ℕ) (z : ℤ) → not (is n z) ≡ false → z ≡ pos n
is_pos n (pos m) e = ap pos (ground arith)
is_pos n (negsuc m) e = absurd (ground arith)

is_wide : (n : ℕ) (bs : Bytes) → length bs ≡ suc n → bs ≢ []
is_wide n bs e f = absurd (ground (arith, ap (length {A = ℕ}) f))

module _ (lib : Libraries) where
  field_of :
      {A : Type 0} (decode : Bytes → Option A) (default a : A) (o : Option Bytes)
      → field_or decode default o ≡ ok a
      → a ≢ default
      → (raw : Bytes) × (o ≡ some raw) × (decode raw ≡ some a)
  field_of decode default a none e ne = absurd (ground arith)
  field_of decode default a (some raw) e ne = (raw, refl, ground arith)

  pub parse_cose_key-IsCoseKey :
      (cose_key key : Bytes) → parse_cose_key lib cose_key ≡ ok key → IsCoseKey lib cose_key key
  unfolding parse_cose_key
  parse_cose_key-IsCoseKey cose_key key e =
      let (m, decoded, e1) = required (lib.unmarshal_map cose_key) bad_cbor _ key e in
      let (kty, k, e2) = bind_ok (field_or lib.unmarshal_int (pos 0) (m (pos 1))) _ key e1 in
      let (two, e3) = passed (not (is 2 kty)) bad_key_type _ key e2 in
      let (crv, c, e4) = bind_ok (field_or lib.unmarshal_int (pos 0) (m (negsuc 0))) _ key e3 in
      let (one, e5) = passed (not (is 1 crv)) bad_curve _ key e4 in
      let (x, xe, e6) = bind_ok (field_or lib.unmarshal_bytes [] (m (negsuc 1))) _ key e5 in
      let (y, ye, e7) = bind_ok (field_or lib.unmarshal_bytes [] (m (negsuc 2))) _ key e6 in
      let (wide, e8) =
        passed (not (length x == 32) || not (length y == 32)) bad_coordinates _ key e7 in
      let two_ = is_pos 2 kty two in
      let one_ = is_pos 1 crv one in
      let kr = field_of lib.unmarshal_int (pos 0) kty (m (pos 1)) k (λ z. ground arith) in
      let cr = field_of lib.unmarshal_int (pos 0) crv (m (negsuc 0)) c (λ z. ground arith) in
      let wx : length x ≡ 32 = ground arith in
      let wy : length y ≡ 32 = ground arith in
      let xr = field_of lib.unmarshal_bytes [] x (m (negsuc 1)) xe (is_wide 31 x wx) in
      let yr = field_of lib.unmarshal_bytes [] y (m (negsuc 2)) ye (is_wide 31 y wy) in
      record {
        entries = m;
        decoded = decoded;
        kty_raw = kr.0;
        kty = (kr.1, kr.2 ∙ ap some two_);
        crv_raw = cr.0;
        crv = (cr.1, cr.2 ∙ ap some one_);
        x_raw = xr.0;
        x = x;
        x_is = (xr.1, xr.2);
        y_raw = yr.0;
        y = y;
        y_is = (yr.1, yr.2);
        widths = (wx, wy);
        compressed = ground arith;
      }

-- The layout of authenticator data with an attested credential.
pub record IsAttested (lib : Libraries) (auth_data key credential_id : Bytes) : Type 0 where
  pub flagged : byte_at auth_data 32 / 64 % 2 ≡ 1
  pub cred_id_len : length credential_id ≡ byte_at auth_data 53 * 256 + byte_at auth_data 54
  pub cose_key : Bytes
  pub layout : auth_data ≡ take 55 auth_data ++ (credential_id ++ cose_key)
  pub key_is : IsCoseKey lib cose_key key

take-drop : (n : ℕ) (xs : Bytes) → take n xs ++ drop n xs ≡ xs
take-drop zero xs = refl
take-drop (suc n) [] = refl
take-drop (suc n) (x ∷ xs) = ap (λ r. x ∷ r) (take-drop n xs)

drop_nil : (n : ℕ) → drop {A = ℕ} n [] ≡ []
drop_nil zero = refl
drop_nil (suc n) = refl

drop-drop : (n m : ℕ) (xs : Bytes) → drop m (drop n xs) ≡ drop (n + m) xs
drop-drop zero m xs = ap (λ k. drop k xs) (omega arith)
drop-drop (suc n) m [] = drop_nil m ∙ sym (drop_nil (suc n + m))
drop-drop (suc n) m (x ∷ xs) =
    let e : suc (n + m) ≡ suc n + m = omega arith in
    drop-drop n m xs ∙ ap (λ (k : ℕ). drop k (x ∷ xs)) e

length-drop : (n : ℕ) (xs : Bytes) → n ≤ length xs → n + length (drop n xs) ≡ length xs
length-drop zero xs h = omega arith
length-drop (suc n) [] h = absurd (omega arith)
length-drop (suc n) (x ∷ xs) h = omega (arith, length-drop n xs (omega arith))

-- Within the data, an index has the byte there.
index_ok : (bs : Bytes) (i : ℕ) → i < length bs → index bs i ≡ ok (byte_at bs i)
index_ok [] i h = absurd (omega (arith, h))
index_ok (b ∷ bs) zero h = refl
index_ok (b ∷ bs) (suc i) h = index_ok bs i (omega (arith, h))

slice_ok :
    (bs : Bytes) (i n : ℕ)
    → ltb (length bs) (i + n) ≡ false
    → slice bs i n ≡ ok (take n (drop i bs))
slice_ok bs i n h = rw h refl

slice_from_ok : (bs : Bytes) (i : ℕ) → ltb (length bs) i ≡ false → slice_from bs i ≡ ok (drop i bs)
slice_from_ok bs i h = rw h refl

-- parseAuthData where the tests pass: no access to the data fails.
accesses :
    (lib : Libraries) (auth_data : Bytes)
    → parse_auth_data lib auth_data ≡ (do
      _ ← refuse_if (ltb (length auth_data) 37) too_short
      _ ← refuse_if (byte_at auth_data 32 / 64 % 2 == 0) no_attested_data
      _ ← refuse_if (ltb (length auth_data) 55) too_short
      let cred_id_len = byte_at auth_data 53 * 256 + byte_at auth_data 54
      _ ← refuse_if (ltb (length auth_data) (55 + cred_id_len)) too_short
      key ← parse_cose_key lib (drop (55 + cred_id_len) auth_data)
      ok (key, take cred_id_len (drop 55 auth_data)))
unfolding parse_auth_data
accesses lib auth_data = elim (Bool-cases (ltb (length auth_data) 37)) [
  | inl short ↦ rw (parse_auth_data, short) refl
  | inr enough ↦ elim (Bool-cases (byte_at auth_data 32 / 64 % 2 == 0)) [
    | inl bare ↦ rw (parse_auth_data, enough, index_ok auth_data 32 (ground arith), bare) refl
    | inr attested ↦ elim (Bool-cases (ltb (length auth_data) 55)) [
      | inl short ↦
          rw (parse_auth_data, enough, index_ok auth_data 32 (ground arith), attested, short) refl
      | inr longer ↦
          elim (Bool-cases
            (ltb (length auth_data) (55 + (byte_at auth_data 53 * 256 + byte_at auth_data 54)))) [
              | inl short ↦
                  rw
                    (
                      parse_auth_data,
                      enough,
                      index_ok auth_data 32 (ground arith),
                      attested,
                      longer,
                      index_ok auth_data 53 (ground arith),
                      index_ok auth_data 54 (ground arith),
                      short,
                    )
                    refl
              | inr fits ↦
                  rw
                    (
                      parse_auth_data,
                      enough,
                      index_ok auth_data 32 (ground arith),
                      attested,
                      longer,
                      index_ok auth_data 53 (ground arith),
                      index_ok auth_data 54 (ground arith),
                      fits,
                    )
                    refl
            ]
    ]
  ]
]

attested :
    (lib : Libraries) (auth_data key credential_id : Bytes)
    → parse_auth_data lib auth_data ≡ ok (key, credential_id)
    → IsAttested lib auth_data key credential_id
attested lib auth_data key credential_id parsed =
    let e = sym (accesses lib auth_data) ∙ parsed in
    let out : Bytes × Bytes = (key, credential_id) in
    let (enough, e1) = passed (ltb (length auth_data) 37) too_short _ out e in
    let (flag, e2) = passed (byte_at auth_data 32 / 64 % 2 == 0) no_attested_data _ out e1 in
    let (longer, e3) = passed (ltb (length auth_data) 55) too_short _ out e2 in
    let n = byte_at auth_data 53 * 256 + byte_at auth_data 54 in
    let (fits, e4) = passed (ltb (length auth_data) (55 + n)) too_short _ out e3 in
    let (k, parsed, e5) = bind_ok (parse_cose_key lib (drop (55 + n) auth_data)) _ out e4 in
    let key_is : k ≡ key = ground arith in
    let id_is : take n (drop 55 auth_data) ≡ credential_id = ground arith in
    let behind = drop 55 auth_data in
    let deep : n ≤ length behind = ground (arith, length-drop 55 auth_data (ground arith)) in
    record {
      flagged = ground arith;
      cred_id_len = ap (length {A = ℕ}) (sym id_is) ∙ (length-take n behind ∙ omega arith);
      cose_key = drop (55 + n) auth_data;
      layout =
          sym (take-drop 55 auth_data)
          ∙ ap (λ (r : Bytes). take 55 auth_data ++ r)
              (sym (take-drop n behind)
                ∙ (ap (λ (c : Bytes). c ++ drop n behind) id_is
                    ∙ ap (λ (d : Bytes). credential_id ++ d) (drop-drop 55 n auth_data)));
      key_is = parse_cose_key-IsCoseKey lib (drop (55 + n) auth_data) key (parsed ∙ ap ok key_is);
    }

never_panicked :
    (lib : Libraries) (auth_data : Bytes) → parse_auth_data lib auth_data ≢ err panicked
unfolding parse_cose_key
never_panicked lib auth_data e = let e1 = sym (accesses lib auth_data) ∙ e in ground arith

-- What parseAuthData answers. It never reads beyond the end.
abbrev pub IsParsed : Libraries → Bytes → Result ParseError (Bytes × Bytes) → Type 0
IsParsed lib auth_data (ok (key, credential_id)) = IsAttested lib auth_data key credential_id
IsParsed lib auth_data (err e) = e ≢ panicked

-- Whatever the bytes, parseAuthData never reads beyond their end, which would be a panic. What it
-- returns was cut out of them at the places that their layout names: the identifier has the length
-- that the two bytes before it say, and the key is the compressed form of the COSE key behind it.
pub parse_auth_data-IsParsed :
    (lib : Libraries) (auth_data : Bytes) (answer : Result ParseError (Bytes × Bytes))
    → parse_auth_data lib auth_data ≡ answer
    → IsParsed lib auth_data answer
parse_auth_data-IsParsed lib auth_data (ok (key, credential_id)) e =
    attested lib auth_data key credential_id e
parse_auth_data-IsParsed lib auth_data (err x) e =
    λ bad. never_panicked lib auth_data (e ∙ ap err bad)
