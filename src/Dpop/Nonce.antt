-- ===== src/Dpop/Nonce.antt =====
-- oauth/dpop/nonce.go, with the intervals of oauth/constants/constants.go.
-- A duration and a reading of the clock are nanoseconds, and not negative; the counter is the
-- int64 quotient of the two, which `compute` writes as a uint64. The mutex makes each method one
-- step. `now` is what time.Now().UnixNano() returned in the call.
pub mod Window
pub mod Lifetime
use vow.Prelude.{
  ℕ, ◌+◌, ◌*◌, ◌/◌, ◌%◌, String, str_eq, Bool, ◌||◌, Option, none, some, List, [], ◌∷◌, ltb, ◌==◌,
  if◌then◌else◌, Bytes, u64_mod, Crypto,
}

abbrev pub second : ℕ
second = 1000000000

abbrev pub dpop_nonce_max_age : ℕ
dpop_nonce_max_age = 3 * 60 * second

abbrev pub nonce_max_rotation_interval : ℕ
nonce_max_rotation_interval = dpop_nonce_max_age / 3

pub record Nonce : Type 0 where
  pub rotation_interval : ℕ
  pub secret : Bytes
  pub counter : ℕ
  pub prev : String
  pub curr : String
  pub next : String

pub record NonceArgs : Type 0 where
  pub rotation_interval : ℕ
  pub secret : Option Bytes

-- binary.BigEndian.PutUint64
unfoldable pub put_uint64 : ℕ → Bytes
put_uint64 x =
    (x / 72057594037927936 % 256)
    ∷ (x / 281474976710656 % 256)
    ∷ (x / 1099511627776 % 256)
    ∷ (x / 4294967296 % 256)
    ∷ (x / 16777216 % 256)
    ∷ (x / 65536 % 256)
    ∷ (x / 256 % 256)
    ∷ (x % 256)
    ∷ []

module _ (c : Crypto) where
  -- The argument is the counter modulo 2 ^ 64: the call for `counter - 1` passes `pred_u64`.
  unfoldable pub compute : Bytes → ℕ → String
  compute secret counter = c.raw_url_encode (c.hmac_sha256 secret (put_uint64 (counter % u64_mod)))

-- `uint64(counter - 1)`, which wraps at 0.
abbrev pub pred_u64 : ℕ → ℕ
pred_u64 counter = counter + 18446744073709551615

unfoldable pub current_counter : Nonce → ℕ → ℕ
current_counter n now = now / n.rotation_interval

-- The interval that is used: a third of the maximum where none is given, and the maximum at most.
unfoldable pub effective_interval : ℕ → ℕ
effective_interval given =
    let interval : ℕ = if given == 0 then nonce_max_rotation_interval / 3 else given in
    if ltb nonce_max_rotation_interval interval then nonce_max_rotation_interval else interval

-- The secret in use, given or drawn, and what OnSecretCreated was called with.
unfoldable pub effective_secret : Option Bytes → Bytes → Bytes × Option Bytes
effective_secret none random = (random, some random)
effective_secret (some given) random = (given, none)

module _ (c : Crypto) where
  -- The nonce, and the secret handed to OnSecretCreated; `random` is what RandomBytes(32) returns.
  unfoldable pub new_nonce : NonceArgs → Bytes → ℕ → Nonce × Option Bytes
  unfolding effective_interval effective_secret
  new_nonce args random now =
      let interval = effective_interval args.rotation_interval in
      let (secret, created) = effective_secret args.secret random in
      let counter : ℕ = now / interval in
      (
        record {
          rotation_interval = interval;
          secret = secret;
          counter = counter;
          prev = compute c secret (pred_u64 counter);
          curr = compute c secret counter;
          next = compute c secret (counter + 1);
        },
        created,
      )

  unfoldable pub rotate : Nonce → ℕ → Nonce
  unfolding current_counter
  rotate n now =
      let counter = current_counter n now in
      let fresh = compute c n.secret in
      let rotated : Nonce =
        if counter == n.counter
        then n
        else if counter == n.counter + 1
        then record n { prev = n.curr; curr = n.next; next = fresh (counter + 1) }
        else if counter == n.counter + 2
        then record n { prev = n.next; curr = fresh counter; next = fresh (counter + 1) }
        else record n {
          prev = fresh (pred_u64 counter);
          curr = fresh counter;
          next = fresh (counter + 1);
        } in
      record rotated { counter = counter }

  unfoldable pub next_nonce : Nonce → ℕ → Nonce × String
  next_nonce n now = let rotated = rotate n now in (rotated, rotated.next)

  unfoldable pub check : Nonce → ℕ → String → Nonce × Bool
  check n now nonce =
      let rotated = rotate n now in
      (rotated, str_eq nonce rotated.prev || str_eq nonce rotated.curr || str_eq nonce rotated.next)
