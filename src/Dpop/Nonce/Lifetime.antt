-- ===== src/Dpop/Nonce/Lifetime.antt =====
-- How long a nonce that the server handed out is accepted.
use native.Mathlib.Nat.{div-le_self, div-add-mod', add-mul-div_right, le-div_iff_mul-le}
use vow.Prelude.{
  str_eq_ne, ◌≢◌, ℕ, sym, ap, ◌∙◌, ◌+◌, ◌*◌, ◌^◌, ◌/◌, ◌%◌, ◌≤◌, ◌<◌, ◌≡◌, refl, arith, Bytes,
  Crypto, u64_mod, List, [], ◌∷◌, String, Bool, ◌||◌, inl, inr, true, false, length, ◌⊎◌, str_eq,
  eq_refl,
}
use vow.Dpop.Nonce.{
  Nonce, NonceArgs, compute, pred_u64, new_nonce, rotate, current_counter, next_nonce, check,
  put_uint64, effective_interval, dpop_nonce_max_age,
}
use vow.Dpop.Nonce.Window.{
  IsWindow, new_nonce-IsWindow, rotate-IsWindow, rotate_fields, compute-pred_u64,
}

-- A call of the server: a nonce is handed out, or one that a client sent is checked.
pub data Call : Type 0 where
  hands_out : ℕ → Call
  checks : ℕ → String → Call

div_mono : (t u i : ℕ) → 0 < i → t ≤ u → t / i ≤ u / i
div_mono t u i p h = (le-div_iff_mul-le p).1 (omega (arith, div-add-mod' t i))

div_shift : (t u i k : ℕ) → 0 < i → t + k * i ≤ u → t / i + k ≤ u / i
div_shift t u i k p h = rw (← add-mul-div_right t k p) (div_mono (t + k * i) u i p h)

div_shift_le : (t u i k : ℕ) → 0 < i → u ≤ t + k * i → u / i ≤ t / i + k
div_shift_le t u i k p h = rw (← add-mul-div_right t k p) (div_mono u (t + k * i) i p h)

div_bound : (u i : ℕ) → 0 < i → u < 2 ^ 63 → u / i < 2 ^ 63
div_bound u i p h = omega (arith, div-le_self u i)

-- What binary.BigEndian.Uint64 reads back.
uint64 : Bytes → ℕ
uint64 [] = 0
uint64 (b ∷ bs) = b * 256 ^ length bs + uint64 bs

uint64-put_uint64 : (x : ℕ) → x < u64_mod → uint64 (put_uint64 x) ≡ x
unfolding uint64 put_uint64
uint64-put_uint64 x h = omega arith

effective_interval_bounds :
    (given : ℕ)
    → (0 < effective_interval given) × (3 * effective_interval given ≤ dpop_nonce_max_age)
unfolding effective_interval
effective_interval_bounds given = ground arith

put_uint64_injective : (x y : ℕ) → x < u64_mod → y < u64_mod → put_uint64 x ≡ put_uint64 y → x ≡ y
put_uint64_injective x y hx hy e =
    sym (uint64-put_uint64 x hx) ∙ ap uint64 e ∙ uint64-put_uint64 y hy

length-put_uint64 : (x : ℕ) → length (put_uint64 x) ≡ 8
unfolding put_uint64
length-put_uint64 x = refl

-- No two eight-byte messages have one encoded MAC under the secret.
pub record IsCollisionFree (c : Crypto) (secret : Bytes) : Type 0 where
  pub separates :
      (a b : Bytes)
      → length a ≡ 8
      → length b ≡ 8
      → c.raw_url_encode (c.hmac_sha256 secret a) ≡ c.raw_url_encode (c.hmac_sha256 secret b)
      → a ≡ b

module _ (c : Crypto) where
  pub step : Nonce → Call → Nonce
  step n (hands_out now) = (next_nonce c n now).0
  step n (checks now nonce) = (check c n now nonce).0

  pub run : Nonce → List Call → Nonce
  run n [] = n
  run n (call ∷ calls) = run (step n call) calls

  -- What no call changes: the window, and the secret and the interval given.
  record Kept (secret : Bytes) (interval : ℕ) (n : Nonce) : Type 0 where
    window : IsWindow c n
    same_secret : n.secret ≡ secret
    same_interval : n.rotation_interval ≡ interval

  rotate-Kept :
      {secret : Bytes} {interval : ℕ} {n : Nonce} (now : ℕ)
      → Kept secret interval n
      → Kept secret interval (rotate c n now)
  rotate-Kept {n = n} now k = record {
    window = (rotate-IsWindow c n now k.window).0;
    same_secret = (rotate_fields c n now).1 ∙ k.same_secret;
    same_interval = (rotate_fields c n now).2 ∙ k.same_interval;
  }

  step-Kept :
      {secret : Bytes} {interval : ℕ} {n : Nonce} (call : Call)
      → Kept secret interval n
      → Kept secret interval (step n call)
  unfolding step next_nonce check
  step-Kept (hands_out now) k = rotate-Kept now k
  step-Kept (checks now nonce) k = rotate-Kept now k

  run-Kept :
      {secret : Bytes} {interval : ℕ} (n : Nonce) (calls : List Call)
      → Kept secret interval n
      → Kept secret interval (run n calls)
  unfolding run
  run-Kept n [] k = k
  run-Kept n (call ∷ calls) k = run-Kept (step n call) calls (step-Kept call k)

  -- The three nonces of a reading of the clock, whatever the calls before it.
  rotate_contents :
      {secret : Bytes} {interval : ℕ} (n : Nonce) (now : ℕ)
      → Kept secret interval n
      → ((rotate c n now).prev ≡ compute c secret (pred_u64 (now / interval)))
        × ((rotate c n now).curr ≡ compute c secret (now / interval))
        × ((rotate c n now).next ≡ compute c secret (now / interval + 1))
  unfolding current_counter
  rotate_contents n now k =
      let w = (rotate-IsWindow c n now k.window).0 in
      let f = rotate_fields c n now in
      (
        cc (w.prev, f.0, f.1, k.same_secret, k.same_interval),
        cc (w.curr, f.0, f.1, k.same_secret, k.same_interval),
        cc (w.next, f.0, f.1, k.same_secret, k.same_interval),
      )

  new_nonce-Kept :
      (args : NonceArgs) (random : Bytes) (now : ℕ)
      → let n = (new_nonce c args random now).0 in
        Kept n.secret (effective_interval args.rotation_interval) n
  unfolding new_nonce
  new_nonce-Kept args random now = record {
    window = unfold new_nonce in new_nonce-IsWindow c args random now;
    same_secret = refl;
    same_interval = refl;
  }

  next_nonce-value :
      {secret : Bytes} {interval : ℕ} (n : Nonce) (t : ℕ)
      → Kept secret interval n
      → (next_nonce c n t).1 ≡ compute c secret (t / interval + 1)
  unfolding next_nonce
  next_nonce-value n t k = (rotate_contents n t k).2

  next_nonce-Kept :
      {secret : Bytes} {interval : ℕ} (n : Nonce) (t : ℕ)
      → Kept secret interval n
      → Kept secret interval (next_nonce c n t).0
  unfolding next_nonce
  next_nonce-Kept n t k = rotate-Kept t k

  -- What `check` compares with, for the counter `j`.
  accepts : Bytes → ℕ → String → Bool
  accepts secret j nonce =
      str_eq nonce (compute c secret (pred_u64 j))
      || str_eq nonce (compute c secret j)
      || str_eq nonce (compute c secret (j + 1))

  check-value :
      {secret : Bytes} {interval : ℕ} (n : Nonce) (u : ℕ) (nonce : String)
      → Kept secret interval n
      → (check c n u nonce).1 ≡ accepts secret (u / interval) nonce
  unfolding check accepts
  check-value n u nonce k = let r = rotate_contents n u k in rw (r.0, r.1, r.2)

  accepts_near :
      (secret : Bytes) (k j : ℕ)
      → k ≤ j
      → j ≤ k + 2
      → accepts secret j (compute c secret (k + 1)) ≡ true
  unfolding accepts
  accepts_near secret k j lo hi =
      let offered = compute c secret (k + 1) in
      let steps : (j ≡ k) ⊎ (j ≡ k + 1) ⊎ (j ≡ k + 1 + 1) = omega arith in
      elim steps [
        | inl same ↦ rw same (ground (arith, eq_refl offered))
        | inr (inl one) ↦ rw one (ground (arith, eq_refl offered))
        | inr (inr two) ↦ rw two (rw (compute-pred_u64 c secret (k + 1), eq_refl offered))
      ]

  compute_injective :
      (secret : Bytes)
      → IsCollisionFree c secret
      → (x y : ℕ) → compute c secret x ≡ compute c secret y
      → x % u64_mod ≡ y % u64_mod
  unfolding compute
  compute_injective secret free x y e =
      put_uint64_injective _ _ (omega arith) (omega arith)
        (free.separates _ _ (length-put_uint64 _) (length-put_uint64 _) e)

  accepts_far :
      (secret : Bytes) (k j : ℕ)
      → IsCollisionFree c secret
      → k + 3 ≤ j
      → j < 2 ^ 63
      → accepts secret j (compute c secret (k + 1)) ≡ false
  unfolding accepts
  accepts_far secret k j free far fits =
      rw (apart (pred_u64 j) (omega arith), apart j (omega arith), apart (j + 1) (omega arith))
    where
      apart :
          (x : ℕ)
          → (k + 1) % u64_mod ≢ x % u64_mod
          → str_eq (compute c secret (k + 1)) (compute c secret x) ≡ false
      apart x ne = str_eq_ne _ _ λ e. ne (compute_injective secret free (k + 1) x e)

  -- A nonce that is handed out at time `t`, after any calls, is accepted from `t` on for two
  -- rotation intervals, whatever calls come between.
  pub check-next_nonce :
      (args : NonceArgs) (random : Bytes) (start t u : ℕ) (before after : List Call)
      → t ≤ u
      → u ≤ t + 2 * effective_interval args.rotation_interval
      → let n = run (new_nonce c args random start).0 before in
        (check c (run (next_nonce c n t).0 after) u (next_nonce c n t).1).1 ≡ true
  check-next_nonce args random start t u before after lo hi =
      let interval = effective_interval args.rotation_interval in
      let pos = (effective_interval_bounds args.rotation_interval).0 in
      let k = run-Kept _ before (new_nonce-Kept args random start) in
      rw (check-value _ u _ (run-Kept _ after (next_nonce-Kept _ t k)), next_nonce-value _ t k)
        (accepts_near _ (t / interval) (u / interval) (div_mono t u interval pos lo)
          (div_shift_le t u interval 2 pos hi))

  -- A nonce that is handed out at time `t` is refused once dpop_nonce_max_age has passed, whatever
  -- calls come between, if no two eight-byte messages have one MAC and the clock fits an int64.
  pub check-next_nonce_expired :
      (args : NonceArgs) (random : Bytes) (start t u : ℕ) (before after : List Call)
      → IsCollisionFree c (new_nonce c args random start).0.secret
      → t + dpop_nonce_max_age ≤ u
      → u < 2 ^ 63
      → let n = run (new_nonce c args random start).0 before in
        (check c (run (next_nonce c n t).0 after) u (next_nonce c n t).1).1 ≡ false
  check-next_nonce_expired args random start t u before after free old fits =
      let interval = effective_interval args.rotation_interval in
      let bounds = effective_interval_bounds args.rotation_interval in
      let k = run-Kept _ before (new_nonce-Kept args random start) in
      rw (check-value _ u _ (run-Kept _ after (next_nonce-Kept _ t k)), next_nonce-value _ t k)
        (accepts_far _ (t / interval) (u / interval) free
          (div_shift t u interval 3 bounds.0 (omega (arith, bounds.1)))
          (div_bound u interval bounds.0 fits))
