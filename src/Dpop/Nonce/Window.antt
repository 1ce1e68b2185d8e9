-- ===== src/Dpop/Nonce/Window.antt =====
-- The three nonces that are held belong to the counter and to its two neighbours.
use vow.Prelude.{ℕ, ◌+◌, ◌/◌, ◌%◌, ◌≡◌, arith, Bytes, Crypto, u64_mod}
use vow.Dpop.Nonce.{Nonce, NonceArgs, compute, pred_u64, new_nonce, rotate, current_counter}

-- `counter - 1` after one step is the old counter, also where it wraps.
pred_u64-suc : (k : ℕ) → pred_u64 (k + 1) % u64_mod ≡ k % u64_mod
pred_u64-suc k = omega arith

module _ (c : Crypto) where
  pub record IsWindow (n : Nonce) : Type 0 where
    pub prev : n.prev ≡ compute c n.secret (pred_u64 n.counter)
    pub curr : n.curr ≡ compute c n.secret n.counter
    pub next : n.next ≡ compute c n.secret (n.counter + 1)

  pub compute-pred_u64 :
      (secret : Bytes) (k : ℕ) → compute c secret (pred_u64 (k + 1)) ≡ compute c secret k
  unfolding compute
  compute-pred_u64 secret k = rw (pred_u64-suc k, compute)

  pub new_nonce-IsWindow :
      (args : NonceArgs) (random : Bytes) (now : ℕ) → IsWindow (new_nonce c args random now).0
  unfolding new_nonce
  new_nonce-IsWindow args random now = ground arith

  rotate-kept : (n : Nonce) (now : ℕ) → IsWindow n → IsWindow (rotate c n now)
  unfolding rotate
  rotate-kept n now w =
      ground (arith, compute-pred_u64 n.secret n.counter, compute-pred_u64 n.secret (n.counter + 1))

  pub rotate_fields :
      (n : Nonce) (now : ℕ)
      → ((rotate c n now).counter ≡ current_counter n now)
        × ((rotate c n now).secret ≡ n.secret)
        × ((rotate c n now).rotation_interval ≡ n.rotation_interval)
  unfolding rotate
  rotate_fields n now = ground arith

  -- Where the window held before, a rotation has it again, at the number of whole rotation intervals
  -- that the clock has reached, whichever way the clock moved: the three nonces are those of that
  -- counter and of its neighbours, under the same secret and the same interval.
  pub rotate-IsWindow :
      (n : Nonce) (now : ℕ)
      → IsWindow n
      → IsWindow (rotate c n now)
        × ((rotate c n now).counter ≡ now / n.rotation_interval)
        × ((rotate c n now).secret ≡ n.secret)
        × ((rotate c n now).rotation_interval ≡ n.rotation_interval)
  unfolding current_counter
  rotate-IsWindow n now w =
      let (counted, secret, interval) = rotate_fields n now in
      (rotate-kept n now w, counted, secret, interval)
