-- ===== src/WebAuthn/BigEndian.antt =====
-- server/webauthn.go: the numbers of math/big as bytes, and byte strings of a fixed width.
use native.Mathlib.Numerals.{unary_clauses}
use vow.Prelude.{
  ℕ, zero, suc, ◌+◌, ◌-◌, ◌*◌, ◌/◌, ◌%◌, ◌^◌, ◌≤◌, ◌<◌, ◌≡◌, refl, ◌∙◌, arith, Bool, true, false,
  Bool-cases, inl, inr, [], ◌∷◌, ◌++◌, ◌==◌, length, replicate, length-append, length-replicate,
  Bytes, take, none, some, get_elem?, ◌&&◌,
}

-- A byte, where the caller has checked the length.
abbrev pub byte_at : Bytes → ℕ → ℕ
byte_at bs i = elim (get_elem? bs i) [ none ↦ 0 | some b ↦ b ]

-- The loop that compares the first `n` bytes.
unfoldable pub agree : ℕ → Bytes → Bytes → Bool
agree zero xs ys = true
agree (suc n) (x ∷ xs) (y ∷ ys) = (x == y) && agree n xs ys
agree (suc n) _ _ = false

pub agree-take : (n : ℕ) (xs ys : Bytes) → agree n xs ys ≡ true → take n xs ≡ take n ys
unfolding agree
agree-take zero xs ys e = refl
agree-take (suc n) [] ys e = absurd (ground arith)
agree-take (suc n) (x ∷ xs) [] e = absurd (ground arith)
agree-take (suc n) (x ∷ xs) (y ∷ ys) e = ground (arith, agree-take n xs ys)

-- Int.Bytes of a natural number: big-endian, without leading zeros. `fuel` bounds the length.
unfoldable pub digits : ℕ → ℕ → Bytes
digits zero n = []
digits (suc fuel) n = elim (n == 0) [ true ↦ [] | false ↦ digits fuel (n / 256) ++ n % 256 ∷ [] ]

unfoldable pub big_bytes : ℕ → Bytes
unfolding digits
big_bytes n = digits n n

-- Int.SetBytes
unfoldable pub set_bytes_from : ℕ → Bytes → ℕ
set_bytes_from acc [] = acc
set_bytes_from acc (b ∷ bs) = set_bytes_from (acc * 256 + b) bs

unfoldable pub set_bytes : Bytes → ℕ
unfolding set_bytes_from
set_bytes bs = set_bytes_from 0 bs

-- copy(out[w-len(bs):w], bs) in a zeroed slice, which is also what FillBytes does.
unfoldable pub pad : ℕ → Bytes → Bytes
pad w bs = replicate (w - length bs) 0 ++ bs

pub length-pad : (w : ℕ) (bs : Bytes) → length bs ≤ w → length (pad w bs) ≡ w
unfolding pad
length-pad w bs h = omega (
  arith,
  length-append (replicate (w - length bs) 0) bs,
  length-replicate {A = ℕ} (w - length bs) 0,
)

set_bytes_from-snoc :
    (acc : ℕ) (bs : Bytes) (b : ℕ)
    → set_bytes_from acc (bs ++ b ∷ []) ≡ set_bytes_from acc bs * 256 + b
unfolding set_bytes_from
set_bytes_from-snoc acc [] b = refl
set_bytes_from-snoc acc (x ∷ bs) b = set_bytes_from-snoc (acc * 256 + x) bs b

pub set_bytes-pad : (k : ℕ) (bs : Bytes) → set_bytes (replicate k 0 ++ bs) ≡ set_bytes bs
unfolding set_bytes set_bytes_from
set_bytes-pad zero bs = refl
set_bytes-pad (suc k) bs = set_bytes-pad k bs

set_bytes-digits : (fuel n : ℕ) → n ≤ fuel → set_bytes (digits fuel n) ≡ n
unfolding digits set_bytes set_bytes_from
set_bytes-digits zero n h = omega arith
set_bytes-digits (suc fuel) n h = elim (Bool-cases (n == 0)) [
  | inl e ↦ rw (e, digits) (ground arith)
  | inr e ↦
      rw (e, digits)
        (set_bytes_from-snoc 0 (digits fuel (n / 256)) (n % 256)
          ∙ ground (arith, set_bytes-digits fuel (n / 256)))
]

-- SetBytes reads back what Bytes wrote.
pub set_bytes-big_bytes : (n : ℕ) → set_bytes (big_bytes n) ≡ n
unfolding big_bytes
set_bytes-big_bytes n = set_bytes-digits n n (omega arith)

pow_suc : (k : ℕ) → 256 ^ suc k ≡ 256 ^ k * 256
pow_suc k = simp unary_clauses refl

length-digits : (fuel n k : ℕ) → n < 256 ^ k → length (digits fuel n) ≤ k
unfolding digits
length-digits zero n k h = omega arith
length-digits (suc fuel) n zero h = elim (Bool-cases (n == 0)) [
  | inl e ↦ rw (e, digits) (omega arith)
  | inr e ↦ absurd (ground arith)
]
length-digits (suc fuel) n (suc k) h = elim (Bool-cases (n == 0)) [
  | inl e ↦ rw (e, digits) (omega arith)
  | inr e ↦
      let small : n / 256 < 256 ^ k = omega (arith, pow_suc k) in
      rw (e, digits)
        (omega (
          arith,
          length-append (digits fuel (n / 256)) (n % 256 ∷ []),
          length-digits fuel (n / 256) k small,
        ))
]

-- A number below the power has at most `k` bytes.
pub length-big_bytes : (n k : ℕ) → n < 256 ^ k → length (big_bytes n) ≤ k
unfolding big_bytes
length-big_bytes n k = length-digits n n k
