-- ===== src/Prelude/Results.antt =====
-- What a Go function returns beside an error: a value or the error.
use mathlib.Core.Path.{◌≡◌, refl, ap}
use mathlib.Core.Logic.{◌≢◌}
use mathlib.Core.Bool.{Bool, true, false}
use native.Mathlib.Omega.{arith}
use mathlib.Core.Option.{Option, none, some}

pub data Result {ℓ} (E A : Type ℓ) : Type ℓ where
  ok : A → Result E A
  err : E → Result E A

infixl 5 ◌>>=◌ ◌>>◌
abbrev pub ◌>>=◌ {ℓ} : {E A B : Type ℓ} → Result E A → (A → Result E B) → Result E B
ok a >>= f = f a
err e >>= f = err e

abbrev pub ◌>>◌ {ℓ} : {E B : Type ℓ} → Result E Unit → Result E B → Result E B
m >> k = m >>= λ _. k

-- `if cond { return err }`
abbrev pub refuse_if {ℓ} : {E : Type ℓ} → Bool → E → Result E Unit
refuse_if true e = err e
refuse_if false e = ok tt

-- A missing value is the error.
abbrev pub require {ℓ} : {E A : Type ℓ} → Option A → E → Result E A
require none e = err e
require (some a) e = ok a

pub ok_of {ℓ} : {E A : Type ℓ} (r : Result E A) → ((e : E) → r ≢ err e) → (a : A) × (r ≡ ok a)
ok_of (ok a) h = (a, refl)
ok_of (err e) h = absurd (h e refl)

-- A chain that returned a value: each of its steps did.
pub bind_ok {ℓ} :
    {E A B : Type ℓ} (r : Result E A) (f : A → Result E B) (b : B)
    → r >>= f ≡ ok b
    → (a : A) × (r ≡ ok a) × (f a ≡ ok b)
bind_ok (ok a) f b e = (a, refl, e)
bind_ok (err x) f b e = absurd (ground arith)

pub passed {ℓ} :
    {E B : Type ℓ} (test : Bool) (x : E) (f : Unit → Result E B) (b : B)
    → refuse_if test x >>= f ≡ ok b
    → (test ≡ false) × (f tt ≡ ok b)
passed true x f b e = absurd (ground arith)
passed false x f b e = (refl, e)

pub required {ℓ} :
    {E A B : Type ℓ} (o : Option A) (x : E) (f : A → Result E B) (b : B)
    → require o x >>= f ≡ ok b
    → (a : A) × (o ≡ some a) × (f a ≡ ok b)
required none x f b e = absurd (ground arith)
required (some a) x f b e = (a, refl, e)

pub ok_injective {ℓ} : {E A : Type ℓ} (a b : A) → ◌≡◌ {A = Result E A} (ok a) (ok b) → a ≡ b
ok_injective {E} {A} a b e = ap value_of e
  where
    value_of : Result E A → A
    value_of (ok x) = x
    value_of (err x) = a

pub require_ok {ℓ} : {E A : Type ℓ} (o : Option A) (x : E) (a : A) → require o x ≡ ok a → o ≡ some a
require_ok (some b) x a e = ap some (ok_injective b a e)
require_ok none x a e = absurd (ground arith)
