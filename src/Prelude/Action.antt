-- ===== src/Prelude/Action.antt =====
-- Methods that change state and may fail: what was written before the failure stays written.
use mathlib.Core.Bool.{Bool, true, false}
use mathlib.Core.Path.{◌≡◌, refl}
use native.Mathlib.Omega.{arith}
use mathlib.Core.Option.{Option, none, some}
use vow.Prelude.Results.{Result, ok, err}

abbrev pub Action : Type 0 → Type 0 → Type 0 → Type 0
Action S E A = S → Result E A × S

module _ {S E A : Type 0} where
  abbrev pub pure : A → Action S E A
  pure a s = (ok a, s)

  abbrev pub fail : E → Action S E A
  fail e s = (err e, s)

  abbrev pub lift : Result E A → Action S E A
  lift r s = (r, s)

  abbrev pub need : Option A → E → Action S E A
  need none e s = (err e, s)
  need (some a) e s = (ok a, s)

  abbrev pub gets : (S → A) → Action S E A
  gets f s = (ok (f s), s)

module _ {S E : Type 0} where
  abbrev pub modify : (S → S) → Action S E Unit
  modify f s = (ok tt, f s)

  -- `if cond { return err }`
  abbrev pub stop_if : Bool → E → Action S E Unit
  stop_if true e s = (err e, s)
  stop_if false e s = (ok tt, s)

module _ {S E A B : Type 0} where
  abbrev pub continue : Result E A → (A → Action S E B) → Action S E B
  continue (ok a) f s = f a s
  continue (err e) f s = (err e, s)

  infixl 5 ◌>>=◌ ◌>>◌
  abbrev pub ◌>>=◌ : Action S E A → (A → Action S E B) → Action S E B
  ◌>>=◌ m f s = let (r, t) = m s in continue r f t

  abbrev pub ◌>>◌ : Action S E A → Action S E B → Action S E B
  ◌>>◌ m k = m >>= λ _. k

-- A method that returned a value: each of its steps did.
pub went_on :
    {S E B : Type 0} (test : Bool) (x : E) (f : Unit → Action S E B) (b : B) (s t : S)
    → (stop_if test x >>= f) s ≡ (ok b, t)
    → (test ≡ false) × (f tt s ≡ (ok b, t))
went_on true x f b s t e = absurd (ground arith)
went_on false x f b s t e = (refl, e)

pub had :
    {S E A B : Type 0} (o : Option A) (x : E) (f : A → Action S E B) (b : B) (s t : S)
    → (need o x >>= f) s ≡ (ok b, t)
    → (a : A) × (o ≡ some a) × (f a s ≡ (ok b, t))
had none x f b s t e = absurd (ground arith)
had (some a) x f b s t e = (a, refl, e)

pub ran :
    {S E A B : Type 0} (m : Action S E A) (f : A → Action S E B) (b : B) (s t : S)
    → (m >>= f) s ≡ (ok b, t)
    → (a : A) × ((m s).0 ≡ ok a) × (f a (m s).1 ≡ (ok b, t))
ran m f b s t e = resumed (m s).0 f b (m s).1 t e
  where
    resumed :
        {S E A B : Type 0} (r : Result E A) (f : A → Action S E B) (b : B) (u t : S)
        → continue r f u ≡ (ok b, t)
        → (a : A) × (r ≡ ok a) × (f a u ≡ (ok b, t))
    resumed (ok a) f b u t e = (a, refl, e)
    resumed (err x) f b u t e = absurd (ground arith)

-- What a step leads to, where it stops and where it goes on.
module _ {S E B : Type 0} (P : Result E B × S → Type 0) where
  pub on_stop :
      (test : Bool) (x : E) (f : Unit → Action S E B) (s : S)
      → P (err x, s)
      → (test ≡ false → P (f tt s))
      → P ((stop_if test x >>= f) s)
  on_stop true x f s stopped went = stopped
  on_stop false x f s stopped went = went refl

  pub on_need :
      {A : Type 0} (o : Option A) (x : E) (f : A → Action S E B) (s : S)
      → P (err x, s)
      → ((a : A) → o ≡ some a → P (f a s))
      → P ((need o x >>= f) s)
  on_need none x f s stopped went = stopped
  on_need (some a) x f s stopped went = went a refl

pub returned : {S A : Type 0} (z : A × S) (a : A) (t : S) → z.0 ≡ a → z.1 ≡ t → z ≡ (a, t)
returned z a t p q = λ i. (p i, q i)
