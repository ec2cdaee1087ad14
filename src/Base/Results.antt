-- ===== src/Base/Results.antt =====
-- Functions that may raise and keep no state.
use mathlib.Core.Path.{◌≡◌, refl}
use mathlib.Core.Bool.{Bool, true, false}
use mathlib.Core.Option.{Option, none, some}
use evoagent_os.Base.Action.{Result, ok, err, Action}

module _ {E : Type 0} where
  infixl 5 ◌>>=◌ ◌>>◌
  abbrev pub ◌>>=◌ : {A B : Type 0} → Result E A → (A → Result E B) → Result E B
  ok a >>= f = f a
  err e >>= f = err e

  abbrev pub ◌>>◌ : {A B : Type 0} → Result E A → Result E B → Result E B
  m >> k = m >>= λ _. k

  abbrev pub reject_if : Bool → E → Result E Unit
  reject_if true e = err e
  reject_if false e = ok tt

  abbrev pub or_error : {A : Type 0} → E → Option A → Result E A
  or_error e none = err e
  or_error e (some a) = ok a

  pub bind_ok :
      {A B : Type 0} (m : Result E A) (f : A → Result E B) (b : B)
      → (m >>= f) ≡ ok b
      → (a : A) × (m ≡ ok a) × (f a ≡ ok b)
  bind_ok (ok a) f b h = (a, refl, h)
  bind_ok (err e) f b h = cc

  pub reject_if_ok : (b : Bool) (e : E) (u : Unit) → reject_if b e ≡ ok u → b ≡ false
  reject_if_ok true e u h = cc
  reject_if_ok false e u h = refl

abbrev pub lift : {S E A : Type 0} → Result E A → Action S E A
lift r s = (r, s)
