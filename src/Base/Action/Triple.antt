-- ===== src/Base/Action/Triple.antt =====
-- Hoare triples for actions: from a state in `P`, the value and the state of a return are in `Q`, and
-- the error and the state of a raise are in `R`. There is a rule for each way to build an action.
use evoagent_os.Base.Tests.{if◌then◌else◌}
use mathlib.Core.Path.{◌≡◌, refl}
use mathlib.Core.Bool.{Bool, true, false}
use mathlib.Core.Option.{Option, none, some}
use evoagent_os.Base.Action.{
  Result, ok, err, Action, pure, raise, gets, or_raise, modify, raise_if, ◌>>=◌,
}

module _ {S E A : Type 0} where
  abbrev pub Outcome : (A → S → Type 0) → (E → S → Type 0) → Result E A → S → Type 0
  Outcome Q R (ok a) s = Q a s
  Outcome Q R (err e) s = R e s

  pub record Triple (P : S → Type 0) (m : Action S E A) (Q : A → S → Type 0) (R : E → S → Type 0)
      : Type 0 where
    pub at : (s : S) → P s → Outcome Q R (m s).0 (m s).1

module _ {S E A : Type 0} {P : S → Type 0} {Q : A → S → Type 0} {R : E → S → Type 0} where
  pub Triple-pure : (a : A) → ((s : S) → P s → Q a s) → Triple P (pure {S = S} {E = E} a) Q R
  Triple-pure a h = record { at = h }

  pub Triple-raise : (e : E) → ((s : S) → P s → R e s) → Triple P (raise e) Q R
  Triple-raise e h = record { at = h }

  pub Triple-gets :
      (f : S → A) → ((s : S) → P s → Q (f s) s) → Triple P (gets {S = S} {E = E} f) Q R
  Triple-gets f h = record { at = h }

  pub Triple-or_raise :
      (e : E) (o : Option A)
      → ((a : A) → o ≡ some a → (s : S) → P s → Q a s)
      → ((s : S) → P s → R e s)
      → Triple P (or_raise e o) Q R
  Triple-or_raise e none found missing = record { at = missing }
  Triple-or_raise e (some a) found missing = record { at = found a refl }

  pub Triple-if :
      (b : Bool) (m n : Action S E A)
      → Triple P m Q R
      → Triple P n Q R
      → Triple P (if b then m else n) Q R
  Triple-if true m n hm hn = hm
  Triple-if false m n hm hn = hn

  -- An action that leaves its result and its state as another one does.
  pub Triple-at :
      (m : Action S E A) → ((s : S) → P s → Outcome Q R (m s).0 (m s).1) → Triple P m Q R
  Triple-at m h = record { at = h }

module _ {S E : Type 0} {P : S → Type 0} {Q : Unit {0} → S → Type 0} {R : E → S → Type 0} where
  pub Triple-modify :
      (f : S → S) → ((s : S) → P s → Q tt (f s)) → Triple P (modify {S = S} {E = E} f) Q R
  Triple-modify f h = record { at = h }

  pub Triple-raise_if :
      (b : Bool) (e : E)
      → (b ≡ false → (s : S) → P s → Q tt s)
      → ((s : S) → P s → R e s)
      → Triple P (raise_if b e) Q R
  Triple-raise_if true e pass stop = record { at = stop }
  Triple-raise_if false e pass stop = record { at = pass refl }

module _ {S E A B : Type 0} {Q : B → S → Type 0} {R : E → S → Type 0} where
  continue :
      (M : A → S → Type 0) (r : Result E A) (f : A → Action S E B) (s s' : S)
      → Outcome M R r s'
      → ((a : A) → Triple (M a) (f a) Q R)
      → Outcome Q R (((λ (_ : S). (r, s')) >>= f) s).0 (((λ (_ : S). (r, s')) >>= f) s).1
  continue M (ok a) f s s' h hf = (hf a).at s' h
  continue M (err e) f s s' h hf = h

  pub Triple-bind :
      {P : S → Type 0} (M : A → S → Type 0) (m : Action S E A) (f : A → Action S E B)
      → Triple P m M R
      → ((a : A) → Triple (M a) (f a) Q R)
      → Triple P (m >>= f) Q R
  Triple-bind M m f hm hf = record {
    at = λ s h. let (r, s') = m s in continue M r f s s' (hm.at s h) hf;
  }
