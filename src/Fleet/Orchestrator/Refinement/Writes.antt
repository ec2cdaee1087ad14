-- ===== src/Fleet/Orchestrator/Refinement/Writes.antt =====
-- orchestrator.py: actions whose writes to the table of nodes are steps, whether they return or raise.
use evoagent_os.Base.{◌≡◌, refl, subst, ◌∙◌, Bool, true, false, Option, none, some}
use evoagent_os.Base.Action.{Result, ok, err, raise_if, or_raise, ◌>>=◌}
use evoagent_os.Fleet.Store.{Store}
use evoagent_os.Fleet.Orchestrator.{Fleet, FleetError}
use evoagent_os.Fleet.Orchestrator.Steps.{Steps, here, Steps-trans}
use evoagent_os.Fleet.Orchestrator.Steps.Invariant.{IsConsistent, Steps-IsConsistent}

abbrev pub Writes : {A : Type 0} → Fleet A → Type 0
Writes m = (s : Store) → IsConsistent s.nodes → Steps s.nodes (m s).1.nodes

module _ {A B : Type 0} where
  after :
      (r : Result FleetError A) (f : A → Fleet B) (s s' : Store)
      → Steps s.nodes s'.nodes
      → IsConsistent s.nodes
      → ((a : A) → r ≡ ok a → Writes (f a))
      → Steps s.nodes (((λ (_ : Store). (r, s')) >>= f) s).1.nodes
  after (ok a) f s s' steps c w = Steps-trans steps (w a refl s' (Steps-IsConsistent steps c))
  after (err e) f s s' steps c w = steps

  -- One action after another; the second may use what the first returned.
  pub Writes-bind :
      (m : Fleet A) (f : A → Fleet B) → Writes m → ((a : A) → Writes (f a)) → Writes (m >>= f)
  Writes-bind m f wm wf s c = let (r, s') = m s in after r f s s' (wm s c) c (λ a _. wf a)

-- Actions that leave the nodes alone.
pub Writes-keeping : {A : Type 0} (m : Fleet A) → ((s : Store) → (m s).1.nodes ≡ s.nodes) → Writes m
Writes-keeping m same s c = rw (same s) here

pub Writes-raise_if : (b : Bool) (e : FleetError) → Writes (raise_if b e)
Writes-raise_if true e s c = here
Writes-raise_if false e s c = here

pub Writes-or_raise : {A : Type 0} (e : FleetError) (o : Option A) → Writes (or_raise e o)
Writes-or_raise e none s c = here
Writes-or_raise e (some a) s c = here

module _ {A B : Type 0} where
  same_after :
      (r : Result FleetError A) (f : A → Fleet B) (s s' : Store)
      → s'.nodes ≡ s.nodes
      → ((a : A) (t : Store) → (f a t).1.nodes ≡ t.nodes)
      → (((λ (_ : Store). (r, s')) >>= f) s).1.nodes ≡ s.nodes
  same_after (ok a) f s s' same h = h a s' ∙ same
  same_after (err e) f s s' same h = same

  pub nodes-bind :
      (m : Fleet A) (f : A → Fleet B)
      → ((s : Store) → (m s).1.nodes ≡ s.nodes)
      → ((a : A) (s : Store) → (f a s).1.nodes ≡ s.nodes)
      → (s : Store) → ((m >>= f) s).1.nodes ≡ s.nodes
  nodes-bind m f hm hf s = let (r, s') = m s in same_after r f s s' (hm s) hf

  Steps-after :
      (r : Result FleetError A) (f : A → Fleet B) (s s' : Store)
      → s'.nodes ≡ s.nodes
      → ((a : A) (t : Store) → r ≡ ok a → t.nodes ≡ s.nodes → Steps t.nodes (f a t).1.nodes)
      → Steps s.nodes (((λ (_ : Store). (r, s')) >>= f) s).1.nodes
  Steps-after (ok a) f s s' same h =
      subst (λ rows. Steps rows (f a s').1.nodes) same (h a s' refl same)
  Steps-after (err e) f s s' same h = rw same here

  -- An action that leaves the nodes alone, and one that writes to them by steps from there.
  pub Steps-bind :
      (m : Fleet A) (f : A → Fleet B) (s : Store)
      → (m s).1.nodes ≡ s.nodes
      → ((a : A) (t : Store) → (m s).0 ≡ ok a → t.nodes ≡ s.nodes → Steps t.nodes (f a t).1.nodes)
      → Steps s.nodes ((m >>= f) s).1.nodes
  Steps-bind m f s same h = let (r, s') = m s in Steps-after r f s s' same h
