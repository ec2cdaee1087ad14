-- ===== src/Runtime/Tools/Sparing.antt =====
-- tools.py: actions that leave the runs, the approvals and the files outside the workspace alone.
use evoagent_os.Base.{
  ◌≡◌, refl, sym, subst, ◌∙◌, String, Bool, true, false, List, Option, none, some,
}
use evoagent_os.Base.Rows.{find}
use evoagent_os.Base.Action.{Result, ok, err, ◌>>=◌, pure, or_raise, returned, raise_if, gets}
use evoagent_os.Runtime.Store.{RunError, Store, Runtime}
use evoagent_os.Runtime.Tools.{ToolContext}
use evoagent_os.Runtime.Tools.Builtins.{is_file, is_within}

-- The tables of runs and approvals, and the files outside the workspace, are as they were.
pub record IsSpared (context : ToolContext) (s s' : Store) : Type 0 where
  pub runs : s'.runs ≡ s.runs
  pub approvals : s'.approvals ≡ s.approvals
  pub outside :
      (path : List String)
      → is_within (context.outside.resolve context.workspace "") path ≡ false
      → find (is_file path) s'.files ≡ find (is_file path) s.files

pub IsSpared-refl : (context : ToolContext) (s : Store) → IsSpared context s s
IsSpared-refl context s = record { runs = refl; approvals = refl; outside = λ p h. refl }

IsSpared-trans :
    (context : ToolContext) (s t u : Store)
    → IsSpared context s t
    → IsSpared context t u
    → IsSpared context s u
IsSpared-trans context s t u p q = record {
  runs = q.runs ∙ p.runs;
  approvals = q.approvals ∙ p.approvals;
  outside = λ x h. q.outside x h ∙ p.outside x h;
}

pub record Sparing {A : Type 0} (context : ToolContext) (m : Runtime A) : Type 0 where
  pub at : (s : Store) → IsSpared context s (m s).1

module _ {A B : Type 0} (context : ToolContext) where
  after :
      (r : Result RunError A) (f : A → Runtime B) (s t : Store)
      → IsSpared context s t
      → ((a : A) → Sparing context (f a))
      → IsSpared context s (((λ (_ : Store). (r, t)) >>= f) s).1
  after (ok a) f s t p k = IsSpared-trans context s t (f a t).1 p ((k a).at t)
  after (err e) f s t p k = p

  pub Sparing-bind :
      (m : Runtime A) (f : A → Runtime B)
      → Sparing context m
      → ((a : A) → Sparing context (f a))
      → Sparing context (m >>= f)
  Sparing-bind m f km kf = record { at = λ s. let (r, t) = m s in after r f s t (km.at s) kf }

module _ {A : Type 0} (context : ToolContext) where
  Sparing-same : (m : Runtime A) → ((s : Store) → (m s).1 ≡ s) → Sparing context m
  Sparing-same m h = record {
    at = λ s. subst (IsSpared context s) (sym (h s)) (IsSpared-refl context s);
  }

  pub Sparing-returned : (r : Result RunError A) → Sparing context (returned r)
  Sparing-returned r = record { at = IsSpared-refl context }

  pub Sparing-or_raise : (e : RunError) (o : Option A) → Sparing context (or_raise e o)
  Sparing-or_raise e none = record { at = IsSpared-refl context }
  Sparing-or_raise e (some a) = record { at = IsSpared-refl context }

pub Sparing-gets : {A : Type 0} (context : ToolContext) (f : Store → A) → Sparing context (gets f)
Sparing-gets context f = record { at = IsSpared-refl context }

pub Sparing-raise_if :
    (context : ToolContext) (b : Bool) (e : RunError) → Sparing context (raise_if b e)
Sparing-raise_if context true e = record { at = IsSpared-refl context }
Sparing-raise_if context false e = record { at = IsSpared-refl context }

pub Sparing-pure : {A : Type 0} (context : ToolContext) (a : A) → Sparing context (pure a)
Sparing-pure context a = record { at = IsSpared-refl context }
