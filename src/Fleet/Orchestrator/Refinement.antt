-- ===== src/Fleet/Orchestrator/Refinement.antt =====
-- orchestrator.py: the calls that a client can make, served one after the other, against the step
-- relation of `Steps`.
mod Writes
mod Loops
mod Sweep
mod Advance
mod Leases
mod Endings
use evoagent_os.Base.{ℕ, ◌<◌, String, ◌≡◌, refl, Bool, List, [], ◌∷◌, Option, none, some}
use evoagent_os.Fleet.Models.{WorkflowSpec, WorkerRegistration, Completion}
use evoagent_os.Fleet.Store.{Store, Node, empty}
use evoagent_os.Fleet.Orchestrator.{Env, Clock}
use evoagent_os.Fleet.Orchestrator.Submit.{submit, register}
use evoagent_os.Fleet.Orchestrator.Claim.{sweep_expired, claim, heartbeat}
use evoagent_os.Fleet.Orchestrator.Finish.{complete, fail, approve}
use evoagent_os.Fleet.Orchestrator.Steps.{Steps, here}
use evoagent_os.Fleet.Orchestrator.Steps.Invariant.{
  IsConsistent, Steps-IsConsistent, nil-IsConsistent,
}
use evoagent_os.Fleet.Models.Dag.{ok, workflow_spec}
use evoagent_os.Fleet.Models.Specs.{workflow_spec-CanAttempt}
use evoagent_os.Fleet.Orchestrator.Steps.Lifecycle.{Tracked, Steps-Tracked}
use Leases.{submit-Writes, claim-Steps, heartbeat-Steps}
use Sweep.{sweep_expired-Steps}
use Endings.{complete-Steps, fail-Steps, approve-Steps}

-- A call of a method that changes the store, with its arguments, the readings of the clock and the
-- identifiers that it draws. A submitted workflow has passed the checks of its model.
pub data Request : Type 0 where
  submit_call : Clock → String → (spec : WorkflowSpec) → workflow_spec spec ≡ ok spec → Request
  register_call : Clock → WorkerRegistration → Request
  claim_call : (swept clock : Clock) → (token worker : String) → Option String → Request
  heartbeat_call : Clock → (worker token : String) → Request
  complete_call : Clock → (String → String) → (worker token : String) → Completion → Request
  fail_call : Clock → (worker token error : String) → Bool → Request
  approve_call : Clock → (workflow node : String) → Bool → String → Request
  sweep_call : Clock → Request

-- The store after a call, whether it returned or raised.
unfoldable pub serve : Env → Request → Store → Store
serve env (submit_call clock w spec _) s = (submit clock w spec s).1
serve env (register_call clock worker) s = (register clock worker s).1
serve env (claim_call swept clock token worker workflow) s =
    (claim env swept clock token worker workflow s).1
serve env (heartbeat_call clock worker token) s = (heartbeat env clock worker token s).1
serve env (complete_call clock draw worker token result) s =
    (complete env clock draw worker token result s).1
serve env (fail_call clock worker token error retryable) s =
    (fail clock worker token error retryable s).1
serve env (approve_call clock w i approved actor) s = (approve clock w i approved actor s).1
serve env (sweep_call clock) s = (sweep_expired clock s).1

unfoldable pub serve_all : Env → List Request → Store → Store
unfolding serve
serve_all env [] s = s
serve_all env (r ∷ rs) s = serve_all env rs (serve env r s)

-- Every call, returning or raising, changes the table of nodes by steps of the step relation alone,
-- if the table is consistent.
pub serve-Steps :
    (env : Env) (r : Request) (s : Store)
    → IsConsistent s.nodes
    → Steps s.nodes (serve env r s).nodes
unfolding serve
serve-Steps env (submit_call clock w spec h) s c =
    submit-Writes clock w spec (workflow_spec-CanAttempt spec spec h) s c
serve-Steps env (register_call clock worker) s c = unfold register in here
serve-Steps env (claim_call swept clock token worker workflow) s c =
    claim-Steps env swept clock token worker workflow s c
serve-Steps env (heartbeat_call clock worker token) s c = heartbeat-Steps env clock worker token s
serve-Steps env (complete_call clock draw worker token result) s c =
    complete-Steps env clock draw worker token result s c
serve-Steps env (fail_call clock worker token error retryable) s c =
    fail-Steps clock worker token error retryable s c
serve-Steps env (approve_call clock w i approved actor) s c =
    approve-Steps clock w i actor approved s
serve-Steps env (sweep_call clock) s c = sweep_expired-Steps clock s c

keeps_IsConsistent :
    (env : Env) (rs : List Request) (s : Store)
    → IsConsistent s.nodes
    → IsConsistent (serve_all env rs s).nodes
unfolding serve_all
keeps_IsConsistent env [] s c = c
keeps_IsConsistent env (r ∷ rs) s c =
    keeps_IsConsistent env rs (serve env r s) (Steps-IsConsistent (serve-Steps env r s c) c)

-- After any calls on an empty store the table of nodes is consistent: a key finds its row; the lease
-- columns are set exactly while a node is leased; attempts stay within their limit; completed nodes
-- kept to their budgets of tokens and cost; and a node that is not blocked has all of its dependencies
-- completed.
pub serve_all-IsConsistent :
    (env : Env) (rs : List Request) → IsConsistent (serve_all env rs empty).nodes
serve_all-IsConsistent env rs = keeps_IsConsistent env rs empty nil-IsConsistent

-- Through any call a node keeps its key, its dependencies and its limits, its attempts do not fall,
-- and its status moves along the arrows of the state machine, so a completed or failed node stays so.
pub serve-Tracked :
    (env : Env) (r : Request) (s : Store)
    → IsConsistent s.nodes
    → Tracked s.nodes (serve env r s).nodes
serve-Tracked env r s c = Steps-Tracked (serve-Steps env r s c)
