-- ===== src/Fleet/Tests.antt =====
-- A run of the fleet on a workflow of two nodes, and the theorems at the inputs that it meets.
use evoagent_os.Base.{
  ℕ, ◌≡◌, refl, ◌↔◌, arith, String, Bool, true, false, map, List, [], ◌∷◌, none, some,
}
use evoagent_os.Base.Rows.{select, count, update_where, find, head?}
use evoagent_os.Base.Action
use evoagent_os.Fleet.Models.{
  NodeStatus, NodeSpec, WorkflowSpec, WorkerRegistration, Completion, one,
}
use evoagent_os.Fleet.Models.Dag
use evoagent_os.Fleet.Models.Dag.{SpecError, edges, ids, workflow_spec, validate_dag}
use evoagent_os.Fleet.Models.Dag.Order.{IsOrdered, IsSubset, validate_dag-IsOrdered}
use evoagent_os.Fleet.Models.Dag.Refusals.{Fault, validate_dag-Fault}
use evoagent_os.Fleet.Models.Dag.Acceptance.{validate_dag_iff}
use evoagent_os.Fleet.Store.{Store, Node, empty, event, RouteRow}
use evoagent_os.Fleet.Orchestrator.{Env, Clock, Lease, seen, set_workflow, update_node}
use evoagent_os.Fleet.Orchestrator.Submit.{
  submit, insert_workflow, insert_nodes, insert_node, new_node, register,
}
use evoagent_os.Fleet.Orchestrator.Claim.{
  claim, claim_swept, choose, order_rows, insert_row, lease_choice, lease_row, heartbeat,
  sweep_expired, sweep_rows, sweep_row, is_expired,
}
use evoagent_os.Fleet.Orchestrator.Advance.{
  advance, advance_rows, close_workflow, make_ready, deps_completed, record_route, score_route,
}
use evoagent_os.Fleet.Orchestrator.Finish.{
  complete, active_lease, complete_row, add_artifacts, add_artifact, insert_artifact, pool_of,
  settle, note_success, fail, fail_row, settle_failure, approve,
}
use evoagent_os.Fleet.Orchestrator.Steps.{Steps}
use evoagent_os.Fleet.Orchestrator.Steps.Invariant.{IsConsistent}
use evoagent_os.Fleet.Orchestrator.Steps.Lifecycle.{Tracked}
use evoagent_os.Fleet.Orchestrator.Refinement.{
  Request, submit_call, register_call, claim_call, complete_call, serve, serve_all, serve-Steps,
  serve-Tracked, serve_all-IsConsistent,
}
use evoagent_os.Fleet.Orchestrator.Granting.{IsGranted, claim_swept-IsGranted}
use evoagent_os.Fleet.Orchestrator.Expiry.{sweep_expired-bulk, expire}
use evoagent_os.Fleet.Orchestrator.Routes.{IsScored, score_route-IsScored}

-- What the runs below compute with.
machine : Unit {0}
unfolding submit insert_workflow insert_nodes insert_node new_node register claim claim_swept choose
    order_rows insert_row lease_choice lease_row heartbeat sweep_expired sweep_rows sweep_row
    complete active_lease complete_row add_artifacts add_artifact insert_artifact pool_of settle
    note_success advance advance_rows close_workflow make_ready deps_completed record_route
    score_route fail fail_row settle_failure approve event seen set_workflow update_node select
    count update_where find head? serve serve_all
machine = tt

abbrev env : Env
env = record {
  lease_seconds = 60;
  artifact_root = "/artifacts";
  path_name = λ name. name;
  sha256 = λ content. "0123456789abcdef";
}

abbrev at_time : ℕ → Clock
at_time t = record { time = t; stamp = t }

abbrev node : String → List String → Bool → NodeSpec
node id deps approval = record {
  id = id;
  objective = "do it";
  depends_on = deps;
  capabilities = [];
  input = "{}";
  budget = record { tokens = 100; cost_usd = one; seconds = 60 };
  approval_required = approval;
  max_attempts = 2;
}

abbrev release_flow : WorkflowSpec
release_flow = record {
  name = "release";
  nodes = node "publish" ("research" ∷ []) true ∷ node "research" [] false ∷ [];
  metadata = "{}";
}

abbrev circle : WorkflowSpec
circle = record {
  name = "circle";
  nodes = node "a" ("b" ∷ []) false ∷ node "b" ("a" ∷ []) false ∷ [];
  metadata = "{}";
}

release_flow_accepted : workflow_spec release_flow ≡ Dag.ok release_flow
unfolding workflow_spec
release_flow_accepted = refl

release_flow_valid : validate_dag 3 release_flow ≡ Dag.ok tt
unfolding validate_dag
release_flow_valid = refl

circle_refused : validate_dag 3 circle ≡ Dag.err SpecError.cycle
unfolding validate_dag
circle_refused = refl

validate_dag-IsOrdered_example :
    (order : List String) × IsOrdered (edges release_flow.nodes) order
    × IsSubset (ids release_flow.nodes) order
validate_dag-IsOrdered_example = validate_dag-IsOrdered 3 release_flow release_flow_valid

validate_dag-Fault_example : Fault circle SpecError.cycle
validate_dag-Fault_example =
    validate_dag-Fault circle 3 SpecError.cycle (omega arith) circle_refused

validate_dag_iff_example :
    (validate_dag 3 circle ≡ Dag.ok tt) ↔ ((e : SpecError) → ¬ Fault circle e)
validate_dag_iff_example = validate_dag_iff 3 circle (omega arith)

abbrev worker : WorkerRegistration
worker = record {
  worker_id = "w";
  capabilities = [];
  pool = "default";
  max_concurrency = 1;
  metadata = "{}";
}

abbrev result : Completion
result = record {
  output = "{}";
  artifacts = ("report.md", "done") ∷ [];
  tokens_used = 10;
  cost_usd = 5;
  duration_seconds = 3;
  quality = one;
}

abbrev set_up : List Request
set_up =
    submit_call (at_time 1) "wf_1" release_flow release_flow_accepted
    ∷ register_call (at_time 2) worker
    ∷ []

abbrev claim_request : Request
claim_request = claim_call (at_time 3) (at_time 4) "lease_1" "w" none

abbrev whole_run : List Request
whole_run =
    submit_call (at_time 1) "wf_1" release_flow release_flow_accepted
    ∷ register_call (at_time 2) worker
    ∷ claim_request
    ∷ complete_call (at_time 5) (λ name. name) "w" "lease_1" result
    ∷ []

abbrev ready_store : Store
ready_store = serve_all env set_up empty

abbrev leased_store : Store
leased_store = serve env claim_request ready_store

serve_all-IsConsistent_example : IsConsistent (serve_all env whole_run empty).nodes
serve_all-IsConsistent_example = serve_all-IsConsistent env whole_run

ready_store-IsConsistent : IsConsistent ready_store.nodes
ready_store-IsConsistent = serve_all-IsConsistent env set_up

leased_store-IsConsistent : IsConsistent leased_store.nodes
unfolding serve_all
leased_store-IsConsistent = serve_all-IsConsistent env (
    submit_call (at_time 1) "wf_1" release_flow release_flow_accepted
    ∷ register_call (at_time 2) worker
    ∷ claim_request
    ∷ [])

serve-Steps_example : Steps ready_store.nodes leased_store.nodes
serve-Steps_example = serve-Steps env claim_request ready_store ready_store-IsConsistent

serve-Tracked_example : Tracked ready_store.nodes leased_store.nodes
serve-Tracked_example = serve-Tracked env claim_request ready_store ready_store-IsConsistent

-- The dependent node waits for approval once the other is completed.
whole_run_status :
    map (λ (n : Node). n.status) (serve_all env whole_run empty).nodes
    ≡ NodeStatus.awaiting_approval ∷ NodeStatus.completed ∷ []
unfolding machine
whole_run_status = refl

abbrev lease_1 : Lease
lease_1 = record {
  workflow_id = "wf_1";
  node_id = "research";
  objective = "do it";
  input = "{}";
  budget = record { tokens = 100; cost_usd = one; seconds = 60 };
  lease_token = "lease_1";
  lease_expires = 64;
}

lease_1_granted :
    (claim_swept env (at_time 4) "lease_1" "w" none ready_store).0 ≡ Action.ok (some lease_1)
unfolding machine
lease_1_granted = refl

claim_swept-IsGranted_example :
    IsGranted env
      (at_time 4)
      "lease_1"
      "w"
      none
      ready_store
      lease_1
      (claim_swept env (at_time 4) "lease_1" "w" none ready_store).1
claim_swept-IsGranted_example =
    claim_swept-IsGranted env (at_time 4) "lease_1" "w" none ready_store lease_1
      ready_store-IsConsistent lease_1_granted

sweep_expired-bulk_example :
    ((sweep_expired (at_time 70) leased_store).1.nodes
      ≡ update_where (is_expired 70) (expire 70) leased_store.nodes)
    × ((sweep_expired (at_time 70) leased_store).1.workflows ≡ leased_store.workflows)
    × ((sweep_expired (at_time 70) leased_store).0
        ≡ Action.ok (count (is_expired 70) leased_store.nodes))
sweep_expired-bulk_example = sweep_expired-bulk (at_time 70) leased_store leased_store-IsConsistent

one_expired : count (is_expired 70) leased_store.nodes ≡ 1
unfolding machine
one_expired = refl

abbrev new_route : RouteRow
new_route = record {
  pool = "default";
  runs = 0;
  successes = 0;
  quality_sum = 0;
  cost_sum = 0;
  latency_sum = 0;
  score_num = 1;
  score_den = 2;
  updated_at = 0;
}

score_route-IsScored_example : IsScored (score_route 5 1 one 5 3 new_route)
score_route-IsScored_example =
    score_route-IsScored 5 1 one 5 3 new_route (omega arith) (omega arith) (record {
      successes = omega arith;
      quality = omega arith;
      positive = omega arith;
      score = omega arith;
    })
