-- ===== src/Fleet/Orchestrator/Submit.antt =====
-- orchestrator.py: `submit` and `register`.
use evoagent_os.Base.{ℕ, String, List, [], ◌∷◌, ◌++◌, none, some, true, length, ◌==◌, if◌then◌else◌}
use evoagent_os.Base.Rows.{update_where, find}
use evoagent_os.Base.Action.{ok, err, pure, modify, ◌>>◌}
use evoagent_os.Fleet.Models.{NodeStatus, NodeSpec, WorkflowSpec, WorkerRegistration}
use evoagent_os.Fleet.Store.{
  WorkflowStatus, WorkflowRow, Node, WorkerRow, RouteRow, event, workflow_submitted, is_node,
  is_workflow, is_worker,
}
use evoagent_os.Fleet.Orchestrator.{integrity_error, Clock, Fleet}

-- The row that `submit` inserts for a node.
unfoldable pub new_node : String → ℕ → NodeSpec → Node
new_node workflow_id stamp spec = record {
  workflow_id = workflow_id;
  node_id = spec.id;
  objective = spec.objective;
  status = elim spec.depends_on [
    | [] ↦ if spec.approval_required then NodeStatus.awaiting_approval else NodeStatus.queued
    | _ ∷ _ ↦ NodeStatus.blocked
  ];
  deps = spec.depends_on;
  capabilities = spec.capabilities;
  input = spec.input;
  output = none;
  error = none;
  budget = spec.budget;
  approval_required = spec.approval_required;
  approval_actor = none;
  attempts = 0;
  max_attempts = spec.max_attempts;
  leased_by = none;
  lease_token = none;
  lease_expires = none;
  tokens_used = 0;
  cost_usd = 0;
  duration_seconds = 0;
  created_at = stamp;
  updated_at = stamp;
}

-- INSERT INTO nodes, under its primary key.
unfoldable pub insert_node : Node → Fleet Unit
insert_node n s = elim (find (is_node n.workflow_id n.node_id) s.nodes) [
  | some _ ↦ (err integrity_error, s)
  | none ↦ (ok tt, record s { nodes = s.nodes ++ n ∷ [] })
]

unfoldable pub insert_nodes : String → ℕ → List NodeSpec → Fleet Unit
unfolding insert_node new_node
insert_nodes workflow_id stamp [] = pure tt
insert_nodes workflow_id stamp (n ∷ ns) =
    insert_node (new_node workflow_id stamp n) >> insert_nodes workflow_id stamp ns

unfoldable pub insert_workflow : WorkflowRow → Fleet Unit
insert_workflow w s = elim (find (is_workflow w.workflow_id) s.workflows) [
  | some _ ↦ (err integrity_error, s)
  | none ↦ (ok tt, record s { workflows = s.workflows ++ w ∷ [] })
]

abbrev pub new_workflow : Clock → String → WorkflowSpec → WorkflowRow
new_workflow clock workflow_id spec = record {
  workflow_id = workflow_id;
  name = spec.name;
  status = WorkflowStatus.running;
  metadata = spec.metadata;
  created_at = clock.stamp;
  updated_at = clock.stamp;
}

-- `workflow_id` is the identifier that the call draws.
unfoldable pub submit : Clock → String → WorkflowSpec → Fleet String
unfolding insert_workflow insert_nodes event
submit clock workflow_id spec = do
  insert_workflow (new_workflow clock workflow_id spec)
  insert_nodes workflow_id clock.stamp spec.nodes
  modify (event clock.stamp (workflow_submitted spec.name (length spec.nodes)) workflow_id none)
  pure workflow_id

-- INSERT INTO workers ... ON CONFLICT(worker_id) DO UPDATE
upsert_worker : WorkerRow → List WorkerRow → List WorkerRow
upsert_worker w rows = elim (find (is_worker w.worker_id) rows) [
  | none ↦ rows ++ w ∷ []
  | some _ ↦ update_where (is_worker w.worker_id) (λ _. w) rows
]

-- INSERT INTO route_metrics ... ON CONFLICT(pool) DO NOTHING, with the columns' defaults
add_route : String → ℕ → List RouteRow → List RouteRow
add_route pool stamp rows = elim (find (λ r. r.pool == pool) rows) [
  | some _ ↦ rows
  | none ↦
      rows
      ++ record {
        pool = pool;
        runs = 0;
        successes = 0;
        quality_sum = 0;
        cost_sum = 0;
        latency_sum = 0;
        score_num = 1;
        score_den = 2;
        updated_at = stamp;
      }
        ∷ []
]

unfoldable pub register : Clock → WorkerRegistration → Fleet Unit
unfolding upsert_worker add_route
register clock worker = modify λ s. record s {
  workers =
      upsert_worker
        (record {
          worker_id = worker.worker_id;
          capabilities = worker.capabilities;
          pool = worker.pool;
          max_concurrency = worker.max_concurrency;
          metadata = worker.metadata;
          online = true;
          last_seen = clock.stamp;
        })
        s.workers;
  routes = add_route worker.pool clock.stamp s.routes;
}
