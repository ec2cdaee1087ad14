-- ===== src/Fleet/Orchestrator/Advance.antt =====
-- orchestrator.py: `_advance`, and the route metrics of `_record_route`.
use evoagent_os.Base.{
  ℕ, ◌+◌, ◌*◌, String, Bool, true, false, List, [], ◌∷◌, none, some, all, ◌==◌, if◌then◌else◌,
}
use evoagent_os.Base.Rows.{select, update_where, find}
use evoagent_os.Base.Action.{Result, ok, err, modify, ◌>>◌}
use evoagent_os.Fleet.Models.{NodeStatus, one}
use evoagent_os.Fleet.Store.{
  Store, WorkflowStatus, Node, RouteRow, event, node_ready, workflow_completed, is_blocked,
  is_completed,
}
use evoagent_os.Fleet.Orchestrator.{FleetError, key_error, Fleet, update_node, set_workflow}

abbrev pub of_workflow : String → Node → Bool
of_workflow workflow_id n = n.workflow_id == workflow_id

-- `all(statuses[parent] == COMPLETED for parent in deps)`, which stops at the first that is not.
unfoldable pub deps_completed : List Node → List String → Result FleetError Bool
deps_completed rows [] = ok true
deps_completed rows (d ∷ ds) =
    let rest = deps_completed rows ds in
    elim (find (λ n. n.node_id == d) rows) [
      | none ↦ err key_error
      | some n ↦ if is_completed n.status then rest else ok false
    ]

abbrev pub ready_status : Node → NodeStatus
ready_status n = if n.approval_required then NodeStatus.awaiting_approval else NodeStatus.queued

unfoldable pub make_ready : ℕ → Node → Store → Store
make_ready stamp row s =
    event stamp (node_ready (ready_status row)) row.workflow_id (some row.node_id) (
      update_node row.workflow_id row.node_id
        (λ n. record n { status = ready_status row; updated_at = stamp }) s)

-- The loop over the rows read before it; `rows` stays for the dict of their statuses.
unfoldable pub advance_rows : ℕ → List Node → List Node → Fleet Unit
advance_rows stamp rows [] s = (ok tt, s)
advance_rows stamp rows (row ∷ todo) s =
    let skip = advance_rows stamp rows todo s in
    if is_blocked row.status
    then elim (deps_completed rows row.deps) [
      | err e ↦ (err e, s)
      | ok ready ↦ advance_rows stamp rows todo (if ready then make_ready stamp row s else s)
    ]
    else skip

abbrev pub is_nil : List Node → Bool
is_nil [] = true
is_nil (_ ∷ _) = false

unfoldable pub close_workflow : ℕ → String → Store → Store
close_workflow stamp workflow_id s =
    let refreshed = select (of_workflow workflow_id) s.nodes in
    if is_nil refreshed
    then s
    else if all (λ n. is_completed n.status) refreshed
    then event stamp workflow_completed workflow_id none
        (set_workflow workflow_id WorkflowStatus.completed stamp s)
    else s

unfoldable pub advance : ℕ → String → Fleet Unit
unfolding advance_rows close_workflow
advance stamp workflow_id s =
    let rows = select (of_workflow workflow_id) s.nodes in
    (advance_rows stamp rows rows >> modify (close_workflow stamp workflow_id)) s

-- The update reads the old columns on its right. The score is
-- (successes + s + 1) / (runs + 2) * 0.7 + (quality_sum + q) / (runs + 1) * 0.3.
unfoldable pub score_route : ℕ → ℕ → ℕ → ℕ → ℕ → RouteRow → RouteRow
score_route stamp success quality cost latency r = record r {
  runs = r.runs + 1;
  successes = r.successes + success;
  quality_sum = r.quality_sum + quality;
  cost_sum = r.cost_sum + cost;
  latency_sum = r.latency_sum + latency;
  score_num =
      7 * (r.successes + success + 1) * (r.runs + 1) * one
      + 3 * (r.quality_sum + quality) * (r.runs + 2);
  score_den = 10 * (r.runs + 2) * (r.runs + 1) * one;
  updated_at = stamp;
}

unfoldable pub record_route : ℕ → String → ℕ → ℕ → ℕ → ℕ → Store → Store
unfolding score_route
record_route stamp pool success quality cost latency s = record s {
  routes =
      update_where (λ r. r.pool == pool) (score_route stamp success quality cost latency) s.routes;
}
