-- ===== src/Fleet/Orchestrator.antt =====
-- services/fleet/src/evoagent_fleet/orchestrator.py: the methods of `Orchestrator`, each an action
-- on the store. The clock readings of a call and the identifiers that it draws are its arguments.
pub mod Submit
pub mod Claim
pub mod Advance
pub mod Finish
pub mod Steps
pub mod Refinement
pub mod Granting
pub mod Expiry
pub mod Routes
use Prim.Native.Nat.{Ordering}
use Prim.Native.String.{compare, slice, len}
use evoagent_os.Base.{
  ℕ, suc, ◌+◌, ◌*◌, String, Bool, true, false, not, ◌&&◌, ◌||◌, List, [], ◌∷◌, ◌++◌, Option, none,
  some, length, all, mem_text, ltb, leb, nat_eq, ◌==◌, if◌then◌else◌,
}
use evoagent_os.Base.Rows.{select, count, update_where, find, head?}
use evoagent_os.Base.Action.{
  Result, ok, err, Action, pure, raise, gets, modify, or_raise, raise_if, ◌>>=◌, ◌>>◌,
}
use evoagent_os.Fleet.Models.{
  NodeStatus, Budget, NodeSpec, WorkflowSpec, WorkerRegistration, Completion, one,
}
use evoagent_os.Fleet.Store.{
  Store, WorkflowStatus, WorkflowRow, Node, WorkerRow, ArtifactRow, ArtifactView, RouteRow,
  EventKind, event, workflow_submitted, node_leased, node_completed, node_retrying, node_failed,
  node_approval, lease_expired, node_ready, workflow_completed, is_node, is_workflow, is_worker,
  is_blocked, is_queued, is_awaiting, is_leased, is_completed, holds_lease,
}

-- The `ValueError`s of the methods, and the errors of SQLite and Python that they do not catch.
pub data FleetError : Type 0 where
  not_registered lease_not_active over_budget bad_artifact_name not_awaiting not_found : FleetError
  integrity_error key_error index_error : FleetError

-- The configuration, and the functions of other packages: `Path(name).name` of pathlib, and
-- `sha256(content).hexdigest()` of hashlib.
pub record Env : Type 0 where
  pub lease_seconds : ℕ
  pub artifact_root : String
  pub path_name : String → String
  pub sha256 : String → String

-- The readings of the clock during a call: `time.time()` and `now()`.
pub record Clock : Type 0 where
  pub time : ℕ
  pub stamp : ℕ

pub record Lease : Type 0 where
  pub workflow_id : String
  pub node_id : String
  pub objective : String
  pub input : String
  pub budget : Budget
  pub lease_token : String
  pub lease_expires : ℕ

pub record Completed : Type 0 where
  pub workflow_id : String
  pub node_id : String
  pub artifacts : List ArtifactView

abbrev pub Fleet : Type 0 → Type 0
Fleet A = Action Store FleetError A

-- UPDATE nodes SET f WHERE workflow_id=? AND node_id=?
unfoldable pub update_node : String → String → (Node → Node) → Store → Store
update_node workflow_id node_id f s = record s {
  nodes = update_where (is_node workflow_id node_id) f s.nodes;
}

-- UPDATE workflows SET status=?,updated_at=? WHERE workflow_id=?
unfoldable pub set_workflow : String → WorkflowStatus → ℕ → Store → Store
set_workflow workflow_id status stamp s = record s {
  workflows =
      update_where (is_workflow workflow_id) (λ w. record w { status = status; updated_at = stamp })
        s.workflows;
}

-- UPDATE workers SET last_seen=? WHERE worker_id=?
unfoldable pub seen : String → ℕ → Store → Store
seen worker_id stamp s = record s {
  workers = update_where (is_worker worker_id) (λ w. record w { last_seen = stamp }) s.workers;
}
