-- ===== src/Fleet/Store.antt =====
-- services/fleet/src/evoagent_fleet/store.py: the tables of the SQLite database, one record for
-- each kind of row, and the event log. A JSON column is the value whose text it holds. A time of
-- `time.time()` counts in some fixed unit; a time of `now()` is a stamp that grows with it.
use evoagent_os.Base.{
  ℕ, ◌+◌, String, Bool, true, false, ◌&&◌, List, [], ◌∷◌, ◌++◌, Option, none, some, length, ◌==◌,
}
use evoagent_os.Fleet.Models.{NodeStatus, Budget}

pub data WorkflowStatus : Type 0 where
  running completed failed : WorkflowStatus

pub record WorkflowRow : Type 0 where
  pub workflow_id : String
  pub name : String
  pub status : WorkflowStatus
  pub metadata : String
  pub created_at : ℕ
  pub updated_at : ℕ

pub record Node : Type 0 where
  pub workflow_id : String
  pub node_id : String
  pub objective : String
  pub status : NodeStatus
  pub deps : List String
  pub capabilities : List String
  pub input : String
  pub output : Option String
  pub error : Option String
  pub budget : Budget
  pub approval_required : Bool
  pub approval_actor : Option String
  pub attempts : ℕ
  pub max_attempts : ℕ
  pub leased_by : Option String
  pub lease_token : Option String
  pub lease_expires : Option ℕ
  pub tokens_used : ℕ
  pub cost_usd : ℕ
  pub duration_seconds : ℕ
  pub created_at : ℕ
  pub updated_at : ℕ

pub record WorkerRow : Type 0 where
  pub worker_id : String
  pub capabilities : List String
  pub pool : String
  pub max_concurrency : ℕ
  pub metadata : String
  pub online : Bool
  pub last_seen : ℕ

pub record ArtifactRow : Type 0 where
  pub artifact_id : String
  pub workflow_id : String
  pub node_id : String
  pub name : String
  pub digest : String
  pub size : ℕ
  pub path : List String
  pub created_at : ℕ

-- What `_artifact` returns, and the event of a completion lists.
pub record ArtifactView : Type 0 where
  pub artifact_id : String
  pub name : String
  pub sha256 : String
  pub size : ℕ

-- The kinds of events, with their payloads.
pub data EventKind : Type 0 where
  workflow_submitted : (name : String) (nodes : ℕ) → EventKind
  node_leased : (worker_id : String) (lease_expires : ℕ) → EventKind
  node_completed : (worker_id : String) (artifacts : List ArtifactView) → EventKind
  node_retrying node_failed : (worker_id error : String) → EventKind
  node_approval : (approved : Bool) (actor : String) → EventKind
  lease_expired : (retry : Bool) → EventKind
  node_ready : (status : NodeStatus) → EventKind
  workflow_completed : EventKind

pub record Event : Type 0 where
  pub seq : ℕ
  pub kind : EventKind
  pub workflow_id : String
  pub node_id : Option String
  pub created_at : ℕ

-- A score is the fraction `score_num / score_den`.
pub record RouteRow : Type 0 where
  pub pool : String
  pub runs : ℕ
  pub successes : ℕ
  pub quality_sum : ℕ
  pub cost_sum : ℕ
  pub latency_sum : ℕ
  pub score_num : ℕ
  pub score_den : ℕ
  pub updated_at : ℕ

-- The database, and the files under the artifact root.
pub record Store : Type 0 where
  pub workflows : List WorkflowRow
  pub nodes : List Node
  pub workers : List WorkerRow
  pub artifacts : List ArtifactRow
  pub events : List Event
  pub routes : List RouteRow
  pub files : List (List String × String)

abbrev pub empty : Store
empty = record {
  workflows = [];
  nodes = [];
  workers = [];
  artifacts = [];
  events = [];
  routes = [];
  files = [];
}

-- Rows are never deleted from the event table, so AUTOINCREMENT counts them.
unfoldable pub event : ℕ → EventKind → String → Option String → Store → Store
event stamp kind workflow_id node_id s = record s {
  events =
      s.events
      ++ record {
        seq = length s.events + 1;
        kind = kind;
        workflow_id = workflow_id;
        node_id = node_id;
        created_at = stamp;
      }
        ∷ [];
}

-- The tests of the `WHERE` clauses. A comparison with NULL does not hold.
abbrev pub column_eq : Option String → String → Bool
column_eq none a = false
column_eq (some b) a = b == a

-- workflow_id=? AND node_id=?, the primary key.
abbrev pub is_node : String → String → Node → Bool
is_node workflow_id node_id n = n.workflow_id == workflow_id && n.node_id == node_id

abbrev pub is_workflow : String → WorkflowRow → Bool
is_workflow workflow_id w = w.workflow_id == workflow_id

abbrev pub is_worker : String → WorkerRow → Bool
is_worker worker_id w = w.worker_id == worker_id

abbrev pub is_blocked : NodeStatus → Bool
is_blocked NodeStatus.blocked = true
is_blocked _ = false

abbrev pub is_queued : NodeStatus → Bool
is_queued NodeStatus.queued = true
is_queued _ = false

abbrev pub is_awaiting : NodeStatus → Bool
is_awaiting NodeStatus.awaiting_approval = true
is_awaiting _ = false

abbrev pub is_leased : NodeStatus → Bool
is_leased NodeStatus.leased = true
is_leased _ = false

abbrev pub is_completed : NodeStatus → Bool
is_completed NodeStatus.completed = true
is_completed _ = false

-- leased_by=? AND lease_token=? AND status='leased'
abbrev pub holds_lease : String → String → Node → Bool
holds_lease worker_id token n =
    column_eq n.leased_by worker_id && column_eq n.lease_token token && is_leased n.status
