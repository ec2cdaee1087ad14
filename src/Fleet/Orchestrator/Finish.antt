-- ===== src/Fleet/Orchestrator/Finish.antt =====
-- orchestrator.py: how a lease ends and an approval is decided: `complete`, `fail` and `approve`, with
-- `_lease` and `_artifact`.
use Prim.Native.String
use evoagent_os.Base.{
  ℕ, String, Bool, false, not, ◌&&◌, ◌||◌, List, [], ◌∷◌, ◌++◌, none, some, ltb, ◌==◌, nat_eq,
  if◌then◌else◌,
}
use evoagent_os.Base.Rows.{select, count, update_where, find, head?}
use evoagent_os.Base.Action.{ok, err, pure, gets, modify, or_raise, raise_if, ◌>>=◌, ◌>>◌}
use evoagent_os.Fleet.Models.{NodeStatus, Completion}
use evoagent_os.Fleet.Store.{
  Store, WorkflowStatus, Node, ArtifactRow, ArtifactView, event, node_completed, node_retrying,
  node_failed, node_approval, is_node, is_worker, is_awaiting, holds_lease,
}
use evoagent_os.Fleet.Orchestrator.{
  integrity_error, lease_not_active, over_budget, bad_artifact_name, not_awaiting, index_error, Env,
  Clock, Completed, Fleet, update_node, set_workflow,
}
use evoagent_os.Fleet.Orchestrator.Claim.{may_retry, release, after_attempt}
use evoagent_os.Fleet.Orchestrator.Advance.{advance, record_route}

abbrev lapsed : ℕ → Node → Bool
lapsed time n = elim n.lease_expires [ none ↦ false | some e ↦ ltb e time ]

-- `_lease`: the row whose lease the worker holds, while it has not expired.
unfoldable pub active_lease : ℕ → String → String → Fleet Node
unfolding select head?
active_lease time worker_id token = do
  rows ← gets (λ s. select (holds_lease worker_id token) s.nodes)
  row ← or_raise lease_not_active (head? rows)
  raise_if (lapsed time row) lease_not_active
  pure row

-- INSERT INTO artifacts: the key of a row is new.
unfoldable pub insert_artifact : ArtifactRow → Fleet Unit
insert_artifact row s = elim (find (λ r. r.artifact_id == row.artifact_id) s.artifacts) [
  | some _ ↦ (err integrity_error, s)
  | none ↦ (ok tt, record s { artifacts = s.artifacts ++ row ∷ [] })
]

-- The row of an artifact, its file named by the digest and the name.
abbrev pub artifact_row : Env → Clock → String → Node → String → String → ArtifactRow
artifact_row env clock artifact_id row name content =
    let digest = env.sha256 content in
    let file = String.◌++◌ (String.slice digest 0 12) (String.◌++◌ "-" name) in
    record {
      artifact_id = artifact_id;
      workflow_id = row.workflow_id;
      node_id = row.node_id;
      name = name;
      digest = digest;
      size = String.len content;
      path = env.artifact_root ∷ row.workflow_id ∷ row.node_id ∷ file ∷ [];
      created_at = clock.stamp;
    }

abbrev pub artifact_view : ArtifactRow → ArtifactView
artifact_view r = record {
  artifact_id = r.artifact_id;
  name = r.name;
  sha256 = r.digest;
  size = r.size;
}

-- path.write_bytes(data)
abbrev pub write_bytes : List String → String → Fleet Unit
write_bytes path content = modify (λ s. record s { files = (path, content) ∷ s.files })

-- `_artifact`: the file is written before the row. `artifact_id` is the identifier that the call draws.
unfoldable pub add_artifact : Env → Clock → String → Node → String → String → Fleet ArtifactView
add_artifact env clock artifact_id row name content = do
  raise_if (not (env.path_name name == name) || name == "") bad_artifact_name
  let made = artifact_row env clock artifact_id row name content
  write_bytes made.path content
  insert_artifact made
  pure (artifact_view made)

-- `draw` gives the identifier for the artifact of a name; the names of a dict are distinct.
unfoldable pub add_artifacts :
    Env → Clock → (String → String) → Node → List (String × String) → Fleet (List ArtifactView)
add_artifacts env clock draw row [] = pure []
add_artifacts env clock draw row ((name, content) ∷ more) = do
  view ← add_artifact env clock (draw name) row name content
  views ← add_artifacts env clock draw row more
  pure (view ∷ views)

-- SELECT pool FROM workers WHERE worker_id=?, and its first row.
unfoldable pub pool_of : String → Fleet String
pool_of worker_id = do
  found ← gets (λ s. find (is_worker worker_id) s.workers)
  worker ← or_raise index_error found
  pure worker.pool

abbrev pub finish_node : Completion → ℕ → Node → Node
finish_node result stamp n = record n {
  status = NodeStatus.completed;
  output = some result.output;
  tokens_used = result.tokens_used;
  cost_usd = result.cost_usd;
  duration_seconds = result.duration_seconds;
  leased_by = none;
  lease_token = none;
  lease_expires = none;
  updated_at = stamp;
}

abbrev pub exceeds : Completion → Node → Bool
exceeds result row =
    ltb row.budget.tokens result.tokens_used || ltb row.budget.cost_usd result.cost_usd

-- The route metrics and the event of a completion.
unfoldable pub note_success :
    Clock → String → Completion → Node → List ArtifactView → String → Store → Store
note_success clock worker_id result row views pool s =
    event clock.stamp (node_completed worker_id views) row.workflow_id (some row.node_id)
      (record_route clock.stamp pool 1 result.quality result.cost_usd result.duration_seconds s)

-- `complete` after its write to the node.
unfoldable pub settle : Clock → String → Completion → Node → List ArtifactView → Fleet Completed
settle clock worker_id result row views = do
  pool ← pool_of worker_id
  modify (note_success clock worker_id result row views pool)
  advance clock.stamp row.workflow_id
  pure (record { workflow_id = row.workflow_id; node_id = row.node_id; artifacts = views })

-- `complete` once the row of its lease is read.
unfoldable pub complete_row :
    Env → Clock → (String → String) → String → Completion → Node → Fleet Completed
complete_row env clock draw worker_id result row = do
  raise_if (exceeds result row) over_budget
  views ← add_artifacts env clock draw row result.artifacts
  modify (update_node row.workflow_id row.node_id (finish_node result clock.stamp))
  settle clock worker_id result row views

unfoldable pub complete :
    Env → Clock → (String → String) → String → String → Completion → Fleet Completed
complete env clock draw worker_id token result = do
  row ← active_lease clock.time worker_id token
  complete_row env clock draw worker_id result row

-- The event of a failure.
unfoldable pub failure_event : Bool → ℕ → String → String → Node → Store → Store
failure_event retry stamp worker_id error row s =
    event stamp (if retry then node_retrying worker_id error else node_failed worker_id error)
      row.workflow_id (some row.node_id) s

-- `fail` after its write to the node.
unfoldable pub settle_failure : Clock → String → String → Bool → Node → Fleet Unit
unfolding failure_event
settle_failure clock worker_id error retry row = do
  pool ← pool_of worker_id
  modify (record_route clock.stamp pool 0 0 0 0)
  modify (failure_event retry clock.stamp worker_id error row)
  modify
      (λ s. if retry then s else set_workflow row.workflow_id WorkflowStatus.failed clock.stamp s)

-- `fail` once the row of its lease is read.
unfoldable pub fail_row : Clock → String → String → Bool → Node → Fleet Unit
fail_row clock worker_id error retry row = do
  modify (
      update_node row.workflow_id row.node_id
        (release (after_attempt retry) (some error) clock.stamp))
  settle_failure clock worker_id error retry row

unfoldable pub fail : Clock → String → String → String → Bool → Fleet Unit
fail clock worker_id token error retryable = do
  row ← active_lease clock.time worker_id token
  fail_row clock worker_id error (retryable && may_retry row) row

abbrev pub decide_node : Bool → String → ℕ → Node → Node
decide_node approved actor stamp n = record n {
  status = after_attempt approved;
  approval_actor = some actor;
  error = if approved then none else some "Approval denied";
  updated_at = stamp;
}

-- workflow_id=? AND node_id=? AND status='awaiting_approval'
abbrev pub awaits : String → String → Node → Bool
awaits workflow_id node_id n = is_node workflow_id node_id n && is_awaiting n.status

unfoldable pub approve : Clock → String → String → Bool → String → Fleet Unit
approve clock workflow_id node_id approved actor = do
  changed ← gets (λ s. count (awaits workflow_id node_id) s.nodes)
  modify (λ s. record s {
    nodes =
        update_where (awaits workflow_id node_id) (decide_node approved actor clock.stamp) s.nodes;
  })
  raise_if (nat_eq changed 0) not_awaiting
  modify (event clock.stamp (node_approval approved actor) workflow_id (some node_id))
  modify (λ s. if approved then s else set_workflow workflow_id WorkflowStatus.failed clock.stamp s)
