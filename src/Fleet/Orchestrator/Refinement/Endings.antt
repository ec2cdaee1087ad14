-- ===== src/Fleet/Orchestrator/Refinement/Endings.antt =====
-- orchestrator.py: the writes of `complete`, `fail` and `approve` as steps.
use mathlib.Core.List.{Memᴰ}
use evoagent_os.Base.{
  ℕ, String, ◌≡◌, refl, sym, ap, subst, arith, inl, inr, Bool, true, false, ◌&&◌, List, [], ◌∷◌,
  some, Bool-cases, Option-cases, not, ◌||◌, ◌==◌,
}
use evoagent_os.Base.Action.{ok, raise_if, modify, ◌>>◌}
use evoagent_os.Base.Rows.{find, select, update_where, mem-select, mem-head?}
use evoagent_os.Fleet.Models.{NodeStatus}
use evoagent_os.Fleet.Store.{Store, Node, is_node, event}
use evoagent_os.Fleet.Models.{Completion}
use evoagent_os.Fleet.Store.{ArtifactRow, ArtifactView, holds_lease}
use evoagent_os.Fleet.Orchestrator.{
  bad_artifact_name, Env, Clock, Completed, Fleet, update_node, set_workflow,
}
use evoagent_os.Fleet.Orchestrator.Claim.{may_retry, release, after_attempt}
use evoagent_os.Fleet.Orchestrator.Advance.{advance, record_route}
use evoagent_os.Fleet.Orchestrator.Finish.{
  active_lease, artifact_row, artifact_view, write_bytes, insert_artifact, add_artifact,
  add_artifacts, pool_of, finish_node, exceeds, note_success, settle, complete_row, complete,
  settle_failure, fail_row, fail, decide_node, awaits, approve,
}
use evoagent_os.Fleet.Orchestrator.Steps.{
  NodeStep, stop, finish, decide, TableStep, edit, Steps, here, one_step, Steps-trans,
}
use evoagent_os.Fleet.Orchestrator.Steps.Keys.{same_row, IsIndexed}
use evoagent_os.Fleet.Orchestrator.Steps.Invariant.{IsConsistent, TableStep-IsConsistent}
use evoagent_os.Fleet.Orchestrator.Refinement.Advance.{advance-Steps}
use evoagent_os.Fleet.Orchestrator.Refinement.Writes.{Writes, Writes-bind, nodes-bind, Steps-bind}
use evoagent_os.Base.{and_true}
use evoagent_os.Base.Action.{◌>>=◌, modify, ◌>>◌, pure}

-- A row that `_lease` returns is a leased row of the table.
pub active_lease-row :
    (time : ℕ) (worker token : String) (s : Store) (row : Node)
    → (active_lease time worker token s).0 ≡ ok row
    → Memᴰ row s.nodes × (holds_lease worker token row ≡ true)
unfolding active_lease
active_lease-row time worker token s row h =
    mem-select (holds_lease worker token) s.nodes
      (mem-head? (select (holds_lease worker token) s.nodes) row (ground arith))

active_lease-store :
    (time : ℕ) (worker token : String) (s : Store) → (active_lease time worker token s).1 ≡ s
unfolding active_lease
active_lease-store time worker token s = ground arith

insert_artifact-nodes : (row : ArtifactRow) (s : Store) → (insert_artifact row s).1.nodes ≡ s.nodes
unfolding insert_artifact
insert_artifact-nodes row s =
    elim (Option-cases (find (λ r. r.artifact_id == row.artifact_id) s.artifacts)) [
      | inl n ↦ rw (n, insert_artifact) refl
      | inr (r, n) ↦ rw (n, insert_artifact) refl
    ]

add_artifact-nodes :
    (env : Env) (clock : Clock) (id : String) (row : Node) (name content : String) (s : Store)
    → (add_artifact env clock id row name content s).1.nodes ≡ s.nodes
unfolding add_artifact
add_artifact-nodes env clock id row name content =
    let made = artifact_row env clock id row name content in
    let reply : Fleet ArtifactView = pure (artifact_view made) in
    nodes-bind (raise_if (not (env.path_name name == name) || name == "") bad_artifact_name)
      (λ _. write_bytes made.path content >> (insert_artifact made >> reply)) (λ s. ground arith)
      (λ _.
        nodes-bind (write_bytes made.path content) (λ _. insert_artifact made >> reply) (λ s. refl)
          (λ _.
            nodes-bind (insert_artifact made) (λ _. reply) (insert_artifact-nodes made)
              (λ _ s. refl)))

add_artifacts-nodes :
    (env : Env) (clock : Clock) (draw : String → String) (row : Node) (l : List (String × String))
    (s : Store)
    → (add_artifacts env clock draw row l s).1.nodes ≡ s.nodes
unfolding add_artifacts
add_artifacts-nodes env clock draw row [] s = refl
add_artifacts-nodes env clock draw row ((name, content) ∷ l) s =
    nodes-bind (add_artifact env clock (draw name) row name content)
      (λ view. add_artifacts env clock draw row l >>= λ views. pure (view ∷ views))
      (add_artifact-nodes env clock (draw name) row name content)
      (λ view.
        nodes-bind (add_artifacts env clock draw row l) (λ views. pure (view ∷ views))
          (add_artifacts-nodes env clock draw row l) (λ _ t. refl))
      s

pool_of-nodes : (worker : String) (s : Store) → (pool_of worker s).1.nodes ≡ s.nodes
unfolding pool_of
pool_of-nodes worker s = ground arith

settle-Writes :
    (clock : Clock) (worker : String) (result : Completion) (row : Node) (views : List ArtifactView)
    → Writes (settle clock worker result row views)
unfolding settle note_success event record_route
settle-Writes clock worker result row views s c =
    let reply : Completed = record {
      workflow_id = row.workflow_id;
      node_id = row.node_id;
      artifacts = views;
    } in
    let last : Fleet Completed = advance clock.stamp row.workflow_id >> pure reply in
    let noted = note_success clock worker result row views in
    Steps-bind (pool_of worker) (λ pool t. last (noted pool t)) s (pool_of-nodes worker s)
      λ pool t _ same.
        Writes-bind (advance clock.stamp row.workflow_id) (λ _. pure reply)
          (advance-Steps clock.stamp row.workflow_id) (λ _ t _. here) (noted pool t)
          (subst IsConsistent (sym same) c)

settle_failure-nodes :
    (clock : Clock) (worker error : String) (retry : Bool) (row : Node) (s : Store)
    → (settle_failure clock worker error retry row s).1.nodes ≡ s.nodes
unfolding settle_failure pool_of record_route event set_workflow
settle_failure-nodes clock worker error retry row s = ground arith

-- A leased row under its key.
module _ {rows : List Node} (row : Node) (indexed : IsIndexed rows) (m : Memᴰ row rows)
    (worker token : String) (held : holds_lease worker token row ≡ true) where
  is_row : (q : Node) → Memᴰ q rows → is_node row.workflow_id row.node_id q ≡ true → q ≡ row
  is_row q mq h = same_row q row indexed mq m h

  row_leased : row.status ≡ NodeStatus.leased
  row_leased = ground arith

  finish_step :
      (result : Completion) (stamp : ℕ)
      → exceeds result row ≡ false
      → TableStep rows
          (update_where (is_node row.workflow_id row.node_id) (finish_node result stamp) rows)
  finish_step result stamp fits =
      edit (is_node row.workflow_id row.node_id) (finish_node result stamp)
        (λ q mq h.
          subst (λ x. NodeStep rows x (finish_node result stamp x)) (sym (is_row q mq h))
            (finish result stamp row_leased fits refl))
        refl

  stop_step :
      (retry : Bool) (error : String) (stamp : ℕ)
      → (retry ≡ true → may_retry row ≡ true)
      → TableStep rows (
          update_where
            (is_node row.workflow_id row.node_id)
            (release (after_attempt retry) (some error) stamp)
            rows)
  stop_step retry error stamp may =
      edit (is_node row.workflow_id row.node_id) (release (after_attempt retry) (some error) stamp)
        (λ q mq h.
          subst (λ x. NodeStep rows x (release (after_attempt retry) (some error) stamp x))
            (sym (is_row q mq h)) (stop retry (some error) stamp row_leased may refl))
        refl

module _ (env : Env) (clock : Clock) (draw : String → String) (worker token : String)
    (result : Completion) where
  complete_row-Steps :
      (row : Node) (s : Store)
      → IsConsistent s.nodes
      → Memᴰ row s.nodes
      → holds_lease worker token row ≡ true
      → Steps s.nodes (complete_row env clock draw worker result row s).1.nodes
  unfolding complete_row update_node
  complete_row-Steps row s c m held = elim (Bool-cases (exceeds result row)) [
    | inl over ↦ rw over here
    | inr fits ↦ rw fits (
        Steps-bind (add_artifacts env clock draw row result.artifacts)
          (λ views.
            modify (update_node row.workflow_id row.node_id (finish_node result clock.stamp))
            >> settle clock worker result row views)
          s (add_artifacts-nodes env clock draw row result.artifacts s)
          λ views t _ same.
            let c' = subst IsConsistent (sym same) c in
            let first =
              finish_step row c'.indexed (subst (Memᴰ row) (sym same) m) worker token held result
                clock.stamp fits in
            Steps-trans (one_step first)
              (settle-Writes clock worker result row views _ (TableStep-IsConsistent first c')))
  ]

  pub complete-Steps :
      (s : Store)
      → IsConsistent s.nodes
      → Steps s.nodes (complete env clock draw worker token result s).1.nodes
  unfolding complete
  complete-Steps s c =
      Steps-bind (active_lease clock.time worker token) (complete_row env clock draw worker result)
        s (ap (λ (t : Store). t.nodes) (active_lease-store clock.time worker token s))
        λ row t read same.
          let (m, held) = active_lease-row clock.time worker token s row read in
          complete_row-Steps row t (subst IsConsistent (sym same) c) (subst (Memᴰ row) (sym same) m)
            held

module _ (clock : Clock) (worker token error : String) (retryable : Bool) where
  fail_row-Steps :
      (retry : Bool) (row : Node) (s : Store)
      → (retry ≡ true → may_retry row ≡ true)
      → IsConsistent s.nodes
      → Memᴰ row s.nodes
      → holds_lease worker token row ≡ true
      → Steps s.nodes (fail_row clock worker error retry row s).1.nodes
  unfolding fail_row update_node
  fail_row-Steps retry row s may c m held =
      rw settle_failure-nodes
        (one_step (stop_step row c.indexed m worker token held retry error clock.stamp may))

  pub fail-Steps :
      (s : Store)
      → IsConsistent s.nodes
      → Steps s.nodes (fail clock worker token error retryable s).1.nodes
  unfolding fail
  fail-Steps s c =
      Steps-bind (active_lease clock.time worker token)
        (λ row. fail_row clock worker error (retryable && may_retry row) row) s
        (ap (λ (t : Store). t.nodes) (active_lease-store clock.time worker token s))
        λ row t read same.
          let (m, held) = active_lease-row clock.time worker token s row read in
          fail_row-Steps (retryable && may_retry row) row t
            (λ h. (and_true retryable (may_retry row) h).1) (subst IsConsistent (sym same) c)
            (subst (Memᴰ row) (sym same) m) held

decide_step :
    (w i actor : String) (approved : Bool) (stamp : ℕ) (rows : List Node)
    → TableStep rows (update_where (awaits w i) (decide_node approved actor stamp) rows)
decide_step w i actor approved stamp rows =
    edit (awaits w i) (decide_node approved actor stamp)
      (λ q m h. decide approved actor stamp (ground arith) refl) refl

approve-nodes :
    (clock : Clock) (w i actor : String) (approved : Bool) (s : Store)
    → (approve clock w i approved actor s).1.nodes
      ≡ update_where (awaits w i) (decide_node approved actor clock.stamp) s.nodes
unfolding approve event set_workflow
approve-nodes clock w i actor approved s = ground arith

pub approve-Steps :
    (clock : Clock) (w i actor : String) (approved : Bool) (s : Store)
    → Steps s.nodes (approve clock w i approved actor s).1.nodes
approve-Steps clock w i actor approved s =
    rw approve-nodes (one_step (decide_step w i actor approved clock.stamp s.nodes))
