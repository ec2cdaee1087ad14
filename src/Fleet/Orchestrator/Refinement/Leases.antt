-- ===== src/Fleet/Orchestrator/Refinement/Leases.antt =====
-- orchestrator.py: the writes of `submit`, `claim` and `heartbeat` as steps.
use evoagent_os.Base.{
  ℕ, String, ◌≡◌, refl, arith, inl, inr, ◌&&◌, List, [], ◌∷◌, Option, none, some, Bool-cases,
  Option-cases,
}
use evoagent_os.Base.Action.{modify, ◌>>◌}
use evoagent_os.Base.Rows.{update_where, find}
use evoagent_os.Fleet.Store.{Store, Node, is_node, event}
use evoagent_os.Fleet.Models.{NodeSpec, WorkflowSpec}
use evoagent_os.Fleet.Store.{holds_lease, is_queued, is_worker}
use evoagent_os.Fleet.Orchestrator.{Env, Clock, seen, Fleet}
use evoagent_os.Fleet.Orchestrator.Submit.{
  new_node, insert_node, insert_nodes, new_workflow, insert_workflow, submit,
}
use evoagent_os.Fleet.Orchestrator.Claim.{
  start_lease, lease_row, lease_choice, choose, claim_swept, claim, heartbeat, sweep_expired,
  is_held_by,
}
use evoagent_os.Fleet.Models.Specs.{CanAttempt}
use evoagent_os.Fleet.Orchestrator.Steps.{
  lease, renew, TableStep, edit, create, Steps, here, one_step, Steps-trans,
}
use evoagent_os.Fleet.Orchestrator.Steps.Invariant.{IsConsistent}
use evoagent_os.Fleet.Orchestrator.Refinement.Sweep.{sweep_expired-Steps}
use evoagent_os.Fleet.Orchestrator.Refinement.Writes.{Writes, Writes-bind, Writes-keeping}
use evoagent_os.Fleet.Store.{WorkflowRow, workflow_submitted}
use evoagent_os.Base.{ℕ, ◌+◌, leb, length, and_true, nat_eq, ◌++◌}
use evoagent_os.Base.Rows.{count}
use evoagent_os.Base.Action.{modify, ◌>>◌, pure}

lease_step :
    (worker token w i : String) (expires stamp : ℕ) (rows : List Node)
    → TableStep rows (
        update_where
          (λ n. is_node w i n && is_queued n.status)
          (start_lease worker token expires stamp)
          rows)
lease_step worker token w i expires stamp rows =
    edit (λ n. is_node w i n && is_queued n.status) (start_lease worker token expires stamp)
      (λ q m h.
        let (_, free) = and_true (is_node w i q) (is_queued q.status) h in
        lease worker token expires stamp (ground arith) refl)
      refl

lease_choice-Steps :
    (env : Env) (clock : Clock) (token worker : String) (chosen : Option Node) (s : Store)
    → Steps s.nodes (lease_choice env clock token worker chosen s).1.nodes
unfolding lease_choice lease_row seen event
lease_choice-Steps env clock token worker none s = here
lease_choice-Steps env clock token worker (some row) s = one_step (
    lease_step worker token row.workflow_id row.node_id (clock.time + env.lease_seconds) clock.stamp
      s.nodes)

pub claim_swept-Steps :
    (env : Env) (clock : Clock) (token worker : String) (workflow : Option String) (s : Store)
    → Steps s.nodes (claim_swept env clock token worker workflow s).1.nodes
unfolding claim_swept
claim_swept-Steps env clock token worker workflow s =
    elim (Option-cases (find (is_worker worker) s.workers)) [
      | inl absent ↦ rw absent here
      | inr (row, found) ↦
          rw found
            (elim (Bool-cases (leb row.max_concurrency (count (is_held_by worker) s.nodes))) [
              | inl full ↦ rw full here
              | inr free ↦
                  rw free
                    (lease_choice-Steps env clock token worker (choose row workflow s.nodes) s)
            ])
    ]

pub claim-Steps :
    (env : Env) (swept clock : Clock) (token worker : String) (workflow : Option String) (s : Store)
    → IsConsistent s.nodes
    → Steps s.nodes (claim env swept clock token worker workflow s).1.nodes
unfolding claim
claim-Steps env swept clock token worker workflow s c =
    Steps-trans (sweep_expired-Steps swept s c) (
      unfold sweep_expired in
      claim_swept-Steps env clock token worker workflow (sweep_expired swept s).1)

renew_step :
    (worker token : String) (expires stamp : ℕ) (rows : List Node)
    → TableStep rows (
        update_where
          (holds_lease worker token)
          (λ n. record n { lease_expires = some expires; updated_at = stamp })
          rows)
renew_step worker token expires stamp rows =
    edit (holds_lease worker token)
      (λ n. record n { lease_expires = some expires; updated_at = stamp })
      (λ q m h. renew expires stamp (ground arith) refl) refl

pub heartbeat-Steps :
    (env : Env) (clock : Clock) (worker token : String) (s : Store)
    → Steps s.nodes (heartbeat env clock worker token s).1.nodes
unfolding heartbeat seen
heartbeat-Steps env clock worker token s =
    let renewed =
      one_step (renew_step worker token (clock.time + env.lease_seconds) clock.stamp s.nodes) in
    elim (Bool-cases (nat_eq (count (holds_lease worker token) s.nodes) 0)) [
      | inl none_held ↦ rw none_held renewed
      | inr held ↦ rw held renewed
    ]

insert_node-Steps :
    (n : Node) (s : Store)
    → (find (is_node n.workflow_id n.node_id) s.nodes ≡ none
        → TableStep s.nodes (s.nodes ++ n ∷ []))
    → Steps s.nodes (insert_node n s).1.nodes
unfolding insert_node
insert_node-Steps n s creates =
    elim (Option-cases (find (is_node n.workflow_id n.node_id) s.nodes)) [
      | inr (old, found) ↦ rw (found, insert_node) here
      | inl absent ↦ rw (absent, insert_node) (one_step (creates absent))
    ]

insert_nodes-Writes :
    (w : String) (stamp : ℕ) (ns : List NodeSpec) → CanAttempt ns → Writes (insert_nodes w stamp ns)
unfolding insert_nodes
insert_nodes-Writes w stamp [] h s c = here
insert_nodes-Writes w stamp (n ∷ ns) h s c =
    Writes-bind (insert_node (new_node w stamp n)) (λ _. insert_nodes w stamp ns)
      (λ s c. insert_node-Steps (new_node w stamp n) s (λ absent. create w stamp n h.0 absent refl))
      (λ _. insert_nodes-Writes w stamp ns h.1) s c

insert_workflow-nodes : (row : WorkflowRow) (s : Store) → (insert_workflow row s).1.nodes ≡ s.nodes
unfolding insert_workflow
insert_workflow-nodes row s = ground arith

pub submit-Writes :
    (clock : Clock) (w : String) (spec : WorkflowSpec)
    → CanAttempt spec.nodes
    → Writes (submit clock w spec)
unfolding submit event
submit-Writes clock w spec h =
    let announce : Fleet String =
      modify (event clock.stamp (workflow_submitted spec.name (length spec.nodes)) w none)
      >> pure w in
    Writes-bind (insert_workflow (new_workflow clock w spec))
      (λ _. insert_nodes w clock.stamp spec.nodes >> announce)
      (Writes-keeping (insert_workflow (new_workflow clock w spec)) (insert_workflow-nodes _))
      λ _.
        Writes-bind (insert_nodes w clock.stamp spec.nodes) (λ _. announce)
          (insert_nodes-Writes w clock.stamp spec.nodes h) (λ _ s c. here)
