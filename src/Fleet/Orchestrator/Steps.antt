-- ===== src/Fleet/Orchestrator/Steps.antt =====
-- orchestrator.py: the writes to the table of nodes as a step relation, with the condition under which
-- the code makes each.
pub mod Keys
pub mod Invariant
pub mod Lifecycle
use mathlib.Core.List.{Memᴰ}
use evoagent_os.Base.{
  ℕ, ◌<◌, String, ◌≡◌, ◌⊎◌, Bool, true, false, List, [], ◌∷◌, ◌++◌, Option, none, some, mem_text,
}
use evoagent_os.Base.Rows.{update_where, find}
use evoagent_os.Fleet.Models.{NodeStatus, NodeSpec, Completion}
use evoagent_os.Fleet.Store.{Node, is_node}
use evoagent_os.Fleet.Orchestrator.Submit.{new_node}
use evoagent_os.Fleet.Orchestrator.Claim.{may_retry, release, after_attempt, start_lease}
use evoagent_os.Fleet.Orchestrator.Advance.{ready_status}
use evoagent_os.Fleet.Orchestrator.Finish.{finish_node, exceeds, decide_node}

-- The node `d` of a workflow is in the table, completed.
abbrev pub IsDone : List Node → String → String → Type 0
IsDone rows w d =
    (m : Node) × (find (is_node w d) rows ≡ some m) × (m.status ≡ NodeStatus.completed)

abbrev pub DepsDone : List Node → Node → Type 0
DepsDone rows n = (d : String) → mem_text d n.deps ≡ true → IsDone rows n.workflow_id d

-- One change of a row of the table `rows`, with the condition that it needs.
pub data NodeStep (rows : List Node) (n n' : Node) : Type 0 where
  ready :
      (stamp : ℕ)
      → n.status ≡ NodeStatus.blocked
      → DepsDone rows n
      → n' ≡ record n { status = ready_status n; updated_at = stamp }
      → NodeStep rows n n'
  decide :
      (approved : Bool) (actor : String) (stamp : ℕ)
      → n.status ≡ NodeStatus.awaiting_approval
      → n' ≡ decide_node approved actor stamp n
      → NodeStep rows n n'
  lease :
      (worker token : String) (expires stamp : ℕ)
      → n.status ≡ NodeStatus.queued
      → n' ≡ start_lease worker token expires stamp n
      → NodeStep rows n n'
  renew :
      (expires stamp : ℕ)
      → n.status ≡ NodeStatus.leased
      → n' ≡ record n { lease_expires = some expires; updated_at = stamp }
      → NodeStep rows n n'
  stop :
      (retry : Bool) (error : Option String) (stamp : ℕ)
      → n.status ≡ NodeStatus.leased
      → (retry ≡ true → may_retry n ≡ true)
      → n' ≡ release (after_attempt retry) error stamp n
      → NodeStep rows n n'
  finish :
      (result : Completion) (stamp : ℕ)
      → n.status ≡ NodeStatus.leased
      → exceeds result n ≡ false
      → n' ≡ finish_node result stamp n
      → NodeStep rows n n'
  stay : n' ≡ n → NodeStep rows n n'

-- One write to the table: an update whose every row takes a step, or the row of a new node.
pub data TableStep (rows rows' : List Node) : Type 0 where
  edit :
      (p : Node → Bool) (f : Node → Node)
      → ((q : Node) → Memᴰ q rows → p q ≡ true → NodeStep rows q (f q))
      → rows' ≡ update_where p f rows
      → TableStep rows rows'
  create :
      (workflow_id : String) (stamp : ℕ) (spec : NodeSpec)
      → 0 < spec.max_attempts
      → find (is_node workflow_id spec.id) rows ≡ none
      → rows' ≡ rows ++ new_node workflow_id stamp spec ∷ []
      → TableStep rows rows'

-- Any number of writes.
pub data Steps (rows : List Node) : List Node → Type 0 where
  here : Steps rows rows
  next : {rows₁ rows₂ : List Node} → Steps rows rows₁ → TableStep rows₁ rows₂ → Steps rows rows₂

pub one_step : {rows rows' : List Node} → TableStep rows rows' → Steps rows rows'
one_step t = next here t

pub Steps-trans : {a b c : List Node} → Steps a b → Steps b c → Steps a c
Steps-trans s here = s
Steps-trans s (next r t) = next (Steps-trans s r) t
