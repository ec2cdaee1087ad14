-- ===== src/Fleet/Models/Specs.antt =====
-- models.py: what the field constraints of an accepted workflow give its nodes.
use evoagent_os.Base.{◌<◌, ◌≡◌, arith, true, List, [], ◌∷◌, Bool-cases, inl, inr, all, and_true}
use evoagent_os.Fleet.Models.Fields.{NodeSpec, WorkflowSpec, node_fields, workflow_fields}
use evoagent_os.Fleet.Models.Dag.{ok, workflow_spec}

-- Every node may be attempted.
abbrev pub CanAttempt : List NodeSpec → Type 0
CanAttempt [] = Unit
CanAttempt (n ∷ ns) = (0 < n.max_attempts) × CanAttempt ns

attempts_of_fields : (n : NodeSpec) → node_fields n ≡ true → 0 < n.max_attempts
unfolding node_fields
attempts_of_fields n h = ground arith

all-CanAttempt : (ns : List NodeSpec) → all node_fields ns ≡ true → CanAttempt ns
all-CanAttempt [] h = tt
all-CanAttempt (n ∷ ns) h =
    let (first, rest) = and_true (node_fields n) (all node_fields ns) h in
    (attempts_of_fields n first, all-CanAttempt ns rest)

pub workflow_spec-CanAttempt : (w v : WorkflowSpec) → workflow_spec w ≡ ok v → CanAttempt w.nodes
unfolding workflow_spec
workflow_spec-CanAttempt w v h = elim (Bool-cases (workflow_fields w)) [
  | inr bad ↦ cc (rw bad at h)
  | inl good ↦ all-CanAttempt w.nodes (unfold workflow_fields in ground arith)
]
