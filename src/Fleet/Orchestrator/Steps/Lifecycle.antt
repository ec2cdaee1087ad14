-- ===== src/Fleet/Orchestrator/Steps/Lifecycle.antt =====
-- orchestrator.py: the life of a node, that is the moves of its status.
use evoagent_os.Base.{◌≤◌, String, ◌≡◌, ◌∙◌, sym, subst, arith, List, some}
use evoagent_os.Base.Rows.{find, revised, mem-find}
use evoagent_os.Fleet.Models.{NodeStatus}
use evoagent_os.Fleet.Store.{Node, is_node}
use evoagent_os.Fleet.Orchestrator.Submit.{new_node}
use evoagent_os.Fleet.Orchestrator.Steps.{
  NodeStep, ready, decide, lease, renew, stop, finish, stay, TableStep, edit, create, Steps, here,
  next,
}
use evoagent_os.Fleet.Orchestrator.Steps.Keys.{
  SameSpec, SameSpec-refl, NodeStep-SameSpec, NodeStep-revised, find-edit, find-create,
}

-- The arrows of the state machine: blocked nodes wait for their dependencies, then for approval or
-- in the queue; a lease ends in the queue again, or in one of the two final states.
abbrev pub Move : NodeStatus → NodeStatus → Type 0
Move NodeStatus.blocked NodeStatus.awaiting_approval = Unit
Move NodeStatus.blocked NodeStatus.queued = Unit
Move NodeStatus.awaiting_approval NodeStatus.queued = Unit
Move NodeStatus.awaiting_approval NodeStatus.failed = Unit
Move NodeStatus.queued NodeStatus.leased = Unit
Move NodeStatus.leased NodeStatus.queued = Unit
Move NodeStatus.leased NodeStatus.failed = Unit
Move NodeStatus.leased NodeStatus.completed = Unit
Move _ _ = ⊥

pub data Moves (a : NodeStatus) : NodeStatus → Type 0 where
  still : Moves a a
  move : {b c : NodeStatus} → Moves a b → Move b c → Moves a c

pub Moves-trans : {a b c : NodeStatus} → Moves a b → Moves b c → Moves a c
Moves-trans m still = m
Moves-trans m (move n s) = move (Moves-trans m n) s

one-Move : (a b : NodeStatus) → Move a b → Moves a b
one-Move a b m = move still m

-- `n'` is what became of `n`.
pub record Follows (n n' : Node) : Type 0 where
  pub same : SameSpec n n'
  pub moves : Moves n.status n'.status
  pub attempts : n.attempts ≤ n'.attempts

NodeStep-Moves : {rows : List Node} (n n' : Node) → NodeStep rows n n' → Moves n.status n'.status
NodeStep-Moves n n' (stay e) = subst (λ x. Moves n.status x.status) (sym e) still
NodeStep-Moves n n' (renew expires stamp l e) = subst (λ x. Moves n.status x.status) (sym e) still
NodeStep-Moves n n' (ready stamp b d e) = one-Move n.status n'.status (ground arith)
NodeStep-Moves n n' (decide approved actor stamp a e) = one-Move n.status n'.status (ground arith)
NodeStep-Moves n n' (lease worker token expires stamp q e) =
    one-Move n.status n'.status (ground arith)
NodeStep-Moves n n' (stop retry error stamp l r e) = one-Move n.status n'.status (ground arith)
NodeStep-Moves n n' (finish result stamp l x e) = one-Move n.status n'.status (ground arith)

NodeStep-attempts : {rows : List Node} (n n' : Node) → NodeStep rows n n' → n.attempts ≤ n'.attempts
NodeStep-attempts n n' (ready stamp b d e) = ground arith
NodeStep-attempts n n' (decide approved actor stamp a e) = ground arith
NodeStep-attempts n n' (lease worker token expires stamp q e) = ground arith
NodeStep-attempts n n' (renew expires stamp l e) = ground arith
NodeStep-attempts n n' (stop retry error stamp l r e) = ground arith
NodeStep-attempts n n' (finish result stamp l x e) = ground arith
NodeStep-attempts n n' (stay e) = ground arith

NodeStep-Follows : {rows : List Node} (n n' : Node) → NodeStep rows n n' → Follows n n'
NodeStep-Follows n n' s = record {
  same = NodeStep-SameSpec n n' s;
  moves = NodeStep-Moves n n' s;
  attempts = NodeStep-attempts n n' s;
}

Follows-refl : (n : Node) → Follows n n
Follows-refl n = record { same = SameSpec-refl n; moves = still; attempts = omega arith }

Follows-trans : (a b c : Node) → Follows a b → Follows b c → Follows a c
Follows-trans a b c f g = record {
  same = record {
    workflow_id = g.same.workflow_id ∙ f.same.workflow_id;
    node_id = g.same.node_id ∙ f.same.node_id;
    deps = g.same.deps ∙ f.same.deps;
    budget = g.same.budget ∙ f.same.budget;
    max_attempts = g.same.max_attempts ∙ f.same.max_attempts;
  };
  moves = Moves-trans f.moves g.moves;
  attempts = omega arith;
}

-- What a table has become holds every row of it, under its key.
abbrev pub Tracked : List Node → List Node → Type 0
Tracked rows rows' =
    (w i : String) (n : Node)
    → find (is_node w i) rows ≡ some n
    → (n' : Node) × (find (is_node w i) rows' ≡ some n') × Follows n n'

TableStep-Tracked : {a b : List Node} → TableStep a b → Tracked a b
TableStep-Tracked {a} (edit p f steps e) w i n found =
    let m = (mem-find (is_node w i) a found).0 in
    (
      revised p f n,
      rw (e, find-edit p f steps w i, found),
      NodeStep-Follows n _ (NodeStep-revised p f steps n m),
    )
TableStep-Tracked {a} (create wf stamp spec pos absent e) w i n found =
    (n, rw e (find-create a (new_node wf stamp spec) w i n found), Follows-refl n)

pub Steps-Tracked : {a b : List Node} → Steps a b → Tracked a b
Steps-Tracked here w i n found = (n, found, Follows-refl n)
Steps-Tracked (next s t) w i n found =
    let (m, found_m, f) = Steps-Tracked s w i n found in
    let (k, found_k, g) = TableStep-Tracked t w i m found_m in (k, found_k, Follows-trans n m k f g)
