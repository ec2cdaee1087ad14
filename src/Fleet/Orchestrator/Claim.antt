-- ===== src/Fleet/Orchestrator/Claim.antt =====
-- orchestrator.py: `sweep_expired`, `claim` and `heartbeat`.
use evoagent_os.Base.{
  ℕ, ◌+◌, String, Bool, true, false, ◌&&◌, ◌||◌, List, [], ◌∷◌, Option, none, some, length, all,
  mem_text, ltb, leb, nat_eq, ◌==◌, if◌then◌else◌,
}
use evoagent_os.Base.Texts.{le_text}
use evoagent_os.Base.Rows.{select, count, update_where, find}
use evoagent_os.Base.Action.{ok, pure, gets, modify, or_raise, raise_if, ◌>>=◌, ◌>>◌}
use evoagent_os.Fleet.Models.{NodeStatus}
use evoagent_os.Fleet.Store.{
  Store, Node, WorkerRow, event, node_leased, lease_expired, is_node, is_worker, is_queued,
  is_leased, holds_lease, column_eq,
}
use evoagent_os.Fleet.Orchestrator.{
  not_registered, lease_not_active, Env, Clock, Lease, Fleet, update_node, seen,
}

-- status='leased' AND lease_expires<?
abbrev pub is_expired : ℕ → Node → Bool
is_expired time n =
    is_leased n.status && elim n.lease_expires [ none ↦ false | some e ↦ ltb e time ]

-- The attempts leave room for another one.
abbrev pub may_retry : Node → Bool
may_retry n = ltb n.attempts n.max_attempts

-- The columns that end a lease.
abbrev pub release : NodeStatus → Option String → ℕ → Node → Node
release status error stamp n = record n {
  status = status;
  error = error;
  leased_by = none;
  lease_token = none;
  lease_expires = none;
  updated_at = stamp;
}

abbrev pub after_attempt : Bool → NodeStatus
after_attempt retry = if retry then NodeStatus.queued else NodeStatus.failed

unfoldable pub sweep_row : ℕ → Node → Store → Store
sweep_row stamp row s =
    event stamp (lease_expired (may_retry row)) row.workflow_id (some row.node_id) (
      update_node row.workflow_id row.node_id
        (release (after_attempt (may_retry row)) (some "Lease expired") stamp) s)

unfoldable pub sweep_rows : ℕ → List Node → Store → Store
sweep_rows stamp [] s = s
sweep_rows stamp (row ∷ rows) s = sweep_rows stamp rows (sweep_row stamp row s)

unfoldable pub sweep_expired : Clock → Fleet ℕ
sweep_expired clock s =
    let expired = select (is_expired clock.time) s.nodes in
    (ok (length expired), sweep_rows clock.stamp expired s)

-- The order of `ORDER BY created_at,node_id`.
abbrev pub row_le : Node → Node → Bool
row_le a b =
    ltb a.created_at b.created_at
    || (nat_eq a.created_at b.created_at && le_text a.node_id b.node_id)

unfoldable pub insert_row : Node → List Node → List Node
insert_row n [] = n ∷ []
insert_row n (m ∷ ms) = let rest = insert_row n ms in if row_le n m then n ∷ m ∷ ms else m ∷ rest

unfoldable pub order_rows : List Node → List Node
unfolding insert_row
order_rows [] = []
order_rows (n ∷ ns) = insert_row n (order_rows ns)

-- leased_by=? AND status='leased'
abbrev pub is_held_by : String → Node → Bool
is_held_by worker_id n = column_eq n.leased_by worker_id && is_leased n.status

-- `if workflow_id:` takes None and the empty text for no restriction.
abbrev pub in_scope : Option String → Node → Bool
in_scope none n = true
in_scope (some w) n = w == "" || n.workflow_id == w

abbrev pub is_candidate : Option String → Node → Bool
is_candidate workflow n = is_queued n.status && in_scope workflow n

-- set(required) <= capabilities
abbrev pub is_capable : List String → Node → Bool
is_capable capabilities n = all (λ c. mem_text c capabilities) n.capabilities

-- The first candidate, in order, that the worker's capabilities cover.
unfoldable pub choose : WorkerRow → Option String → List Node → Option Node
unfolding select find order_rows
choose worker workflow nodes =
    find (is_capable worker.capabilities) (order_rows (select (is_candidate workflow) nodes))

abbrev pub start_lease : String → String → ℕ → ℕ → Node → Node
start_lease worker_id token expires stamp n = record n {
  status = NodeStatus.leased;
  leased_by = some worker_id;
  lease_token = some token;
  lease_expires = some expires;
  attempts = n.attempts + 1;
  updated_at = stamp;
}

-- The lock of the store is held from the row's selection to its update, so the update finds it.
unfoldable pub lease_row : Clock → ℕ → String → String → Node → Fleet (Option Lease)
lease_row clock expires worker_id token row = do
  modify (λ s. seen worker_id clock.stamp (record s {
    nodes =
        update_where (λ n. is_node row.workflow_id row.node_id n && is_queued n.status)
          (start_lease worker_id token expires clock.stamp) s.nodes;
  }))
  modify (event clock.stamp (node_leased worker_id expires) row.workflow_id (some row.node_id))
  pure (
      some (record {
        workflow_id = row.workflow_id;
        node_id = row.node_id;
        objective = row.objective;
        input = row.input;
        budget = row.budget;
        lease_token = token;
        lease_expires = expires;
      }))

unfoldable pub lease_choice : Env → Clock → String → String → Option Node → Fleet (Option Lease)
lease_choice env clock token worker_id none = pure none
lease_choice env clock token worker_id (some row) =
    lease_row clock (clock.time + env.lease_seconds) worker_id token row

-- `claim` after its sweep. `token` is the identifier that the call draws.
unfoldable pub claim_swept : Env → Clock → String → String → Option String → Fleet (Option Lease)
claim_swept env clock token worker_id workflow = do
  found ← gets (λ s. find (is_worker worker_id) s.workers)
  worker ← or_raise not_registered found
  active ← gets (λ s. count (is_held_by worker_id) s.nodes)
  selected ← gets (λ s. choose worker workflow s.nodes)
  if leb worker.max_concurrency active
      then pure none
      else lease_choice env clock token worker_id selected

-- The sweep reads the clock before the rest does.
unfoldable pub claim : Env → Clock → Clock → String → String → Option String → Fleet (Option Lease)
claim env swept clock token worker_id workflow =
    sweep_expired swept >> claim_swept env clock token worker_id workflow

unfoldable pub heartbeat : Env → Clock → String → String → Fleet ℕ
heartbeat env clock worker_id token = do
  let expires = clock.time + env.lease_seconds
  changed ← gets (λ s. count (holds_lease worker_id token) s.nodes)
  modify (λ s. record s {
    nodes =
        update_where (holds_lease worker_id token)
          (λ n. record n { lease_expires = some expires; updated_at = clock.stamp }) s.nodes;
  })
  raise_if (nat_eq changed 0) lease_not_active
  modify (seen worker_id clock.stamp)
  pure expires
