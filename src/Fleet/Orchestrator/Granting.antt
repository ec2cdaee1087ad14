-- ===== src/Fleet/Orchestrator/Granting.antt =====
-- orchestrator.py, `claim` after its sweep: what it grants.
mod Order
use mathlib.Core.List.{Memᴰ}
use mathlib.Core.List.Memᴰ
use evoagent_os.Base.{
  ℕ, suc, ◌+◌, ◌≤◌, ◌<◌, String, ◌≡◌, ◌≢◌, refl, sym, ap, subst, arith, ◌⊎◌, inl, inr, Bool, true,
  false, ◌&&◌, List, [], ◌∷◌, Option, none, some, Bool-cases, Option-cases, and_true, leb, ltb,
  nat_eq, if◌then◌else◌, ◌==◌,
}
use evoagent_os.Base.Rows.{
  select, count, update_where, find, revised, mem-select, mem-select_of, mem-find, count-update_le,
  count_mono,
}
use evoagent_os.Base.Action.{Result, ok, err}
use evoagent_os.Fleet.Models.{NodeStatus}
use evoagent_os.Fleet.Store.{
  Store, Node, WorkerRow, is_node, is_worker, is_queued, event, column_eq, is_leased,
}
use evoagent_os.Fleet.Orchestrator.{FleetError, Env, Clock, Lease, seen}
use evoagent_os.Fleet.Orchestrator.Claim.{
  row_le, insert_row, order_rows, is_held_by, in_scope, is_candidate, is_capable, choose,
  start_lease, lease_row, lease_choice, claim_swept,
}
use evoagent_os.Fleet.Orchestrator.Steps.{NodeStep, lease}
use evoagent_os.Fleet.Orchestrator.Steps.Keys.{find-edit, count-key, is_node_self}
use evoagent_os.Fleet.Orchestrator.Steps.Invariant.{IsConsistent}
use Order.{mem-order_rows, mem-order_rows_of, order_rows-IsOrdered, find-first, ComesFirst}

room_below : (max held : ℕ) → leb max held ≡ false → held + 1 ≤ max
room_below max held h = ground arith

module _ (env : Env) (clock : Clock) (token worker_id : String) (workflow : Option String)
    (s : Store) where
  -- What a granted lease says of the store before the call and of the store after it.
  pub record IsGranted (l : Lease) (s' : Store) : Type 0 where
    pub worker : WorkerRow
    pub registered : find (is_worker worker_id) s.workers ≡ some worker
    pub row : Node
    pub was : find (is_node l.workflow_id l.node_id) s.nodes ≡ some row
    pub free : row.status ≡ NodeStatus.queued
    pub scoped : in_scope workflow row ≡ true
    pub capable : is_capable worker.capabilities row ≡ true
    pub first :
        (q : Node)
        → Memᴰ q s.nodes
        → is_candidate workflow q ≡ true
        → is_capable worker.capabilities q ≡ true
        → ComesFirst row q
    pub expires : l.lease_expires ≡ clock.time + env.lease_seconds
    pub now :
        find (is_node l.workflow_id l.node_id) s'.nodes
        ≡ some (start_lease worker_id token l.lease_expires clock.stamp row)
    pub others :
        (w i : String) (n : Node)
        → find (is_node w i) s.nodes ≡ some n
        → is_node l.workflow_id l.node_id n ≡ false
        → find (is_node w i) s'.nodes ≡ some n
    pub limit : count (is_held_by worker_id) s'.nodes ≤ worker.max_concurrency

  module _ (c : IsConsistent s.nodes) (worker : WorkerRow) (row : Node)
      (chosen : choose worker workflow s.nodes ≡ some row) where
    abbrev candidates : List Node
    candidates = order_rows (select (is_candidate workflow) s.nodes)

    chosen_mem :
        Memᴰ row s.nodes
        × (is_candidate workflow row ≡ true)
        × (is_capable worker.capabilities row ≡ true)
    unfolding choose
    chosen_mem =
        let (m, capable) = mem-find (is_capable worker.capabilities) candidates chosen in
        let (m', candidate) =
          mem-select (is_candidate workflow) s.nodes
            (mem-order_rows (select (is_candidate workflow) s.nodes) m) in
        (m', candidate, capable)

    chosen_first :
        (q : Node)
        → Memᴰ q s.nodes
        → is_candidate workflow q ≡ true
        → is_capable worker.capabilities q ≡ true
        → ComesFirst row q
    unfolding choose
    chosen_first q m candidate capable =
        find-first (is_capable worker.capabilities) candidates row q
          (order_rows-IsOrdered (select (is_candidate workflow) s.nodes)) chosen
          (mem-order_rows_of (select (is_candidate workflow) s.nodes)
            (mem-select_of (is_candidate workflow) s.nodes m candidate))
          capable

    abbrev taken : Node → Bool
    taken n = is_node row.workflow_id row.node_id n && is_queued n.status

    abbrev leased_rows : ℕ → List Node
    leased_rows expires =
        update_where taken (start_lease worker_id token expires clock.stamp) s.nodes

    take_steps :
        (expires : ℕ) (q : Node)
        → Memᴰ q s.nodes
        → taken q ≡ true
        → NodeStep s.nodes q (start_lease worker_id token expires clock.stamp q)
    take_steps expires q m h =
        let (_, free) = and_true (is_node row.workflow_id row.node_id q) (is_queued q.status) h in
        lease worker_id token expires clock.stamp (ground arith) refl

    taken_once : count taken s.nodes ≤ 1
    taken_once = omega (
      arith,
      count-key row.workflow_id row.node_id s.nodes c.keyed,
      count_mono taken (is_node row.workflow_id row.node_id) s.nodes
          (λ r h. (and_true (is_node row.workflow_id row.node_id r) (is_queued r.status) h).0),
    )

    held_after :
        (expires : ℕ)
        → count (is_held_by worker_id) (leased_rows expires)
          ≤ count (is_held_by worker_id) s.nodes + 1
    held_after expires = omega (
      arith,
      taken_once,
      count-update_le (is_held_by worker_id) taken (start_lease worker_id token expires clock.stamp)
          s.nodes,
    )

    abbrev expiry : ℕ
    expiry = clock.time + env.lease_seconds

    abbrev granted : Lease
    granted = record {
      workflow_id = row.workflow_id;
      node_id = row.node_id;
      objective = row.objective;
      input = row.input;
      budget = row.budget;
      lease_token = token;
      lease_expires = expiry;
    }

    row_untouched :
        (w i : String) (n : Node)
        → find (is_node w i) s.nodes ≡ some n
        → is_node row.workflow_id row.node_id n ≡ false
        → find (is_node w i) (leased_rows expiry) ≡ some n
    row_untouched w i n found other = rw (
      find-edit taken (start_lease worker_id token expiry clock.stamp) (take_steps expiry) w i,
      found,
      other,
    )

    lease_row-IsGranted :
        find (is_worker worker_id) s.workers ≡ some worker
        → leb worker.max_concurrency (count (is_held_by worker_id) s.nodes) ≡ false
        → IsGranted granted (lease_row clock expiry worker_id token row s).1
    unfolding lease_row seen event
    lease_row-IsGranted registered room =
        let (m, candidate, capable) = chosen_mem in
        let (free, scoped) = and_true (is_queued row.status) (in_scope workflow row) candidate in
        record {
          worker = worker;
          registered = registered;
          row = row;
          was = c.indexed row m;
          free = ground arith;
          scoped = scoped;
          capable = capable;
          first = chosen_first;
          expires = refl;
          now = rw (
            find-edit taken (start_lease worker_id token expiry clock.stamp) (take_steps expiry)
                row.workflow_id row.node_id,
            c.indexed row m,
            is_node_self row,
            free,
          );
          others = row_untouched;
          limit = omega (
            arith,
            held_after expiry,
            room_below worker.max_concurrency (count (is_held_by worker_id) s.nodes) room,
          );
        }

  -- The lookups that a granted lease has passed.
  record Inputs : Type 0 where
    worker : WorkerRow
    row : Node
    registered : find (is_worker worker_id) s.workers ≡ some worker
    room : leb worker.max_concurrency (count (is_held_by worker_id) s.nodes) ≡ false
    chosen : choose worker workflow s.nodes ≡ some row

  claim_swept-Inputs :
      (l : Lease) → (claim_swept env clock token worker_id workflow s).0 ≡ ok (some l) → Inputs
  unfolding claim_swept lease_choice
  claim_swept-Inputs l h = elim (Option-cases (find (is_worker worker_id) s.workers)) [
    | inl absent ↦ cc (rw absent at h)
    | inr (worker, registered) ↦
        elim (Bool-cases (leb worker.max_concurrency (count (is_held_by worker_id) s.nodes))) [
          | inl full ↦ cc (rw (registered, full) at h)
          | inr room ↦ elim (Option-cases (choose worker workflow s.nodes)) [
            | inl idle ↦ cc (rw (registered, room, idle) at h)
            | inr (row, chosen) ↦ record {
              worker = worker;
              row = row;
              registered = registered;
              room = room;
              chosen = chosen;
            }
          ]
        ]
  ]

  claim_swept-row :
      (i : Inputs)
      → claim_swept env clock token worker_id workflow s
        ≡ lease_row clock (clock.time + env.lease_seconds) worker_id token i.row s
  unfolding claim_swept lease_choice
  claim_swept-row i = rw (i.registered, i.room, i.chosen)

  lease_row-reply :
      (c : IsConsistent s.nodes) (i : Inputs)
      → (lease_row clock (clock.time + env.lease_seconds) worker_id token i.row s).0
        ≡ ok (some (granted c i.worker i.row i.chosen))
  unfolding lease_row
  lease_row-reply c i = refl

  -- A lease that `claim` returns, its sweep done, is of a queued node: of those in scope that the
  -- worker is capable of, the first by `created_at` and, among those of the same age, by `node_id`.
  -- Afterwards that node is leased to the worker under the lease's token and expiry, every other node
  -- is as before, and the worker holds no more leases than its limit. The table of nodes is consistent
  -- before.
  pub claim_swept-IsGranted :
      (l : Lease)
      → IsConsistent s.nodes
      → (claim_swept env clock token worker_id workflow s).0 ≡ ok (some l)
      → IsGranted l (claim_swept env clock token worker_id workflow s).1
  claim_swept-IsGranted l c h =
      let i = claim_swept-Inputs l h in
      let same : granted c i.worker i.row i.chosen ≡ l = cc (
        ap (λ (r : Result FleetError (Option Lease) × Store). r.0) (claim_swept-row i),
        lease_row-reply c i,
      ) in
      rw (claim_swept-row i) (
        subst
          (λ x.
            IsGranted x
              (lease_row clock (clock.time + env.lease_seconds) worker_id token i.row s).1)
          same (lease_row-IsGranted c i.worker i.row i.chosen i.registered i.room))
