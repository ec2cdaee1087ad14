-- ===== src/Fleet/Orchestrator/Refinement/Advance.antt =====
-- orchestrator.py: the writes of `_advance` as steps.
use mathlib.Core.List.{Memᴰ}
use evoagent_os.Base.{
  ℕ, String, ◌≡◌, refl, sym, ◌∙◌, subst, arith, ◌⊎◌, inl, inr, Bool, true, false, List, [], ◌∷◌,
  some, mem_text, Bool-cases, Option-cases, mem_text-cons, eq_true, eq_self, ◌==◌,
}
use evoagent_os.Base.Action.{Result, ok, err, modify, ◌>>◌}
use evoagent_os.Base.Rows.{select, find, mem-select, mem-find}
use evoagent_os.Fleet.Models.{NodeStatus}
use evoagent_os.Fleet.Store.{Store, Node, is_blocked, event}
use evoagent_os.Fleet.Orchestrator.{FleetError, update_node, set_workflow}
use evoagent_os.Fleet.Orchestrator.Advance.{
  of_workflow, deps_completed, ready_status, make_ready, advance_rows, close_workflow, advance,
}
use evoagent_os.Fleet.Orchestrator.Steps.{
  DepsDone, NodeStep, ready, Steps, here, one_step, Steps-trans,
}
use evoagent_os.Fleet.Orchestrator.Steps.Keys.{same_row, found_row, SameSpec, IsIndexed}
use evoagent_os.Fleet.Orchestrator.Steps.Invariant.{
  IsConsistent, TableStep-IsConsistent, Steps-IsDone,
}
use evoagent_os.Fleet.Orchestrator.Refinement.Loops.{Written, write_step, write_Written}

-- What a reading of true says of the rows that it was made from.
deps_completed_sound :
    (rows : List Node) (ds : List String)
    → deps_completed rows ds ≡ ok true
    → (d : String) → mem_text d ds ≡ true
    → (n : Node) × (find (λ m. m.node_id == d) rows ≡ some n) × (n.status ≡ NodeStatus.completed)
unfolding deps_completed
deps_completed_sound rows [] h d m = cc
deps_completed_sound rows (x ∷ ds) h d m = elim (Option-cases (find (λ n. n.node_id == x) rows)) [
  | inl absent ↦ cc (rw (absent, deps_completed) at h)
  | inr (n, found) ↦
      let done : n.status ≡ NodeStatus.completed = ground arith in
      let rest : deps_completed rows ds ≡ ok true = ground arith in
      elim (mem_text-cons d x ds m) [
        | inl e ↦ (n, subst (λ a. find (λ m. m.node_id == a) rows ≡ some n) (sym e) found, done)
        | inr later ↦ deps_completed_sound rows ds rest d later
      ]
]

-- What a reading can be.
verdict :
    (x : Result FleetError Bool)
    → ((e : FleetError) × (x ≡ err e)) ⊎ ((x ≡ ok false) ⊎ (x ≡ ok true))
verdict (err e) = inl (e, refl)
verdict (ok false) = inr (inl refl)
verdict (ok true) = inr (inr refl)

abbrev readied : ℕ → Node → Node → Node
readied stamp r n = record n { status = ready_status r; updated_at = stamp }

readied-SameSpec : (stamp : ℕ) (r n : Node) → SameSpec n (readied stamp r n)
readied-SameSpec stamp r n = record {
  workflow_id = refl;
  node_id = refl;
  deps = refl;
  budget = refl;
  max_attempts = refl;
}

module _ (stamp : ℕ) (w : String) {snap : List Node} (was : IsIndexed snap) where
  abbrev reading : List Node
  reading = select (of_workflow w) snap

  reading-DepsDone :
      {rows : List Node} (r : Node)
      → Steps snap rows
      → Memᴰ r reading
      → deps_completed reading r.deps ≡ ok true
      → DepsDone rows r
  reading-DepsDone r steps m h d needed =
      let (n, found, done) = deps_completed_sound reading r.deps h d needed in
      let (n_read, named) = mem-find (λ k. k.node_id == d) reading found in
      let (n_in, n_of) = mem-select (of_workflow w) snap n_read in
      let (r_in, r_of) = mem-select (of_workflow w) snap m in
      let same : n.workflow_id ≡ r.workflow_id =
        eq_true n.workflow_id w n_of ∙ sym (eq_true r.workflow_id w r_of) in
      let id : n.node_id ≡ d = eq_true n.node_id d named in
      Steps-IsDone steps r.workflow_id d (
        n,
        found_row r.workflow_id d n was n_in (rw (same, id, eq_self r.workflow_id, eq_self d)),
        done,
      )

  -- From any store that the loop can be in, its rounds for `todo` write by steps.
  abbrev Continues : List Node → Type 0
  Continues todo =
      (s : Store)
      → ((r : Node) → Memᴰ r todo → Memᴰ r reading)
      → Steps snap s.nodes
      → IsConsistent s.nodes
      → ((r : Node) → Memᴰ r todo → Written (readied stamp) s.nodes r)
      → Steps s.nodes (advance_rows stamp reading todo s).1.nodes

  make_ready-Steps :
      (r : Node) (todo : List Node)
      → Continues todo
      → (s : Store) → ((q : Node) → Memᴰ q (r ∷ todo) → Memᴰ q reading)
      → Steps snap s.nodes
      → IsConsistent s.nodes
      → ((q : Node) → Memᴰ q (r ∷ todo) → Written (readied stamp) s.nodes q)
      → r.status ≡ NodeStatus.blocked
      → deps_completed reading r.deps ≡ ok true
      → Steps s.nodes (advance_rows stamp reading todo (make_ready stamp r s)).1.nodes
  unfolding make_ready update_node event
  make_ready-Steps r todo continues s read steps c written blocked all_done =
      let mine = written r (Memᴰ.head refl) in
      let r_read = read r (Memᴰ.head refl) in
      let in_snap = λ (q : Node) (m : Memᴰ q reading). (mem-select (of_workflow w) snap m).0 in
      let step : NodeStep s.nodes r (readied stamp r r) =
        ready stamp blocked (reading-DepsDone r steps r_read all_done) refl in
      let first = write_step (readied stamp) (λ x. refl) r c.indexed step mine in
      Steps-trans (one_step first) (
        continues (make_ready stamp r s) (λ q m. read q (Memᴰ.tail m))
          (Steps-trans steps (one_step first)) (TableStep-IsConsistent first c)
          λ q m.
            write_Written (readied stamp) (λ x. refl) r c.indexed step q
              (λ h. same_row q r was (in_snap q (read q (Memᴰ.tail m))) (in_snap r r_read) h)
              (readied-SameSpec stamp r r) (readied-SameSpec stamp q q) mine
              (written q (Memᴰ.tail m)))

  next_row-Steps : (r : Node) (todo : List Node) → Continues todo → Continues (r ∷ todo)
  unfolding advance_rows
  next_row-Steps r todo continues s read steps c written =
      let skip =
        continues s (λ q m. read q (Memᴰ.tail m)) steps c (λ q m. written q (Memᴰ.tail m)) in
      elim (Bool-cases (is_blocked r.status)) [
        | inr open_now ↦ rw open_now skip
        | inl waits ↦ elim (verdict (deps_completed reading r.deps)) [
          | inl (e, raised) ↦ rw (waits, raised) here
          | inr (inl not_yet) ↦ rw (waits, not_yet) skip
          | inr (inr all_done) ↦
              rw (waits, all_done)
                (make_ready-Steps r todo continues s read steps c written (ground arith) all_done)
        ]
      ]

  advance_rows-Steps : (todo : List Node) → Continues todo
  unfolding advance_rows
  advance_rows-Steps [] s read steps c written = here
  advance_rows-Steps (r ∷ todo) s read steps c written =
      next_row-Steps r todo (advance_rows-Steps todo) s read steps c written

close_workflow-nodes :
    (stamp : ℕ) (w : String) (s : Store) → (close_workflow stamp w s).nodes ≡ s.nodes
unfolding close_workflow set_workflow event
close_workflow-nodes stamp w s = ground arith

-- The second half of `_advance` does not write to the nodes.
after_rows :
    {a : List Node} (stamp : ℕ) (w : String) (r : Result FleetError Unit) (s : Store)
    → Steps a s.nodes
    → Steps a (((λ _. (r, s)) >> modify (close_workflow stamp w)) s).1.nodes
after_rows stamp w (ok x) s h = rw close_workflow-nodes h
after_rows stamp w (err e) s h = h

pub advance-Steps :
    (stamp : ℕ) (w : String) (s : Store)
    → IsConsistent s.nodes
    → Steps s.nodes (advance stamp w s).1.nodes
unfolding advance
advance-Steps stamp w s c =
    let rows = reading stamp w c.indexed in
    let (r, s') = advance_rows stamp rows rows s in
    after_rows stamp w r s' (
      advance_rows-Steps stamp w c.indexed rows s (λ r m. m) here c
        (λ r m. inl (c.indexed r (mem-select (of_workflow w) s.nodes m).0)))
