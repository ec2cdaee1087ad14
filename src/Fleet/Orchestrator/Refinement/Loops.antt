-- ===== src/Fleet/Orchestrator/Refinement/Loops.antt =====
-- orchestrator.py: loops that write to the rows of an earlier reading, one write at a time.
use mathlib.Core.List.{Memᴰ}
use mathlib.Core.Option
use evoagent_os.Base.{
  String, ◌≡◌, refl, sym, subst, ◌⊎◌, inl, inr, true, false, List, some, Bool-cases,
}
use evoagent_os.Base.Rows.{update_where, find, revised}
use evoagent_os.Fleet.Store.{Node, is_node}
use evoagent_os.Fleet.Orchestrator.Steps.{NodeStep, stay, TableStep, edit}
use evoagent_os.Fleet.Orchestrator.Steps.Keys.{
  found_row, SameSpec, IsIndexed, is_node_self, is_node_same, find-edit,
}

-- The row under a key of the earlier reading: as it was read, or as the loop's write left it.
abbrev pub Written : (Node → Node → Node) → List Node → Node → Type 0
Written f rows r =
    (find (is_node r.workflow_id r.node_id) rows ≡ some r)
    ⊎ (find (is_node r.workflow_id r.node_id) rows ≡ some (f r r))

module _ (f : Node → Node → Node) (again : (r : Node) → f r (f r r) ≡ f r r) {rows : List Node}
    (r : Node) (indexed : IsIndexed rows) (step : NodeStep rows r (f r r)) where
  -- The table after the write for `r`.
  abbrev pub written_rows : List Node
  written_rows = update_where (is_node r.workflow_id r.node_id) (f r) rows

  write_moves :
      Written f rows r
      → (q : Node) → Memᴰ q rows
      → is_node r.workflow_id r.node_id q ≡ true
      → NodeStep rows q (f r q)
  write_moves written q m h =
      let found = found_row r.workflow_id r.node_id q indexed m h in
      elim written [
        | inl e ↦ let same : r ≡ q = cc in subst (λ x. NodeStep rows x (f r x)) same step
        | inr e ↦ let same : f r r ≡ q = cc in stay (subst (λ x. f r x ≡ x) same (again r))
      ]

  pub write_step : Written f rows r → TableStep rows written_rows
  write_step written = edit (is_node r.workflow_id r.node_id) (f r) (write_moves written) refl

  find-Written :
      Written f rows r
      → (w i : String)
      → find (is_node w i) written_rows
        ≡ Option.map (revised (is_node r.workflow_id r.node_id) (f r)) (find (is_node w i) rows)
  find-Written written = find-edit (is_node r.workflow_id r.node_id) (f r) (write_moves written)

  write_self :
      SameSpec r (f r r)
      → Written f rows r
      → find (is_node r.workflow_id r.node_id) written_rows ≡ some (f r r)
  write_self same written =
      let search = find-Written written r.workflow_id r.node_id in
      elim written [
        | inl e ↦ rw (search, e, is_node_self r)
        | inr e ↦
            rw (search, e)
              (rw (is_node_same r.workflow_id r.node_id r (f r r) same, is_node_self r)
                (rw (again r)))
      ]

  write_other :
      (other : Node)
      → is_node r.workflow_id r.node_id other ≡ false
      → SameSpec other (f other other)
      → Written f rows r
      → Written f rows other
      → Written f written_rows other
  write_other other miss same written w = elim w [
    | inl e ↦ inl (rw (find-Written written other.workflow_id other.node_id, e, miss))
    | inr e ↦ inr (
        rw (find-Written written other.workflow_id other.node_id, e)
          (rw (is_node_same r.workflow_id r.node_id other (f other other) same, miss)))
  ]

  -- The write for `r` leaves the rows of the reading as read or as written.
  pub write_Written :
      (other : Node)
      → (is_node r.workflow_id r.node_id other ≡ true → other ≡ r)
      → SameSpec r (f r r)
      → SameSpec other (f other other)
      → Written f rows r
      → Written f rows other
      → Written f written_rows other
  write_Written other unique self same written w =
      elim (Bool-cases (is_node r.workflow_id r.node_id other)) [
        | inl hit ↦
            subst (Written f written_rows) (sym (unique hit)) (inr (write_self self written))
        | inr miss ↦ write_other other miss same written w
      ]
