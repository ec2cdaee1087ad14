-- ===== src/Fleet/Models/Dag/Refusals.antt =====
-- models.py, `validate_dag`: why a workflow is refused.
use mathlib.Core.List.{Memᴰ}
use mathlib.Core.List.Memᴰ
use evoagent_os.Base.{
  ℕ, ◌≤◌, ◌<◌, String, ◌≡◌, refl, subst, arith, ◌⊎◌, inl, inr, true, false, List, [], ◌∷◌, some,
  mem_text, length, nat_eq, Bool-cases, Option-cases, mem_text-cons, mem_text-head, eq_self,
}
use evoagent_os.Base.Rows.{count}
use evoagent_os.Fleet.Models.Fields.{NodeSpec, WorkflowSpec}
use evoagent_os.Fleet.Models.Dag.{
  Checked, ok, err, SpecError, duplicate_ids, unknown_dependency, self_dependency, cycle, Marks,
  no_marks, ids, edges, to_set, has_missing, check_dependencies, visit, search_all, validate_dag,
  ◌>>◌,
}
use evoagent_os.Fleet.Models.Dag.Order.{IsSubset}
use evoagent_os.Fleet.Models.Dag.Cycles.{
  DependsOn, IsClosed, Outcome, room, for_each-Outcome, visit_outcome,
}

-- A text stands in the list twice.
abbrev pub HasDuplicate : List String → Type 0
HasDuplicate [] = ⊥
HasDuplicate (x ∷ xs) = (mem_text x xs ≡ true) ⊎ HasDuplicate xs

-- A node that depends on an unknown node, or on itself.
abbrev pub NodeFault : List String → List NodeSpec → SpecError → Type 0
NodeFault known ns unknown_dependency =
    (n : NodeSpec) × (d : String) × Memᴰ n ns
    × (mem_text d n.depends_on ≡ true)
    × (mem_text d known ≡ false)
NodeFault known ns self_dependency =
    (n : NodeSpec) × Memᴰ n ns × (mem_text n.id n.depends_on ≡ true)
NodeFault known ns _ = ⊥

-- The fault of the graph that an error reports.
abbrev pub Fault : WorkflowSpec → SpecError → Type 0
Fault w duplicate_ids = HasDuplicate (ids w.nodes)
Fault w cycle = (a : String) × DependsOn (edges w.nodes) a a
Fault w e = NodeFault (ids w.nodes) w.nodes e

pub length-to_set_le : (xs : List String) → length (to_set xs) ≤ length xs
unfolding to_set
length-to_set_le [] = omega arith
length-to_set_le (x ∷ xs) = ground (arith, length-to_set_le xs)

mem_text-to_set :
    (a : String) (xs : List String) → mem_text a (to_set xs) ≡ true → mem_text a xs ≡ true
unfolding to_set
mem_text-to_set a [] h = h
mem_text-to_set a (x ∷ xs) h = ground (arith, mem_text-to_set a xs)

-- `len(ids) != len(set(ids))` finds a duplicate.
duplicate_of_set : (xs : List String) → length (to_set xs) < length xs → HasDuplicate xs
unfolding to_set
duplicate_of_set [] h = omega arith
duplicate_of_set (x ∷ xs) h = elim (Bool-cases (mem_text x (to_set xs))) [
  | inl twice ↦ inl (mem_text-to_set x xs twice)
  | inr once ↦ inr (duplicate_of_set xs (ground arith))
]

missing_of :
    (known ds : List String)
    → has_missing known ds ≡ true
    → (d : String) × (mem_text d ds ≡ true) × (mem_text d known ≡ false)
unfolding has_missing
missing_of known [] h = cc
missing_of known (d ∷ ds) h = elim (Bool-cases (mem_text d known)) [
  | inl here ↦ let (e, m, a) = missing_of known ds (rw here at h) in (e, ground arith, a)
  | inr absent ↦ (d, mem_text-head d d ds refl, absent)
]

none_missing : (known ds : List String) → has_missing known ds ≡ false → IsSubset ds known
unfolding has_missing
none_missing known [] h a m = cc
none_missing known (d ∷ ds) h a m = elim (mem_text-cons a d ds m) [
  | inl e ↦ rw e (ground arith)
  | inr later ↦ none_missing known ds (ground arith) a later
]

module _ (known : List String) where
  -- A pass that ends has seen every node's dependencies among the known ids.
  pub checked_nodes :
      (ns : List NodeSpec)
      → check_dependencies known ns ≡ ok tt
      → (n : NodeSpec) → Memᴰ n ns
      → IsSubset n.depends_on known
  unfolding check_dependencies
  checked_nodes [] h n m = absurd (Memᴰ.not-nil m)
  checked_nodes (x ∷ ns) h n m =
      let none_here : has_missing known x.depends_on ≡ false = ground arith in
      let later : check_dependencies known ns ≡ ok tt = ground arith in
      elim (Memᴰ.cases_cons m) [
        | inl e ↦ rw e (none_missing known x.depends_on none_here)
        | inr there ↦ checked_nodes ns later n there
      ]

  NodeFault-cons :
      (x : NodeSpec) (ns : List NodeSpec) (e : SpecError)
      → NodeFault known ns e
      → NodeFault known (x ∷ ns) e
  NodeFault-cons x ns unknown_dependency (n, d, m, f, a) = (n, d, Memᴰ.tail m, f, a)
  NodeFault-cons x ns self_dependency (n, m, f) = (n, Memᴰ.tail m, f)
  NodeFault-cons x ns _ f = absurd f

  -- A pass that raises has met a node at fault.
  fault_of_nodes :
      (ns : List NodeSpec) (e : SpecError)
      → check_dependencies known ns ≡ err e
      → NodeFault known ns e
  unfolding check_dependencies
  fault_of_nodes [] e h = cc
  fault_of_nodes (x ∷ ns) e h = elim (Bool-cases (has_missing known x.depends_on)) [
    | inl missing ↦
        let (d, needed, absent) = missing_of known x.depends_on missing in
        let which : unknown_dependency ≡ e = cc (rw missing at h) in
        subst (NodeFault known (x ∷ ns)) which (x, d, Memᴰ.head refl, needed, absent)
    | inr full ↦ elim (Bool-cases (mem_text x.id x.depends_on)) [
      | inl itself ↦
          let which : self_dependency ≡ e = cc (rw (full, itself) at h) in
          subst (NodeFault known (x ∷ ns)) which (x, Memᴰ.head refl, itself)
      | inr other ↦ NodeFault-cons x ns e (fault_of_nodes ns e (rw (full, other) at h))
    ]
  ]

-- An entry of `edges` is some node's dependencies, and every node has an entry.
pub edges-some :
    (ns : List NodeSpec) (id : String) (ps : List String)
    → edges ns id ≡ some ps
    → (n : NodeSpec) × Memᴰ n ns × (n.depends_on ≡ ps)
unfolding edges
edges-some [] id ps h = cc
edges-some (x ∷ ns) id ps h = elim (Option-cases (edges ns id)) [
  | inl absent ↦ (x, Memᴰ.head refl, ground arith)
  | inr (qs, later) ↦ let (n, m, e) = edges-some ns id qs later in (n, Memᴰ.tail m, ground arith)
]

edges_defined :
    (ns : List NodeSpec) (id : String)
    → mem_text id (ids ns) ≡ true
    → (ps : List String) × (edges ns id ≡ some ps)
unfolding edges ids
edges_defined [] id h = cc
edges_defined (x ∷ ns) id h = elim (Option-cases (edges ns id)) [
  | inr (ps, later) ↦ (ps, rw later)
  | inl absent ↦ elim (mem_text-cons id x.id (ids ns) h) [
    | inl e ↦ (x.depends_on, rw (absent, e, eq_self x.id))
    | inr there ↦ cc (absent, (edges_defined ns id there).1)
  ]
]

IsClosed-edges :
    (ns : List NodeSpec) → check_dependencies (ids ns) ns ≡ ok tt → IsClosed (edges ns) (ids ns)
IsClosed-edges ns h id k =
    let (ps, e) = edges_defined ns id k in
    let (n, m, same) = edges-some ns id ps e in
    (ps, e, subst (λ l. IsSubset l (ids ns)) same (checked_nodes (ids ns) ns h n m))

room-nil : (xs : List String) → room xs [] ≡ length xs
unfolding count
room-nil [] = refl
room-nil (x ∷ xs) = omega (arith, room-nil xs)

length-ids : (ns : List NodeSpec) → length (ids ns) ≡ length ns
unfolding ids
length-ids [] = refl
length-ids (n ∷ ns) = omega (arith, length-ids ns)

module _ (w : WorkflowSpec) where
  Fault-of_search :
      (closed : IsClosed (edges w.nodes) (ids w.nodes)) (r : Checked Marks) (e : SpecError)
      → Outcome (edges w.nodes) (ids w.nodes) closed [] r
      → (r >> ok tt) ≡ err e
      → Fault w e
  Fault-of_search closed (ok m) e o h = cc
  Fault-of_search closed (err cycle) e o h = let which : cycle ≡ e = cc in subst (Fault w) which o
  Fault-of_search closed (err _) e o h = absurd o

  NodeFault-Fault : (e : SpecError) → NodeFault (ids w.nodes) w.nodes e → Fault w e
  NodeFault-Fault unknown_dependency f = f
  NodeFault-Fault self_dependency f = f
  NodeFault-Fault _ f = absurd f

  Fault-after_ids :
      (depth : ℕ) (e : SpecError)
      → length w.nodes < depth
      → (check_dependencies (ids w.nodes) w.nodes >> (search_all depth w.nodes >> ok tt)) ≡ err e
      → (c : Checked Unit) → check_dependencies (ids w.nodes) w.nodes ≡ c
      → Fault w e
  unfolding search_all
  Fault-after_ids depth e fits h (err e') c =
      let which : e' ≡ e = cc (rw c at h) in
      subst (Fault w) which (NodeFault-Fault e' (fault_of_nodes (ids w.nodes) w.nodes e' c))
  Fault-after_ids depth e fits h (ok tt) c =
      let closed = IsClosed-edges w.nodes c in
      let all_marks = search_all depth w.nodes in
      Fault-of_search closed all_marks e
        (for_each-Outcome (edges w.nodes) (ids w.nodes) closed depth (visit (edges w.nodes) depth)
          (visit_outcome (edges w.nodes) (ids w.nodes) closed depth) (ids w.nodes) no_marks [] refl
          (λ a x. x) (λ p x a y. cc) (omega (arith, room-nil (ids w.nodes), length-ids w.nodes)))
        (rw c at h)

  -- A refusal reports a fault that the graph has, and none for want of stack, when the stack is
  -- deeper than the number of nodes: ids are repeated, a node depends on an unknown node or on
  -- itself, or a node depends on itself by a chain.
  pub validate_dag-Fault :
      (depth : ℕ) (e : SpecError)
      → length w.nodes < depth
      → validate_dag depth w ≡ err e
      → Fault w e
  unfolding validate_dag
  validate_dag-Fault depth e fits h =
      elim (Bool-cases (nat_eq (length (ids w.nodes)) (length (to_set (ids w.nodes))))) [
        | inl unique ↦
            Fault-after_ids depth e fits (rw unique at h) (check_dependencies (ids w.nodes) w.nodes)
              refl
        | inr twice ↦
            let which : duplicate_ids ≡ e = cc (rw twice at h) in
            subst (Fault w) which
              (duplicate_of_set (ids w.nodes) (ground (arith, length-to_set_le (ids w.nodes))))
      ]
