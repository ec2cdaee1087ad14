-- ===== src/Fleet/Models/Dag/Acceptance.antt =====
-- models.py, `validate_dag`: acceptance against the faults that a refusal can report.
use mathlib.Core.List.{Memᴰ}
use mathlib.Core.List.Memᴰ
use evoagent_os.Base.{
  ℕ, ◌<◌, String, ◌≡◌, ◌↔◌, refl, sym, subst, arith, inl, inr, true, false, List, [], ◌∷◌, Option,
  some, mem_text, length, Bool-cases, Option-cases, mem_text-cons, mem_text-head, mem_text-cons_of,
  eq_true, ◌==◌,
}
use evoagent_os.Fleet.Models.Fields.{NodeSpec, WorkflowSpec}
use evoagent_os.Fleet.Models.Dag.{
  Checked, ok, err, SpecError, duplicate_ids, unknown_dependency, self_dependency, cycle, ids,
  edges, to_set, check_dependencies, validate_dag,
}
use evoagent_os.Fleet.Models.Dag.Order.{IsOrdered, validate_dag-Passed, validate_dag-IsOrdered}
use evoagent_os.Fleet.Models.Dag.Cycles.{DependsOn, edge, chain}
use evoagent_os.Fleet.Models.Dag.Refusals.{
  HasDuplicate, Fault, validate_dag-Fault, checked_nodes, length-to_set_le,
}

module _ (parents : String → Option (List String)) where
  behind_parents :
      (l : List String) (a d : String) (ps : List String)
      → IsOrdered parents l
      → mem_text a l ≡ true
      → parents a ≡ some ps
      → mem_text d ps ≡ true
      → mem_text d l ≡ true
  behind_parents [] a d ps o h has m = cc
  behind_parents (id ∷ rest) a d ps o h has m = elim (mem_text-cons a id rest h) [
    | inl e ↦
        let (qs, known, sub) = o.0 in
        let same : ps ≡ qs = cc in mem_text-cons_of d id rest (sub d (rw same at m))
    | inr later ↦ mem_text-cons_of d id rest (behind_parents rest a d ps o.1 later has m)
  ]

  -- Whatever the head depends on stands behind it.
  behind_head :
      (id : String) (rest : List String) {b : String}
      → IsOrdered parents (id ∷ rest)
      → DependsOn parents id b
      → mem_text b rest ≡ true
  behind_head id rest {b} o (edge ps has m) =
      let (qs, known, sub) = o.0 in let same : ps ≡ qs = cc in sub b (rw same at m)
  behind_head id rest {b} o (chain {b = a} ps d has m) =
      behind_parents rest a b ps o.1 (behind_head id rest o d) has m

  no_cycle :
      (l : List String) (a : String)
      → IsOrdered parents l
      → mem_text a l ≡ true
      → ¬ DependsOn parents a a
  no_cycle [] a o h d = cc
  no_cycle (id ∷ rest) a o h d = elim (mem_text-cons a id rest h) [
    | inl e ↦ no_cycle rest a o.1 (behind_head id rest o (subst (λ x. DependsOn parents x a) e d)) d
    | inr later ↦ no_cycle rest a o.1 later d
  ]

  has_parents : {a b : String} → DependsOn parents a b → (ps : List String) × (parents a ≡ some ps)
  has_parents (edge ps has m) = (ps, has)
  has_parents (chain ps d has m) = has_parents d

to_set-mem : (a : String) (xs : List String) → mem_text a xs ≡ true → mem_text a (to_set xs) ≡ true
unfolding to_set
to_set-mem a [] h = h
to_set-mem a (x ∷ xs) h = elim (mem_text-cons a x xs h) [
  | inl e ↦ elim (Bool-cases (mem_text x (to_set xs))) [
    | inl held ↦ rw held (rw e held)
    | inr new ↦ rw new (mem_text-head a x (to_set xs) e)
  ]
  | inr later ↦ ground (arith, to_set-mem a xs later)
]

length-to_set-HasDuplicate : (xs : List String) → HasDuplicate xs → length (to_set xs) < length xs
unfolding to_set
length-to_set-HasDuplicate [] d = absurd d
length-to_set-HasDuplicate (x ∷ xs) (inl twice) =
    ground (arith, to_set-mem x xs twice, length-to_set_le xs)
length-to_set-HasDuplicate (x ∷ xs) (inr later) =
    ground (arith, length-to_set-HasDuplicate xs later)

no_self :
    (known : List String) (ns : List NodeSpec)
    → check_dependencies known ns ≡ ok tt
    → (n : NodeSpec) → Memᴰ n ns
    → mem_text n.id n.depends_on ≡ false
unfolding check_dependencies
no_self known [] h n m = absurd (Memᴰ.not-nil m)
no_self known (x ∷ ns) h n m =
    let here : mem_text x.id x.depends_on ≡ false = ground arith in
    let later : check_dependencies known ns ≡ ok tt = ground arith in
    elim (Memᴰ.cases_cons m) [ inl e ↦ rw e here | inr there ↦ no_self known ns later n there ]

mem_text-ids :
    (ns : List NodeSpec) (a : String) (ps : List String)
    → edges ns a ≡ some ps
    → mem_text a (ids ns) ≡ true
unfolding edges ids
mem_text-ids [] a ps h = cc
mem_text-ids (n ∷ ns) a ps h = elim (Option-cases (edges ns a)) [
  | inr (qs, later) ↦ mem_text-cons_of a n.id (ids ns) (mem_text-ids ns a qs later)
  | inl absent ↦ elim (Bool-cases (n.id == a)) [
    | inl e ↦ mem_text-head a n.id (ids ns) (sym (eq_true n.id a e))
    | inr other ↦ cc (rw (absent, other) at h)
  ]
]

faultless :
    (depth : ℕ) (w : WorkflowSpec) → validate_dag depth w ≡ ok tt → (e : SpecError) → ¬ Fault w e
faultless depth w h duplicate_ids f =
    omega
      (arith, (validate_dag-Passed depth w h).unique, length-to_set-HasDuplicate (ids w.nodes) f)
faultless depth w h unknown_dependency (n, d, m, needed, absent) =
    cc (checked_nodes (ids w.nodes) w.nodes (validate_dag-Passed depth w h).known n m d needed)
faultless depth w h self_dependency (n, m, itself) =
    cc (no_self (ids w.nodes) w.nodes (validate_dag-Passed depth w h).known n m)
faultless depth w h cycle (a, d) =
    let (order, ordered, covers) = validate_dag-IsOrdered depth w h in
    let (ps, has) = has_parents (edges w.nodes) d in
    no_cycle (edges w.nodes) order a ordered (covers a (mem_text-ids w.nodes a ps has)) d
faultless depth w h _ f = absurd f

accepted_of :
    (depth : ℕ) (w : WorkflowSpec)
    → length w.nodes < depth
    → ((e : SpecError) → ¬ Fault w e)
    → (c : Checked Unit) → validate_dag depth w ≡ c
    → validate_dag depth w ≡ ok tt
accepted_of depth w fits none_of (ok tt) h = h
accepted_of depth w fits none_of (err e) h =
    absurd (none_of e (validate_dag-Fault w depth e fits h))

-- The graph is accepted exactly when it has none of the faults, given a stack deeper than the
-- number of nodes.
pub validate_dag_iff :
    (depth : ℕ) (w : WorkflowSpec)
    → length w.nodes < depth
    → (validate_dag depth w ≡ ok tt) ↔ ((e : SpecError) → ¬ Fault w e)
validate_dag_iff depth w fits =
    (faultless depth w, λ none_of. accepted_of depth w fits none_of (validate_dag depth w) refl)
