-- ===== src/Fleet/Models/Dag/Order.antt =====
-- models.py, `validate_dag`: the order in which the search leaves the nodes.
use evoagent_os.Base.{
  ℕ, zero, suc, String, ◌≡◌, subst, arith, inl, inr, true, List, [], ◌∷◌, Option, some, mem_text,
  not, nat_eq, length, Bool-cases, mem_text-cons, mem_text-cons_self, mem_text-cons_of,
  mem_text-cons_only,
}
use evoagent_os.Fleet.Models.Fields.{WorkflowSpec}
use evoagent_os.Fleet.Models.Dag.{
  Checked, ok, Marks, no_marks, ids, edges, for_each, expand, visit, parents_of, search_all,
  check_dependencies, validate_dag, ◌>>◌, to_set, duplicate_ids, raise_if,
}
use evoagent_os.Fleet.Models.Dag.Search.{>>=-eq-ok}

abbrev pub IsSubset : List String → List String → Type 0
IsSubset xs ys = (a : String) → mem_text a xs ≡ true → mem_text a ys ≡ true

-- Each node of the list has its parents behind it.
abbrev pub IsOrdered : (String → Option (List String)) → List String → Type 0
IsOrdered parents [] = Unit
IsOrdered parents (id ∷ rest) =
    ((ps : List String) × (parents id ≡ some ps) × IsSubset ps rest) × IsOrdered parents rest

module _ (parents : String → Option (List String)) where
  -- What a call of `visit` does to the visited nodes.
  record Grows (need : List String) (m m' : Marks) : Type 0 where
    ordered : IsOrdered parents m'.visited
    kept : IsSubset m.visited m'.visited
    reached : IsSubset need m'.visited

  abbrev Sound : (String → Marks → Checked Marks) → Type 0
  Sound f =
      (id : String) (m m' : Marks)
      → f id m ≡ ok m'
      → IsOrdered parents m.visited
      → Grows (id ∷ []) m m'

  parents_of-eq-ok :
      (id : String) (ps : List String) → parents_of parents id ≡ ok ps → parents id ≡ some ps
  unfolding parents_of
  parents_of-eq-ok id ps h = ground arith

  for_each-Grows :
      (f : String → Marks → Checked Marks)
      → Sound f
      → (ps : List String) (m m' : Marks) → for_each f ps m ≡ ok m'
      → IsOrdered parents m.visited
      → Grows ps m m'
  unfolding for_each
  for_each-Grows f sound [] m m' h o =
      let same : m ≡ m' = cc in
      subst (Grows [] m) same (record { ordered = o; kept = λ a x. x; reached = λ a x. cc })
  for_each-Grows f sound (p ∷ ps) m m' h o =
      let (m₁, first, later) = >>=-eq-ok (f p m) (for_each f ps) h in
      let g = sound p m m₁ first o in
      let rest = for_each-Grows f sound ps m₁ m' later g.ordered in
      record {
        ordered = rest.ordered;
        kept = λ a x. rest.kept a (g.kept a x);
        reached = λ a x. elim (mem_text-cons a p ps x) [
          | inl e ↦ rest.kept a (rw e (g.reached p (mem_text-cons_self p [])))
          | inr later ↦ rest.reached a later
        ];
      }

  expand_grows : (f : String → Marks → Checked Marks) → Sound f → Sound (expand parents f)
  unfolding expand
  expand_grows f sound id m m' h o =
      let (ps, known, searched) = >>=-eq-ok (parents_of parents id) _ h in
      let (m₁, each, marked) = >>=-eq-ok (for_each f ps _) _ searched in
      let g = for_each-Grows f sound ps _ m₁ each o in
      let same : m'.visited ≡ id ∷ m₁.visited = cc in
      record {
        ordered = rw same ((ps, parents_of-eq-ok id ps known, g.reached), g.ordered);
        kept = λ a x. rw same (mem_text-cons_of a id m₁.visited (g.kept a x));
        reached = λ a x. rw same (mem_text-cons_only a id m₁.visited x);
      }

  visit_grows : (depth : ℕ) → Sound (visit parents depth)
  unfolding visit
  visit_grows zero id m m' h o = cc
  visit_grows (suc depth) id m m' h o = elim (Bool-cases (mem_text id m.visiting)) [
    | inl active ↦ cc (rw active at h)
    | inr fresh ↦ elim (Bool-cases (mem_text id m.visited)) [
      | inl done ↦
          let same : m ≡ m' = cc (rw (fresh, done) at h) in
          subst (Grows (id ∷ []) m) same (record {
            ordered = o;
            kept = λ a x. x;
            reached = λ a x. elim (mem_text-cons a id [] x) [ inl e ↦ rw e done | inr e ↦ cc ];
          })
      | inr new ↦
          expand_grows (visit parents depth) (visit_grows depth) id m m' (rw (fresh, new) at h) o
    ]
  ]

-- The checks that an accepted workflow has passed.
pub record Passed (depth : ℕ) (w : WorkflowSpec) : Type 0 where
  pub unique : length (ids w.nodes) ≡ length (to_set (ids w.nodes))
  pub known : check_dependencies (ids w.nodes) w.nodes ≡ ok tt
  pub marks : Marks
  pub searched : search_all depth w.nodes ≡ ok marks

pub validate_dag-Passed :
    (depth : ℕ) (w : WorkflowSpec) → validate_dag depth w ≡ ok tt → Passed depth w
unfolding validate_dag
validate_dag-Passed depth w h =
    let (_, unique, h₁) =
      >>=-eq-ok
        (raise_if (not (nat_eq (length (ids w.nodes)) (length (to_set (ids w.nodes)))))
          duplicate_ids)
        (λ _. check_dependencies (ids w.nodes) w.nodes >> (search_all depth w.nodes >> ok tt)) h in
    let (_, known, h₂) =
      >>=-eq-ok (check_dependencies (ids w.nodes) w.nodes) (λ _. search_all depth w.nodes >> ok tt)
        h₁ in
    let (m, searched, _) = >>=-eq-ok (search_all depth w.nodes) (λ _. ok tt) h₂ in
    record { unique = ground arith; known = known; marks = m; searched = searched }

-- An accepted workflow's nodes have an order in which each stands before its dependencies: the
-- list holds every node of the workflow, and each entry's dependencies stand behind it.
pub validate_dag-IsOrdered :
    (depth : ℕ) (w : WorkflowSpec)
    → validate_dag depth w ≡ ok tt
    → (order : List String) × IsOrdered (edges w.nodes) order × IsSubset (ids w.nodes) order
unfolding search_all
validate_dag-IsOrdered depth w h =
    let passed = validate_dag-Passed depth w h in
    let g =
      for_each-Grows (edges w.nodes) (visit (edges w.nodes) depth)
        (visit_grows (edges w.nodes) depth) (ids w.nodes) no_marks passed.marks passed.searched
        tt in
    (passed.marks.visited, g.ordered, g.reached)
