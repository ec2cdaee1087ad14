-- ===== src/Fleet/Models/Dag.antt =====
-- models.py, WorkflowSpec.validate_dag: node ids are unique, dependencies are known, and the
-- depth-first search of `visit` meets no cycle.
mod Search
pub mod Order
pub mod Cycles
pub mod Refusals
pub mod Acceptance
use evoagent_os.Base.{
  ℕ, zero, suc, ◌+◌, String, Bool, true, false, ◌&&◌, ◌||◌, not, List, [], ◌∷◌, Option, none, some,
  ◌==◌, nat_eq, if◌then◌else◌, length, map, mem_text,
}
use evoagent_os.Fleet.Models.Fields.{NodeSpec, WorkflowSpec, workflow_fields}

-- The `ValueError`s in their order, pydantic's own, and two errors of Python.
pub data SpecError : Type 0 where
  bad_field duplicate_ids unknown_dependency self_dependency cycle : SpecError
  key_error recursion_error : SpecError

pub data Checked (A : Type 0) : Type 0 where
  err : SpecError → Checked A
  ok : A → Checked A

module _ {A B : Type 0} where
  infixl 5 ◌>>=◌ ◌>>◌
  abbrev pub ◌>>=◌ : Checked A → (A → Checked B) → Checked B
  err refusal >>= _ = err refusal
  ok value >>= next = next value

  abbrev pub ◌>>◌ : Checked A → Checked B → Checked B
  first >> second = first >>= λ _. second

abbrev pub raise_if : Bool → SpecError → Checked Unit
raise_if false refusal = ok tt
raise_if true refusal = err refusal

pub ids : List NodeSpec → List String
ids [] = []
ids (n ∷ ns) = n.id ∷ ids ns

-- `set(texts)`.
pub to_set : List String → List String
to_set [] = []
to_set (x ∷ xs) = let rest = to_set xs in if mem_text x rest then rest else x ∷ rest

-- `set(deps) - known` holds something.
pub has_missing : List String → List String → Bool
has_missing known [] = false
has_missing known (d ∷ ds) = not (mem_text d known) || has_missing known ds

pub check_dependencies : List String → List NodeSpec → Checked Unit
unfolding has_missing
check_dependencies known [] = ok tt
check_dependencies known (n ∷ ns) = do
  raise_if (has_missing known n.depends_on) unknown_dependency
  raise_if (mem_text n.id n.depends_on) self_dependency
  check_dependencies known ns

-- `edges[node_id]`; a later entry of the dict comprehension replaces an earlier one.
pub edges : List NodeSpec → String → Option (List String)
edges [] id = none
edges (n ∷ ns) id =
    let later = edges ns id in
    elim later [
      | some parents ↦ some parents
      | none ↦ if n.id == id then some n.depends_on else none
    ]

-- The sets `visiting` and `visited`.
pub record Marks : Type 0 where
  pub visiting : List String
  pub visited : List String

-- `for parent in parents: visit(parent)`.
pub for_each : (String → Marks → Checked Marks) → List String → Marks → Checked Marks
for_each f [] m = ok m
for_each f (p ∷ ps) m = f p m >>= for_each f ps

-- `visiting.remove(node_id)`.
pub remove : String → List String → List String
remove a [] = []
remove a (x ∷ xs) = if x == a then xs else x ∷ remove a xs

pub parents_of : (String → Option (List String)) → String → Checked (List String)
parents_of parents id = elim (parents id) [ none ↦ err key_error | some ps ↦ ok ps ]

-- The body of `visit` for a node that is not marked, over the recursive call.
pub expand :
    (String → Option (List String))
    → (String → Marks → Checked Marks)
    → String
    → Marks
    → Checked Marks
unfolding parents_of remove
expand parents f id m = do
  ps ← parents_of parents id
  m' ← for_each f ps (record m { visiting = id ∷ m.visiting })
  ok (record { visiting = remove id m'.visiting; visited = id ∷ m'.visited })

-- The fuel is the depth of Python's stack.
pub visit : (String → Option (List String)) → ℕ → String → Marks → Checked Marks
visit parents zero id m = err recursion_error
visit parents (suc depth) id m =
    let search = expand parents (visit parents depth) id m in
    if mem_text id m.visiting then err cycle else if mem_text id m.visited then ok m else search

abbrev pub no_marks : Marks
no_marks = record { visiting = []; visited = [] }

-- The marks of the search are returned for the proofs; the code drops them.
pub search_all : ℕ → List NodeSpec → Checked Marks
unfolding visit expand for_each edges ids
search_all depth nodes = for_each (visit (edges nodes) depth) (ids nodes) no_marks

unfoldable pub validate_dag : ℕ → WorkflowSpec → Checked Unit
unfolding to_set check_dependencies search_all
validate_dag depth w = do
  raise_if (not (nat_eq (length (ids w.nodes)) (length (to_set (ids w.nodes))))) duplicate_ids
  check_dependencies (ids w.nodes) w.nodes
  search_all depth w.nodes >> ok tt

-- WorkflowSpec(...), with a stack deeper than the search of its nodes can go.
unfoldable pub workflow_spec : WorkflowSpec → Checked WorkflowSpec
unfolding validate_dag workflow_fields
workflow_spec w = do
  raise_if (not (workflow_fields w)) bad_field
  validate_dag (length w.nodes + 1) w
  ok w
