-- ===== src/Fleet/Orchestrator/Steps/Keys.antt =====
-- store.py, the primary key of the table of nodes: what a row shows under its key before and after a
-- step.
use mathlib.Core.List.{Memᴰ}
use mathlib.Core.Option
use mathlib.Core.Path.{subst₂}
use evoagent_os.Base.{
  String, ◌≡◌, refl, sym, subst, arith, inl, inr, Bool, true, List, [], ◌∷◌, ◌++◌, none, some,
  Bool-cases, eq_self, eq_true, and_true, ◌==◌,
}
use evoagent_os.Base.{◌≤◌, ◌==◌, eq_sym, Bool-cases, inl, inr, Bool, arith, refl}
use evoagent_os.Base.Rows.{
  count, count_absent, update_where, find, revised, mem-update, find-update, find-append, mem_snoc,
}
use evoagent_os.Fleet.Store.{Node, is_node}
use evoagent_os.Fleet.Orchestrator.Steps.{NodeStep, ready, decide, lease, renew, stop, finish, stay}

-- What no step changes.
pub record SameSpec (n n' : Node) : Type 0 where
  pub workflow_id : n'.workflow_id ≡ n.workflow_id
  pub node_id : n'.node_id ≡ n.node_id
  pub deps : n'.deps ≡ n.deps
  pub budget : n'.budget ≡ n.budget
  pub max_attempts : n'.max_attempts ≡ n.max_attempts

pub SameSpec-refl : (n : Node) → SameSpec n n
SameSpec-refl n = record {
  workflow_id = refl;
  node_id = refl;
  deps = refl;
  budget = refl;
  max_attempts = refl;
}

pub NodeStep-SameSpec : {rows : List Node} (n n' : Node) → NodeStep rows n n' → SameSpec n n'
NodeStep-SameSpec n n' (ready stamp b d e) =
    subst (SameSpec n) (sym e) (record {
      workflow_id = refl;
      node_id = refl;
      deps = refl;
      budget = refl;
      max_attempts = refl;
    })
NodeStep-SameSpec n n' (decide approved actor stamp a e) = ground arith
NodeStep-SameSpec n n' (lease worker token expires stamp q e) = ground arith
NodeStep-SameSpec n n' (renew expires stamp l e) = ground arith
NodeStep-SameSpec n n' (stop retry error stamp l r e) = ground arith
NodeStep-SameSpec n n' (finish result stamp l x e) = ground arith
NodeStep-SameSpec n n' (stay e) = ground arith

-- A key finds one row at most.
abbrev pub IsIndexed : List Node → Type 0
IsIndexed rows = (r : Node) → Memᴰ r rows → find (is_node r.workflow_id r.node_id) rows ≡ some r

-- No key stands twice.
abbrev pub IsKeyed : List Node → Type 0
IsKeyed [] = Unit
IsKeyed (r ∷ rs) = (find (is_node r.workflow_id r.node_id) rs ≡ none) × IsKeyed rs

pub is_node_self : (n : Node) → is_node n.workflow_id n.node_id n ≡ true
is_node_self n = rw (eq_self n.workflow_id, eq_self n.node_id)

pub is_node_key :
    (w i : String) (n : Node) → is_node w i n ≡ true → (n.workflow_id ≡ w) × (n.node_id ≡ i)
is_node_key w i n h =
    let (a, b) = and_true (n.workflow_id == w) (n.node_id == i) h in
    (eq_true n.workflow_id w a, eq_true n.node_id i b)

pub is_node_same : (w i : String) (n n' : Node) → SameSpec n n' → is_node w i n' ≡ is_node w i n
is_node_same w i n n' s = rw (s.workflow_id, s.node_id)

module _ {rows : List Node} (p : Node → Bool) (f : Node → Node)
    (steps : (q : Node) → Memᴰ q rows → p q ≡ true → NodeStep rows q (f q)) where
  pub NodeStep-revised : (q : Node) → Memᴰ q rows → NodeStep rows q (revised p f q)
  NodeStep-revised q m = elim (Bool-cases (p q)) [
    | inl e ↦ rw e (steps q m e)
    | inr e ↦ rw e (stay refl)
  ]

  pub find-edit :
      (w i : String)
      → find (is_node w i) (update_where p f rows)
        ≡ Option.map (revised p f) (find (is_node w i) rows)
  find-edit w i =
      find-update (is_node w i) p f rows
        λ r m. is_node_same w i r (revised p f r) (NodeStep-SameSpec r _ (NodeStep-revised r m))

  pub edit-IsIndexed : IsIndexed rows → IsIndexed (update_where p f rows)
  edit-IsIndexed indexed r m =
      let (q, mq, e) = mem-update p f rows m in
      let same = NodeStep-SameSpec q _ (NodeStep-revised q mq) in
      rw (e, same.workflow_id, same.node_id, find-edit q.workflow_id q.node_id, indexed q mq)

module _ (rows : List Node) (n : Node) where
  pub find-create :
      (w i : String) (q : Node)
      → find (is_node w i) rows ≡ some q
      → find (is_node w i) (rows ++ n ∷ []) ≡ some q
  find-create w i q h = rw (find-append (is_node w i) rows (n ∷ []), h)

  pub create-IsIndexed :
      find (is_node n.workflow_id n.node_id) rows ≡ none
      → IsIndexed rows
      → IsIndexed (rows ++ n ∷ [])
  unfolding find
  create-IsIndexed absent indexed r m = elim (mem_snoc rows m) [
    | inl old ↦ find-create r.workflow_id r.node_id r (indexed r old)
    | inr e ↦
        rw (e, find-append (is_node n.workflow_id n.node_id) rows (n ∷ []), absent, is_node_self n)
  ]

is_node_sym : (a b : Node) → is_node a.workflow_id a.node_id b ≡ is_node b.workflow_id b.node_id a
is_node_sym a b = rw (eq_sym b.workflow_id a.workflow_id, eq_sym b.node_id a.node_id)

pub IsKeyed-snoc :
    (n : Node) (l : List Node)
    → find (is_node n.workflow_id n.node_id) l ≡ none
    → IsKeyed l
    → IsKeyed (l ++ n ∷ [])
unfolding find
IsKeyed-snoc n [] absent k = (refl, tt)
IsKeyed-snoc n (r ∷ l) absent k = elim (Bool-cases (is_node n.workflow_id n.node_id r)) [
  | inl hit ↦ cc (rw hit at absent)
  | inr miss ↦ (
    rw (find-append (is_node r.workflow_id r.node_id) l (n ∷ []), k.0, is_node_sym r n, miss),
    IsKeyed-snoc n l (rw miss at absent) k.1,
  )
]

pub IsKeyed-update :
    {rows : List Node} (p : Node → Bool) (f : Node → Node) (l : List Node)
    → ((q : Node) → Memᴰ q l → NodeStep rows q (revised p f q))
    → IsKeyed l
    → IsKeyed (update_where p f l)
unfolding update_where
IsKeyed-update p f [] steps k = tt
IsKeyed-update p f (r ∷ l) steps k =
    let same = NodeStep-SameSpec r _ (steps r (Memᴰ.head refl)) in
    (
      rw (
        same.workflow_id,
        same.node_id,
        find-update (is_node r.workflow_id r.node_id) p f l (λ q m.
            is_node_same r.workflow_id r.node_id q (revised p f q)
              (NodeStep-SameSpec q _ (steps q (Memᴰ.tail m)))),
        k.0,
      ),
      IsKeyed-update p f l (λ q m. steps q (Memᴰ.tail m)) k.1,
    )

-- A key counts one row at most.
pub count-key : (w i : String) (rows : List Node) → IsKeyed rows → count (is_node w i) rows ≤ 1
unfolding count
count-key w i [] k = omega arith
count-key w i (r ∷ rs) k = elim (Bool-cases (is_node w i r)) [
  | inr miss ↦ rw miss (omega (arith, count-key w i rs k.1))
  | inl hit ↦
      let (a, b) = is_node_key w i r hit in
      rw hit (
        omega (
          arith,
          count_absent (is_node w i) rs (subst₂ (λ x y. find (is_node x y) rs ≡ none) a b k.0),
        ))
]

-- A row found by its key, with `IsIndexed`.
pub found_row :
    {rows : List Node} (w i : String) (q : Node)
    → IsIndexed rows
    → Memᴰ q rows
    → is_node w i q ≡ true
    → find (is_node w i) rows ≡ some q
found_row {rows} w i q indexed m h =
    let (a, b) = is_node_key w i q h in
    subst₂ (λ x y. find (is_node x y) rows ≡ some q) a b (indexed q m)

-- Two rows of one reading under one key are one row.
pub same_row :
    {rows : List Node} (a b : Node)
    → IsIndexed rows
    → Memᴰ a rows
    → Memᴰ b rows
    → is_node b.workflow_id b.node_id a ≡ true
    → a ≡ b
same_row a b indexed ma mb h =
    let fa = found_row b.workflow_id b.node_id a indexed ma h in let fb = indexed b mb in cc
