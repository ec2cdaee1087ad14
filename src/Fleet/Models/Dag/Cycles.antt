-- ===== src/Fleet/Models/Dag/Cycles.antt =====
-- models.py, `validate_dag`: the stack that the search needs, and the cycles that it reports.
use evoagent_os.Base.{
  ℕ, zero, suc, ◌≤◌, ◌<◌, String, ◌≡◌, refl, sym, subst, arith, inl, inr, true, false, not, List,
  [], ◌∷◌, Option, some, mem_text, Bool-cases, mem_text-cons, mem_text-cons_self, mem_text-cons_of,
  mem_text-head, eq_self,
}
use evoagent_os.Base.Rows.{count}
use evoagent_os.Fleet.Models.Dag.{
  Checked, ok, err, cycle, Marks, for_each, expand, visit, parents_of, remove, ◌>>=◌,
}
use evoagent_os.Fleet.Models.Dag.Order.{IsSubset}

-- A chain of dependencies, of one step at least.
pub data DependsOn (parents : String → Option (List String)) (a : String) : String → Type 0 where
  edge :
      {b : String} (ps : List String)
      → parents a ≡ some ps
      → mem_text b ps ≡ true
      → DependsOn parents a b
  chain :
      {b c : String} (ps : List String)
      → DependsOn parents a b
      → parents b ≡ some ps
      → mem_text c ps ≡ true
      → DependsOn parents a c

-- The nodes that a search may visit have entries, whose dependencies it may visit too.
abbrev pub IsClosed : (String → Option (List String)) → List String → Type 0
IsClosed parents known =
    (id : String)
    → mem_text id known ≡ true
    → (ps : List String) × (parents id ≡ some ps) × IsSubset ps known

-- The nodes of `known` that are not being visited.
abbrev pub room : List String → List String → ℕ
room known visiting = count (λ x. not (mem_text x visiting)) known

room-cons_le :
    (known visiting : List String) (id : String) → room known (id ∷ visiting) ≤ room known visiting
unfolding count
room-cons_le [] visiting id = omega arith
room-cons_le (x ∷ known) visiting id = ground (arith, room-cons_le known visiting id)

room-cons :
    (known visiting : List String) (id : String)
    → mem_text id known ≡ true
    → mem_text id visiting ≡ false
    → room known (id ∷ visiting) < room known visiting
unfolding count
room-cons [] visiting id k v = cc
room-cons (x ∷ known) visiting id k v = elim (mem_text-cons id x known k) [
  | inl e ↦ ground (
    arith,
    room-cons_le known visiting id,
    mem_text-head x id visiting (sym e),
    subst (λ a. mem_text a visiting ≡ false) e v,
  )
  | inr later ↦ ground (arith, room-cons known visiting id later v)
]

module _ (parents : String → Option (List String)) (known : List String)
    (closed : IsClosed parents known) where
  -- What a call gives back: the nodes being visited are those from before, or there is a cycle.
  abbrev pub Outcome : List String → Checked Marks → Type 0
  Outcome visiting (ok m) = m.visiting ≡ visiting
  Outcome visiting (err cycle) = (a : String) × DependsOn parents a a
  Outcome visiting (err _) = ⊥

  Outcome-bind :
      (visiting : List String) (r : Checked Marks) (k : Marks → Checked Marks)
      → Outcome visiting r
      → ((m : Marks) → m.visiting ≡ visiting → Outcome visiting (k m))
      → Outcome visiting (r >>= k)
  Outcome-bind visiting (ok m) k o step = step m o
  Outcome-bind visiting (err cycle) k o step = o
  Outcome-bind visiting (err _) k o step = absurd o

  -- The same where `k` takes the last node out again.
  Outcome-then :
      {id : String} {visiting : List String} (r : Checked Marks) (k : Marks → Marks)
      → Outcome (id ∷ visiting) r
      → ((m : Marks) → m.visiting ≡ id ∷ visiting → (k m).visiting ≡ visiting)
      → Outcome visiting (r >>= λ m. ok (k m))
  Outcome-then (ok m) k o step = step m o
  Outcome-then (err cycle) k o step = o
  Outcome-then (err _) k o step = absurd o

  -- Each node being visited depends on `id`.
  abbrev pub Leads : List String → String → Type 0
  Leads visiting id = (a : String) → mem_text a visiting ≡ true → DependsOn parents a id

  abbrev pub Ends : ℕ → (String → Marks → Checked Marks) → Type 0
  Ends depth f =
      (id : String) (m : Marks)
      → mem_text id known ≡ true
      → Leads m.visiting id
      → room known m.visiting < depth
      → Outcome m.visiting (f id m)

  pub for_each-Outcome :
      (depth : ℕ) (f : String → Marks → Checked Marks)
      → Ends depth f
      → (ps : List String) (m : Marks) (visiting : List String) → m.visiting ≡ visiting
      → IsSubset ps known
      → ((p : String) → mem_text p ps ≡ true → Leads visiting p)
      → room known visiting < depth
      → Outcome visiting (for_each f ps m)
  unfolding for_each
  for_each-Outcome depth f ends [] m visiting same sub leads fits = same
  for_each-Outcome depth f ends (p ∷ ps) m visiting same sub leads fits =
      let first = mem_text-cons_self p ps in
      let called = ends p m (sub p first) (λ a x. leads p first a (rw same at x)) (rw same fits) in
      Outcome-bind visiting (f p m) (for_each f ps) (subst (λ v. Outcome v (f p m)) same called)
        λ m₁ same₁.
          for_each-Outcome depth f ends ps m₁ visiting same₁
            (λ a x. sub a (mem_text-cons_of a p ps x)) (λ a x. leads a (mem_text-cons_of a p ps x))
            fits

  expand-Outcome :
      (depth : ℕ) (f : String → Marks → Checked Marks)
      → Ends depth f
      → (id : String) (m : Marks) → mem_text id known ≡ true
      → mem_text id m.visiting ≡ false
      → Leads m.visiting id
      → room known m.visiting < suc depth
      → Outcome m.visiting (expand parents f id m)
  unfolding expand remove
  expand-Outcome depth f ends id m k fresh leads fits =
      let (ps, has, sub) = closed id k in
      rw (has, parents_of)
        (Outcome-then (for_each f ps (record m { visiting = id ∷ m.visiting })) _
          (for_each-Outcome depth f ends ps _ (id ∷ m.visiting) refl sub
            (λ p x a y. elim (mem_text-cons a id m.visiting y) [
              | inl e ↦ rw e (edge ps has x)
              | inr older ↦ chain ps (leads a older) has x
            ])
            (omega (arith, room-cons known m.visiting id k fresh)))
          λ m₁ same. rw same (rw (eq_self id)))

  pub visit_outcome : (depth : ℕ) → Ends depth (visit parents depth)
  unfolding visit
  visit_outcome zero id m k leads fits = absurd (omega arith)
  visit_outcome (suc depth) id m k leads fits = elim (Bool-cases (mem_text id m.visiting)) [
    | inl active ↦ rw active (id, leads id active)
    | inr fresh ↦ elim (Bool-cases (mem_text id m.visited)) [
      | inl done ↦ rw (fresh, done) refl
      | inr new ↦
          rw (fresh, new)
            (expand-Outcome depth (visit parents depth) (visit_outcome depth) id m k fresh leads
              fits)
    ]
  ]
