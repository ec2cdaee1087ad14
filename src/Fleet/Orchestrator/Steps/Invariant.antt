-- ===== src/Fleet/Orchestrator/Steps/Invariant.antt =====
-- orchestrator.py: what makes the table of nodes consistent.
use mathlib.Core.List.{Memᴰ}
use mathlib.Core.List.Memᴰ
use evoagent_os.Base.{
  ℕ, ◌≤◌, ◌<◌, String, ◌≡◌, ◌≢◌, refl, sym, ap, ◌∙◌, subst, arith, inl, inr, Bool, true, List, [],
  ◌∷◌, ◌++◌, none, some, mem_text,
}
use evoagent_os.Base.Rows.{update_where, find, revised, mem-update, mem-find, mem_snoc}
use evoagent_os.Fleet.Models.{NodeStatus, NodeSpec}
use evoagent_os.Fleet.Store.{Node, is_node}
use evoagent_os.Fleet.Orchestrator.Submit.{new_node}
use evoagent_os.Fleet.Orchestrator.Steps.{
  IsDone, DepsDone, NodeStep, ready, decide, lease, renew, stop, finish, stay, TableStep, edit,
  create, Steps, here, next,
}
use evoagent_os.Fleet.Orchestrator.Steps.Keys.{
  IsKeyed, IsKeyed-update, IsKeyed-snoc, NodeStep-SameSpec, NodeStep-revised, IsIndexed, find-edit,
  find-create, edit-IsIndexed, create-IsIndexed,
}

-- The columns of the lease: all set while the node is leased, and none otherwise.
abbrev pub LeaseColumns : NodeStatus → Node → Type 0
LeaseColumns NodeStatus.leased n =
    (w : String) × (t : String) × (e : ℕ) × (n.leased_by ≡ some w)
    × (n.lease_token ≡ some t)
    × (n.lease_expires ≡ some e)
LeaseColumns _ n = (n.leased_by ≡ none) × (n.lease_token ≡ none) × (n.lease_expires ≡ none)

-- Attempts stay within their limit, and below it where another attempt may come.
abbrev pub AttemptsFit : NodeStatus → Node → Type 0
AttemptsFit NodeStatus.blocked n = n.attempts < n.max_attempts
AttemptsFit NodeStatus.queued n = n.attempts < n.max_attempts
AttemptsFit NodeStatus.awaiting_approval n = n.attempts < n.max_attempts
AttemptsFit _ n = n.attempts ≤ n.max_attempts

-- A completed node kept to its budget of tokens and cost.
abbrev pub BudgetFits : NodeStatus → Node → Type 0
BudgetFits NodeStatus.completed n =
    (n.tokens_used ≤ n.budget.tokens) × (n.cost_usd ≤ n.budget.cost_usd)
BudgetFits _ n = Unit

pub record IsSound (n : Node) : Type 0 where
  pub columns : LeaseColumns n.status n
  pub attempts : AttemptsFit n.status n
  pub budget : BudgetFits n.status n

-- A node that is no longer blocked has all of its dependencies completed.
pub record IsConsistent (rows : List Node) : Type 0 where
  pub keyed : IsKeyed rows
  pub indexed : IsIndexed rows
  pub sound : (r : Node) → Memᴰ r rows → IsSound r
  pub after_deps : (r : Node) → Memᴰ r rows → r.status ≢ NodeStatus.blocked → DepsDone rows r

NodeStep-IsSound : {rows : List Node} (n n' : Node) → NodeStep rows n n' → IsSound n → IsSound n'
NodeStep-IsSound n n' (ready stamp b d e) s = ground arith
NodeStep-IsSound n n' (decide approved actor stamp a e) s = ground arith
NodeStep-IsSound n n' (lease worker token expires stamp q e) s =
    let room = subst (λ st. AttemptsFit st n) q s.attempts in
    subst IsSound (sym e) (record {
      columns = (worker, token, expires, refl, refl, refl);
      attempts = omega arith;
      budget = tt;
    })
NodeStep-IsSound n n' (renew expires stamp l e) s =
    let (w, t, _, by, token, _) = subst (λ st. LeaseColumns st n) l s.columns in
    let fits = subst (λ st. AttemptsFit st n) l s.attempts in
    subst IsSound (sym e) (record {
      columns = rw l (w, t, expires, by, token, refl);
      attempts = rw l fits;
      budget = rw l tt;
    })
NodeStep-IsSound n n' (stop retry error stamp l r e) s = ground arith
NodeStep-IsSound n n' (finish result stamp l x e) s = ground arith
NodeStep-IsSound n n' (stay e) s = subst IsSound (sym e) s

completed_final :
    {rows : List Node} (n n' : Node)
    → NodeStep rows n n'
    → n.status ≡ NodeStatus.completed
    → n'.status ≡ NodeStatus.completed
completed_final n n' (stay e) c = rw e c
completed_final n n' (ready stamp b d e) c = cc
completed_final n n' (decide approved actor stamp a e) c = cc
completed_final n n' (lease worker token expires stamp q e) c = cc
completed_final n n' (renew expires stamp l e) c = cc
completed_final n n' (stop retry error stamp l r e) c = cc
completed_final n n' (finish result stamp l x e) c = cc

deps_before :
    {rows : List Node} (n n' : Node)
    → NodeStep rows n n'
    → (n.status ≢ NodeStatus.blocked → DepsDone rows n)
    → n'.status ≢ NodeStatus.blocked
    → DepsDone rows n
deps_before n n' (ready stamp b d e) h u = d
deps_before n n' (decide approved actor stamp a e) h u = h (λ b. cc)
deps_before n n' (lease worker token expires stamp q e) h u = h (λ b. cc)
deps_before n n' (renew expires stamp l e) h u = h (λ b. cc)
deps_before n n' (stop retry error stamp l r e) h u = h (λ b. cc)
deps_before n n' (finish result stamp l x e) h u = h (λ b. cc)
deps_before n n' (stay e) h u = h (λ b. u (rw e b))

module _ {rows : List Node} (p : Node → Bool) (f : Node → Node)
    (steps : (q : Node) → Memᴰ q rows → p q ≡ true → NodeStep rows q (f q)) where
  edit-IsDone : (w d : String) → IsDone rows w d → IsDone (update_where p f rows) w d
  edit-IsDone w d (m, found, done) = (
    revised p f m,
    rw (find-edit p f steps w d, found),
    completed_final m _ (NodeStep-revised p f steps m (mem-find (is_node w d) rows found).0) done,
  )

  edit-IsConsistent : IsConsistent rows → IsConsistent (update_where p f rows)
  edit-IsConsistent c = record {
    keyed = IsKeyed-update p f rows (NodeStep-revised p f steps) c.keyed;
    indexed = edit-IsIndexed p f steps c.indexed;
    sound = λ r m.
        let (q, mq, e) = mem-update p f rows m in
        subst IsSound (sym e)
          (NodeStep-IsSound q _ (NodeStep-revised p f steps q mq) (c.sound q mq));
    after_deps = λ r m open_now d needed.
        let (q, mq, e) = mem-update p f rows m in
        let step = NodeStep-revised p f steps q mq in
        let same = NodeStep-SameSpec q _ step in
        let before = deps_before q _ step (c.after_deps q mq) (λ b. open_now (rw e b)) in
        let w_same : r.workflow_id ≡ q.workflow_id =
          ap (λ (x : Node). x.workflow_id) e ∙ same.workflow_id in
        let d_same : r.deps ≡ q.deps = ap (λ (x : Node). x.deps) e ∙ same.deps in
        rw w_same (edit-IsDone q.workflow_id d (before d (rw d_same at needed)));
  }

new_node-IsSound :
    (w : String) (stamp : ℕ) (spec : NodeSpec)
    → 0 < spec.max_attempts
    → IsSound (new_node w stamp spec)
unfolding new_node
new_node-IsSound w stamp spec h = ground arith

new_node-DepsDone :
    (rows : List Node) (w : String) (stamp : ℕ) (spec : NodeSpec)
    → (new_node w stamp spec).status ≢ NodeStatus.blocked
    → (d : String) → mem_text d spec.depends_on ≡ true
    → ⊥
unfolding new_node
new_node-DepsDone rows w stamp spec u d needed = ground (arith, u)

create-IsConsistent :
    (rows : List Node) (w : String) (stamp : ℕ) (spec : NodeSpec)
    → 0 < spec.max_attempts
    → find (is_node w spec.id) rows ≡ none
    → IsConsistent rows
    → IsConsistent (rows ++ new_node w stamp spec ∷ [])
unfolding new_node
create-IsConsistent rows w stamp spec pos absent c = record {
  keyed = IsKeyed-snoc (new_node w stamp spec) rows absent c.keyed;
  indexed = create-IsIndexed rows (new_node w stamp spec) absent c.indexed;
  sound = λ r m. elim (mem_snoc rows m) [
    | inl old ↦ c.sound r old
    | inr e ↦ subst IsSound (sym e) (new_node-IsSound w stamp spec pos)
  ];
  after_deps = λ r m open_now d needed. elim (mem_snoc rows m) [
    | inl old ↦
        let (q, found, done) = c.after_deps r old open_now d needed in
        (q, find-create rows (new_node w stamp spec) r.workflow_id d q found, done)
    | inr e ↦
        absurd (new_node-DepsDone rows w stamp spec (λ b. open_now (rw e b)) d (rw e at needed))
  ];
}

pub TableStep-IsConsistent : {a b : List Node} → TableStep a b → IsConsistent a → IsConsistent b
TableStep-IsConsistent (edit p f steps e) c =
    subst IsConsistent (sym e) (edit-IsConsistent p f steps c)
TableStep-IsConsistent {a} (create w stamp spec pos absent e) c =
    subst IsConsistent (sym e) (create-IsConsistent a w stamp spec pos absent c)

-- A completed node is completed ever after.
pub Steps-IsDone : {a b : List Node} → Steps a b → (w d : String) → IsDone a w d → IsDone b w d
Steps-IsDone here w d h = h
Steps-IsDone (next s (edit p f steps e)) w d h =
    subst (λ rows. IsDone rows w d) (sym e) (edit-IsDone p f steps w d (Steps-IsDone s w d h))
Steps-IsDone (next {rows₁ = rows} s (create wf stamp spec pos absent e)) w d h =
    let (m, found, done) = Steps-IsDone s w d h in
    subst (λ t. IsDone t w d) (sym e)
      (m, find-create rows (new_node wf stamp spec) w d m found, done)

-- The invariant holds after any writes.
pub Steps-IsConsistent : {a b : List Node} → Steps a b → IsConsistent a → IsConsistent b
Steps-IsConsistent here c = c
Steps-IsConsistent (next s t) c = TableStep-IsConsistent t (Steps-IsConsistent s c)

pub nil-IsConsistent : IsConsistent []
nil-IsConsistent = record {
  keyed = tt;
  indexed = λ r m. absurd (Memᴰ.not-nil m);
  sound = λ r m. absurd (Memᴰ.not-nil m);
  after_deps = λ r m. absurd (Memᴰ.not-nil m);
}
