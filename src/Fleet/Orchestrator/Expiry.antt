-- ===== src/Fleet/Orchestrator/Expiry.antt =====
-- orchestrator.py, `sweep_expired`: the loop against one bulk update.
use mathlib.Core.List.{Memᴰ}
use mathlib.Core.List.Memᴰ
use evoagent_os.Base.{
  ℕ, String, ◌≡◌, ◌≢◌, refl, sym, ap, ◌∙◌, map, subst, inl, inr, Bool, true, false, List, [], ◌∷◌,
  Option, some, Bool-cases,
}
use evoagent_os.Base.Rows.{
  select, update_where, revised, mem-update, mem-select, mem-select_of, count, map_same, map-update,
  map_eq_update, length-select,
}
use evoagent_os.Base.Action.{ok}
use evoagent_os.Fleet.Store.{Store, Node, is_node, event}
use evoagent_os.Fleet.Orchestrator.{Clock, update_node}
use evoagent_os.Fleet.Orchestrator.Claim.{
  is_expired, may_retry, release, after_attempt, sweep_row, sweep_rows, sweep_expired,
}
use evoagent_os.Fleet.Orchestrator.Steps.Keys.{is_node_self, IsIndexed, same_row}
use evoagent_os.Fleet.Orchestrator.Steps.Invariant.{IsConsistent}

module _ (time stamp : ℕ) where
  released_not_expired :
      (retry : Bool) (error : Option String) (n : Node)
      → is_expired time (release (after_attempt retry) error stamp n) ≡ false
  released_not_expired true error n = refl
  released_not_expired false error n = refl

  -- A row that is expired after one write was expired before it, and is not the one written.
  sweep_row-expired :
      (r : Node) (s : Store) (q : Node)
      → Memᴰ q (sweep_row stamp r s).nodes
      → is_expired time q ≡ true
      → Memᴰ q s.nodes × (q ≢ r)
  unfolding sweep_row update_node event
  sweep_row-expired r s q m expired =
      let (p, mp, e) = mem-update (is_node r.workflow_id r.node_id) _ s.nodes m in
      elim (Bool-cases (is_node r.workflow_id r.node_id p)) [
        | inl hit ↦ cc (
          subst (λ x. is_expired time x ≡ true) e expired,
          hit,
          released_not_expired (may_retry r) (some "Lease expired") p,
        )
        | inr miss ↦
            let same : q ≡ p = rw miss at e in (rw same mp, λ is. cc (same, is, is_node_self r))
      ]

  sweep_rows-expired :
      (todo : List Node) (s : Store)
      → ((q : Node) → Memᴰ q s.nodes → is_expired time q ≡ true → Memᴰ q todo)
      → (q : Node) → Memᴰ q (sweep_rows stamp todo s).nodes
      → is_expired time q ≡ false
  unfolding sweep_rows
  sweep_rows-expired [] s covers q m = elim (Bool-cases (is_expired time q)) [
    | inl expired ↦ absurd (Memᴰ.not-nil (covers q m expired))
    | inr e ↦ e
  ]
  sweep_rows-expired (r ∷ todo) s covers q m =
      sweep_rows-expired todo (sweep_row stamp r s)
        (λ p mp expired.
          let (old, other) = sweep_row-expired r s p mp expired in
          elim (Memᴰ.cases_cons (covers p old expired)) [
            | inl same ↦ absurd (other same)
            | inr later ↦ later
          ])
        q m

-- After a sweep no node is leased with an expiry before the time that the sweep has read.
pub sweep_expired-clears :
    (clock : Clock) (s : Store) (q : Node)
    → Memᴰ q (sweep_expired clock s).1.nodes
    → is_expired clock.time q ≡ false
unfolding sweep_expired
sweep_expired-clears clock s =
    sweep_rows-expired clock.time clock.stamp (select (is_expired clock.time) s.nodes) s
      λ q m h. mem-select_of (is_expired clock.time) s.nodes m h

sweep_rows-workflows :
    (stamp : ℕ) (todo : List Node) (s : Store) → (sweep_rows stamp todo s).workflows ≡ s.workflows
unfolding sweep_rows sweep_row update_node event
sweep_rows-workflows stamp [] s = refl
sweep_rows-workflows stamp (r ∷ todo) s = sweep_rows-workflows stamp todo (sweep_row stamp r s)

-- The write of a sweep to an expired row.
abbrev pub expire : ℕ → Node → Node
expire stamp q = release (after_attempt (may_retry q)) (some "Lease expired") stamp q

module _ (stamp : ℕ) where
  -- What the writes for the rows of `todo` make of one row.
  writes : List Node → Node → Node
  writes [] q = q
  writes (r ∷ todo) q = writes todo (
      revised (is_node r.workflow_id r.node_id)
        (release (after_attempt (may_retry r)) (some "Lease expired") stamp) q)

  sweep_rows-map :
      (todo : List Node) (s : Store) → (sweep_rows stamp todo s).nodes ≡ map (writes todo) s.nodes
  unfolding sweep_rows sweep_row update_node event writes
  sweep_rows-map [] s = sym (map_same s.nodes)
  sweep_rows-map (r ∷ todo) s =
      sweep_rows-map todo (sweep_row stamp r s) ∙ map-update _ _ (writes todo) s.nodes

  -- Rows of `todo` under the key of `q` are `q` itself.
  abbrev OnlyMatch : List Node → Node → Type 0
  OnlyMatch todo q = (r : Node) → Memᴰ r todo → is_node r.workflow_id r.node_id q ≡ true → r ≡ q

  writes_written :
      (todo : List Node) (q : Node)
      → OnlyMatch todo q
      → writes todo (expire stamp q) ≡ expire stamp q
  unfolding writes
  writes_written [] q only = refl
  writes_written (r ∷ todo) q only = elim (Bool-cases (is_node r.workflow_id r.node_id q)) [
    | inl hit ↦
        rw (hit, only r (Memᴰ.head refl) hit) (writes_written todo q (λ x m. only x (Memᴰ.tail m)))
    | inr miss ↦ rw miss (writes_written todo q (λ x m. only x (Memᴰ.tail m)))
  ]

  writes_hit :
      (todo : List Node) (q : Node)
      → OnlyMatch todo q
      → Memᴰ q todo
      → writes todo q ≡ expire stamp q
  unfolding writes
  writes_hit [] q only m = absurd (Memᴰ.not-nil m)
  writes_hit (r ∷ todo) q only m =
      let later = λ (x : Node) (mx : Memᴰ x todo). only x (Memᴰ.tail mx) in
      elim (Bool-cases (is_node r.workflow_id r.node_id q)) [
        | inl hit ↦ rw (hit, only r (Memᴰ.head refl) hit) (writes_written todo q later)
        | inr miss ↦ elim (Memᴰ.cases_cons m) [
          | inl e ↦
              cc (subst (λ x. is_node r.workflow_id r.node_id x ≡ false) e miss, is_node_self r)
          | inr there ↦ rw miss (writes_hit todo q later there)
        ]
      ]

  writes_miss : (todo : List Node) (q : Node) → OnlyMatch todo q → ¬ Memᴰ q todo → writes todo q ≡ q
  unfolding writes
  writes_miss [] q only absent = refl
  writes_miss (r ∷ todo) q only absent = elim (Bool-cases (is_node r.workflow_id r.node_id q)) [
    | inl hit ↦ absurd (absent (Memᴰ.head (sym (only r (Memᴰ.head refl) hit))))
    | inr miss ↦
        rw miss (writes_miss todo q (λ x m. only x (Memᴰ.tail m)) (λ m. absent (Memᴰ.tail m)))
  ]

  writes_expired :
      (time : ℕ) (rows : List Node) (q : Node)
      → IsIndexed rows
      → Memᴰ q rows
      → writes (select (is_expired time) rows) q ≡ revised (is_expired time) (expire stamp) q
  writes_expired time rows q indexed m = elim (Bool-cases (is_expired time q)) [
    | inl e ↦ rw e (writes_hit _ q only (mem-select_of (is_expired time) rows m e))
    | inr e ↦ rw e (writes_miss _ q only (λ ms. cc (e, (mem-select (is_expired time) rows ms).1)))
  ]
    where
      only : OnlyMatch (select (is_expired time) rows) q
      only r mr hit = sym (same_row q r indexed m (mem-select (is_expired time) rows mr).0 hit)

-- On a consistent table a sweep is one bulk update: every row that is leased with an expiry before
-- the time read, and no other, gives up its lease, to be queued again while attempts are left and to
-- fail otherwise. It returns their number. The table of workflows is left as it was, also where a
-- node has failed.
pub sweep_expired-bulk :
    (clock : Clock) (s : Store)
    → IsConsistent s.nodes
    → ((sweep_expired clock s).1.nodes
        ≡ update_where (is_expired clock.time) (expire clock.stamp) s.nodes)
      × ((sweep_expired clock s).1.workflows ≡ s.workflows)
      × ((sweep_expired clock s).0 ≡ ok (count (is_expired clock.time) s.nodes))
unfolding sweep_expired
sweep_expired-bulk clock s c = (
  sweep_rows-map clock.stamp (select (is_expired clock.time) s.nodes) s
      ∙ map_eq_update (is_expired clock.time) (expire clock.stamp) _ s.nodes
          (λ q m. writes_expired clock.stamp clock.time s.nodes q c.indexed m),
  sweep_rows-workflows clock.stamp (select (is_expired clock.time) s.nodes) s,
  ap ok (length-select (is_expired clock.time) s.nodes),
)
