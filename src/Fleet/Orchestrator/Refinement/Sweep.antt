-- ===== src/Fleet/Orchestrator/Refinement/Sweep.antt =====
-- orchestrator.py: the writes of `sweep_expired` as steps.
use mathlib.Core.List.{Memᴰ}
use evoagent_os.Base.{ℕ, ◌≡◌, refl, arith, inl, true, List, [], ◌∷◌, some}
use evoagent_os.Base.Rows.{select, mem-select}
use evoagent_os.Fleet.Store.{Store, Node, event}
use evoagent_os.Fleet.Orchestrator.{Clock, update_node}
use evoagent_os.Fleet.Orchestrator.Claim.{
  is_expired, may_retry, release, after_attempt, sweep_row, sweep_rows, sweep_expired,
}
use evoagent_os.Fleet.Orchestrator.Steps.{NodeStep, stop, Steps, here, one_step, Steps-trans}
use evoagent_os.Fleet.Orchestrator.Steps.Keys.{same_row, NodeStep-SameSpec, IsIndexed}
use evoagent_os.Fleet.Orchestrator.Steps.Invariant.{IsConsistent, TableStep-IsConsistent}
use evoagent_os.Fleet.Orchestrator.Refinement.Loops.{Written, write_step, write_Written}

-- The write of `sweep_expired` for a row that it has read.
abbrev swept : ℕ → Node → Node → Node
swept stamp r = release (after_attempt (may_retry r)) (some "Lease expired") stamp

swept_step :
    {rows : List Node} (time stamp : ℕ) (r : Node)
    → is_expired time r ≡ true
    → NodeStep rows r (swept stamp r r)
swept_step time stamp r h =
    stop (may_retry r) (some "Lease expired") stamp (ground arith) (λ e. e) refl

module _ (time stamp : ℕ) {snap : List Node} (was : IsIndexed snap) where
  sweep_rows-Steps :
      (todo : List Node) (s : Store)
      → ((r : Node) → Memᴰ r todo → Memᴰ r snap × (is_expired time r ≡ true))
      → IsConsistent s.nodes
      → ((r : Node) → Memᴰ r todo → Written (swept stamp) s.nodes r)
      → Steps s.nodes (sweep_rows stamp todo s).nodes
  unfolding sweep_rows sweep_row update_node event
  sweep_rows-Steps [] s read c written = here
  sweep_rows-Steps (r ∷ todo) s read c written =
      let (in_snap, expired) = read r (Memᴰ.head refl) in
      let step = swept_step {rows = s.nodes} time stamp r expired in
      let mine = written r (Memᴰ.head refl) in
      let first = write_step (swept stamp) (λ x. refl) r c.indexed step mine in
      Steps-trans (one_step first) (
        sweep_rows-Steps todo _ (λ q m. read q (Memᴰ.tail m)) (TableStep-IsConsistent first c)
          λ q m.
            write_Written (swept stamp) (λ x. refl) r c.indexed step q
              (λ h. same_row q r was (read q (Memᴰ.tail m)).0 in_snap h)
              (NodeStep-SameSpec r (swept stamp r r) step)
              (NodeStep-SameSpec {rows = s.nodes} q _
                (swept_step time stamp q (read q (Memᴰ.tail m)).1))
              mine (written q (Memᴰ.tail m)))

pub sweep_expired-Steps :
    (clock : Clock) (s : Store)
    → IsConsistent s.nodes
    → Steps s.nodes (sweep_expired clock s).1.nodes
unfolding sweep_expired
sweep_expired-Steps clock s c =
    sweep_rows-Steps clock.time clock.stamp c.indexed (select (is_expired clock.time) s.nodes) s
      (λ r m. mem-select (is_expired clock.time) s.nodes m) c
      λ r m. inl (c.indexed r (mem-select (is_expired clock.time) s.nodes m).0)
