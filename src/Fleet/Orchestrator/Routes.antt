-- ===== src/Fleet/Orchestrator/Routes.antt =====
-- orchestrator.py, `_record_route`: the bounds of a pool's metrics.
use evoagent_os.Base.{ℕ, ◌+◌, ◌*◌, ◌≤◌, ◌<◌, arith}
use evoagent_os.Fleet.Models.{one}
use evoagent_os.Fleet.Store.{RouteRow}
use evoagent_os.Fleet.Orchestrator.Advance.{score_route}

-- Successes and quality are bounded by the runs, and the score is a fraction of at most 1.
pub record IsScored (r : RouteRow) : Type 0 where
  pub successes : r.successes ≤ r.runs
  pub quality : r.quality_sum ≤ r.runs * one
  pub positive : 0 < r.score_den
  pub score : r.score_num ≤ r.score_den

times_mono : (a b c : ℕ) → a ≤ b → a * c ≤ b * c
times_mono a b c h = grind arith

success_part : (s r : ℕ) → s + 1 ≤ r + 2 → 7 * (s + 1) * (r + 1) * one ≤ 7 * (r + 2) * (r + 1) * one
success_part s r h = omega (arith, times_mono (s + 1) (r + 2) (r + 1) h)

quality_part : (q r : ℕ) → q ≤ (r + 1) * one → 3 * q * (r + 2) ≤ 3 * ((r + 1) * one) * (r + 2)
quality_part q r h = omega (arith, times_mono q ((r + 1) * one) (r + 2) h)

positive_part : (r : ℕ) → 0 < 10 * (r + 2) * (r + 1) * one
positive_part r = omega arith

-- Recording a run, with a success of 0 or 1 and a quality of at most 1, keeps the score in range.
pub score_route-IsScored :
    (stamp success quality cost latency : ℕ) (r : RouteRow)
    → success ≤ 1
    → quality ≤ one
    → IsScored r
    → IsScored (score_route stamp success quality cost latency r)
unfolding score_route
score_route-IsScored stamp success quality cost latency r hs hq h = record {
  successes = omega (arith, h.successes);
  quality = omega (arith, h.quality);
  positive = positive_part r.runs;
  score = omega (
    arith,
    success_part (r.successes + success) r.runs (omega (arith, h.successes)),
    quality_part (r.quality_sum + quality) r.runs (omega (arith, h.quality)),
  );
}
