-- ===== src/Runtime/Evolution.antt =====
-- services/runtime/src/evoagent_runtime/evolution.py: `EvolutionEngine.promote`.
pub mod Promotion
pub mod Propose
pub mod Gate
use evoagent_os.Base.{
  ℕ, ◌+◌, String, Bool, true, false, not, List, [], ◌∷◌, ◌++◌, Option, none, some, ltb,
  if◌then◌else◌,
}
use evoagent_os.Base.Rows.{update_where, find}
use evoagent_os.Base.Action.{ok, err, pure, gets, modify, or_raise, raise_if, ◌>>=◌, ◌>>◌}
use evoagent_os.Runtime.Store.{
  PromptState, PromptRow, CandidateStatus, CandidateRow, Runtime, not_passed, integrity_error,
}
use evoagent_os.Runtime.Prompts.{is_active, is_version, has_candidate_id, is_passed}

-- COALESCE(MAX(version),0)
unfoldable pub max_version : List PromptRow → ℕ
max_version [] = 0
max_version (p ∷ ps) = let rest = max_version ps in if ltb rest p.version then p.version else rest

abbrev pub retire : PromptRow → PromptRow
retire p = record p { state = PromptState.retired }

-- INSERT INTO prompts, under its primary key.
unfoldable pub insert_prompt : PromptRow → Runtime Unit
insert_prompt p s = elim (find (is_version p.version) s.prompts) [
  | some _ ↦ (err integrity_error, s)
  | none ↦ (ok tt, record s { prompts = s.prompts ++ p ∷ [] })
]

abbrev pub promoted_row : ℕ → ℕ → CandidateRow → PromptRow
promoted_row version stamp c = record {
  version = version;
  prompt = c.prompt;
  state = PromptState.active;
  score = c.candidate_score;
  parent_version = some c.parent_version;
  created_at = stamp;
}

abbrev pub mark_promoted : CandidateRow → CandidateRow
mark_promoted c = record c { status = CandidateStatus.promoted }

-- `promote` once its candidate is read and its version is drawn.
unfoldable pub install : ℕ → ℕ → String → CandidateRow → Runtime ℕ
install version stamp candidate_id c = do
  modify (λ s. record s { prompts = update_where is_active retire s.prompts })
  insert_prompt (promoted_row version stamp c)
  modify (λ s. record s {
    candidates = update_where (has_candidate_id candidate_id) mark_promoted s.candidates;
  })
  pure version

unfoldable pub promote : ℕ → String → Runtime ℕ
promote stamp candidate_id = do
  row ← gets (λ s. find (has_candidate_id candidate_id) s.candidates)
  c ← or_raise not_passed row
  raise_if (not (is_passed c)) not_passed
  version ← gets (λ s. max_version s.prompts + 1)
  install version stamp candidate_id c
