-- ===== src/Runtime/Prompts.antt =====
-- services/runtime/src/evoagent_runtime/store.py: the versions of the prompt and their candidates.
use evoagent_os.Base.{
  ℕ, String, Bool, true, false, List, [], ◌∷◌, Option, none, some, ltb, nat_eq, ◌==◌, if◌then◌else◌,
}
use evoagent_os.Base.Rows.{select, find}
use evoagent_os.Runtime.Store.{
  Runtime, active, retired, PromptRow, passed, CandidateRow, no_active_prompt, unknown_version,
}
use evoagent_os.Base.Action.{pure, gets, or_raise, ◌>>=◌}

abbrev pub is_active : PromptRow → Bool
is_active p = elim p.state [ active ↦ true | retired ↦ false ]

abbrev pub is_version : ℕ → PromptRow → Bool
is_version version p = nat_eq p.version version

abbrev pub has_candidate_id : String → CandidateRow → Bool
has_candidate_id candidate_id c = c.candidate_id == candidate_id

abbrev pub is_passed : CandidateRow → Bool
is_passed c = elim c.status [ passed ↦ true | _ ↦ false ]

-- ORDER BY version DESC LIMIT 1
unfoldable pub newest : List PromptRow → Option PromptRow
newest [] = none
newest (p ∷ ps) =
    let later = newest ps in
    elim later [ none ↦ some p | some q ↦ if ltb p.version q.version then some q else some p ]

unfoldable pub active_prompt : Runtime (ℕ × String)
active_prompt = do
  row ← gets (λ s. newest (select is_active s.prompts))
  p ← or_raise no_active_prompt row
  pure (p.version, p.prompt)

unfoldable pub prompt : ℕ → Runtime String
prompt version = do
  row ← gets (λ s. find (is_version version) s.prompts)
  p ← or_raise unknown_version row
  pure p.prompt
