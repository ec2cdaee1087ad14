-- ===== src/Runtime/Tests.antt =====
-- A candidate that is promoted over the first prompt, and the theorem there.
use evoagent_os.Base.{ℕ, String, ◌≡◌, ◌==◌, refl, [], ◌∷◌, none, some}
use evoagent_os.Base.Rows.{find, select, update_where}
use evoagent_os.Base.Action.{ok, err}
use evoagent_os.Runtime.Store.{
  PromptState, PromptRow, CandidateStatus, CandidateRow, Store, not_passed,
}
use evoagent_os.Runtime.Evolution.{promote, install, insert_prompt, max_version}
use evoagent_os.Runtime.Prompts.{newest, is_active, has_candidate_id}
use evoagent_os.Runtime.Evolution.Propose.{propose}
use evoagent_os.Runtime.Evolution.Gate.{proposed_row, propose_gated}
use evoagent_os.Runtime.Evolution.Promotion.{IsPromoted, promote-IsPromoted}

abbrev first_prompt : PromptRow
first_prompt = record {
  version = 1;
  prompt = "Be careful.";
  state = PromptState.active;
  score = none;
  parent_version = none;
  created_at = 0;
}

abbrev candidate : CandidateRow
candidate = record {
  candidate_id = "candidate_1";
  parent_version = 1;
  prompt = "Be careful. Verify.";
  status = CandidateStatus.passed;
  candidate_score = some 900_000;
}

abbrev prompt_store : Store
prompt_store = record {
  sessions = [];
  messages = [];
  runs = [];
  events = [];
  memories = [];
  approvals = [];
  prompts = first_prompt ∷ [];
  feedback = [];
  candidates = candidate ∷ [];
  jobs = [];
  files = [];
  drawn = 0;
}

second_version : (promote 5 "candidate_1" prompt_store).0 ≡ ok 2
unfolding promote install insert_prompt max_version find update_where
second_version = refl

candidate_found :
    find (λ (c : CandidateRow). c.candidate_id == "candidate_1") prompt_store.candidates
    ≡ some candidate
unfolding find
candidate_found = refl

promote-IsPromoted_example :
    (v : ℕ) × ((promote 5 "candidate_1" prompt_store).0 ≡ ok v)
    × IsPromoted "candidate_1" candidate prompt_store v (promote 5 "candidate_1" prompt_store).1
promote-IsPromoted_example =
    promote-IsPromoted 5 "candidate_1" candidate prompt_store candidate_found refl

abbrev drawn_candidate : ℕ → String
drawn_candidate n = "candidate_2"

prompt_served : newest (select is_active prompt_store.prompts) ≡ some first_prompt
unfolding newest select
prompt_served = refl

candidate_free :
    find (has_candidate_id (drawn_candidate prompt_store.drawn)) prompt_store.candidates ≡ none
unfolding find
candidate_free = refl

propose_gated_example :
    let s' = (propose drawn_candidate prompt_store).1 in
    let c = proposed_row drawn_candidate first_prompt prompt_store in
    ((propose drawn_candidate prompt_store).0 ≡ ok c)
    × (find (has_candidate_id "candidate_2") s'.candidates ≡ some c)
    × (s'.prompts ≡ prompt_store.prompts)
    × (promote 5 "candidate_2" s' ≡ (err not_passed, s'))
propose_gated_example =
    propose_gated drawn_candidate 5 first_prompt prompt_store prompt_served candidate_free
