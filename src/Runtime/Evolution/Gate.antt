-- ===== src/Runtime/Evolution/Gate.antt =====
-- evolution.py: a proposal changes nothing that is served, and has to pass before it is promoted.
use evoagent_os.Base.{ℕ, ◌+◌, ◌≡◌, refl, ap, ◌∙◌, String, false, [], ◌∷◌, ◌++◌, none, some, eq_self}
use evoagent_os.Base.Rows.{find, select, find-append}
use evoagent_os.Base.Action.{Result, ok, err}
use evoagent_os.Runtime.Store.{CandidateRow, PromptRow, Store, RunError, not_passed}
use evoagent_os.Runtime.Records.{new_id}
use evoagent_os.Runtime.Prompts.{active_prompt, newest, is_active, has_candidate_id, is_passed}
use evoagent_os.Runtime.Evolution.{promote}
use evoagent_os.Runtime.Evolution.Propose.{
  propose, propose_over, proposal, insert_candidate, candidate_prompt, evidence_of,
  negative_feedback, limit, newest_first, is_negative,
}

-- The candidate that is proposed in a database that serves `p`.
abbrev pub proposed_row : (ℕ → String) → PromptRow → Store → CandidateRow
proposed_row identifier p s = proposal (identifier s.drawn) p.version (
    candidate_prompt p.prompt
      (evidence_of (limit 20 (newest_first (select (is_negative s) s.feedback)))))

abbrev pub with_candidate : CandidateRow → Store → Store
with_candidate c s = record s { drawn = s.drawn + 1; candidates = s.candidates ++ c ∷ [] }

served_prompt :
    (p : PromptRow) (s : Store)
    → newest (select is_active s.prompts) ≡ some p
    → active_prompt s ≡ (ok (p.version, p.prompt), s)
unfolding active_prompt
served_prompt p s served = rw served

insert_candidate-free :
    (c : CandidateRow) (s : Store)
    → find (has_candidate_id c.candidate_id) s.candidates ≡ none
    → insert_candidate c s ≡ (ok tt, record s { candidates = s.candidates ++ c ∷ [] })
unfolding insert_candidate
insert_candidate-free c s free = rw (free, insert_candidate)

abbrev returning :
    CandidateRow → Result RunError Unit × Store → Result RunError CandidateRow × Store
returning c r = elim r.0 [ ok _ ↦ (ok c, r.1) | err e ↦ (err e, r.1) ]

propose_over-inserts :
    (identifier : ℕ → String) (p : PromptRow) (s : Store)
    → find (has_candidate_id (identifier s.drawn)) s.candidates ≡ none
    → propose_over identifier (p.version, p.prompt) s
      ≡ (ok (proposed_row identifier p s), with_candidate (proposed_row identifier p s) s)
unfolding propose_over negative_feedback new_id
propose_over-inserts identifier p s free =
    let c = proposed_row identifier p s in
    ap (λ (r : Result RunError Unit × Store). returning c r)
      (insert_candidate-free c (record s { drawn = s.drawn + 1 }) free)

propose-inserts :
    (identifier : ℕ → String) (p : PromptRow) (s : Store)
    → newest (select is_active s.prompts) ≡ some p
    → find (has_candidate_id (identifier s.drawn)) s.candidates ≡ none
    → propose identifier s
      ≡ (ok (proposed_row identifier p s), with_candidate (proposed_row identifier p s) s)
unfolding propose
propose-inserts identifier p s served free =
    ap
      (λ (r : Result RunError (ℕ × String) × Store). elim r.0 [
        | ok a ↦ propose_over identifier a r.1
        | err e ↦ (err e, r.1)
      ])
      (served_prompt p s served)
    ∙ propose_over-inserts identifier p s free

find_single : (c : CandidateRow) → find (has_candidate_id c.candidate_id) (c ∷ []) ≡ some c
unfolding find
find_single c = rw (eq_self c.candidate_id)

-- A candidate that has not passed is not promoted, and nothing changes.
promote-refused :
    (stamp : ℕ) (id : String) (c : CandidateRow) (s : Store)
    → find (has_candidate_id id) s.candidates ≡ some c
    → is_passed c ≡ false
    → promote stamp id s ≡ (err not_passed, s)
unfolding promote
promote-refused stamp id c s found unpassed = rw (found, unpassed)

-- Where a prompt is served and the identifier is free, `propose` returns a candidate of the served
-- version. The table has it, the prompts stay as they are, and `promote` refuses the candidate, since it
-- has not been evaluated.
pub propose_gated :
    (identifier : ℕ → String) (stamp : ℕ) (p : PromptRow) (s : Store)
    → newest (select is_active s.prompts) ≡ some p
    → find (has_candidate_id (identifier s.drawn)) s.candidates ≡ none
    → let s' = (propose identifier s).1 in
      ((propose identifier s).0 ≡ ok (proposed_row identifier p s))
      × (find (has_candidate_id (identifier s.drawn)) s'.candidates
          ≡ some (proposed_row identifier p s))
      × (s'.prompts ≡ s.prompts)
      × (promote stamp (identifier s.drawn) s' ≡ (err not_passed, s'))
propose_gated identifier stamp p s served free =
    let c = proposed_row identifier p s in
    let done = propose-inserts identifier p s served free in
    let found : find (has_candidate_id (identifier s.drawn)) (with_candidate c s).candidates
        ≡ some c =
      rw (find-append (has_candidate_id (identifier s.drawn)) s.candidates (c ∷ []), free)
        (find_single c) in
    rw done (
      refl,
      found,
      refl,
      promote-refused stamp (identifier s.drawn) c (with_candidate c s) found refl,
    )
