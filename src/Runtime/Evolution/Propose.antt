-- ===== src/Runtime/Evolution/Propose.antt =====
-- evolution.py, `EvolutionEngine.propose`, with the feedback that it reads (store.py).
use Prim.Native.String
use evoagent_os.Base.{
  ℕ, zero, suc, String, Bool, true, false, List, [], ◌∷◌, ◌++◌, Option, none, some, leb, ◌==◌,
  if◌then◌else◌,
}
use evoagent_os.Base.Rows.{find, select}
use evoagent_os.Base.Texts.{strip}
use evoagent_os.Base.Action.{ok, err, pure, gets, ◌>>=◌, ◌>>◌}
use evoagent_os.Runtime.Store.{
  minus_one, FeedbackRow, CandidateStatus, CandidateRow, Store, Runtime, integrity_error, is_run,
}
use evoagent_os.Runtime.Records.{new_id}
use evoagent_os.Runtime.Prompts.{active_prompt, has_candidate_id}

abbrev pub evolution_suffix : String
evolution_suffix =
    "\nUse explicit numbered steps for multi-step requests. Verify tool results before claiming success. Ask for confirmation before high-risk actions. State uncertainty and the next safe diagnostic when evidence is incomplete."

-- Rows of negative feedback whose run exists.
abbrev pub is_negative : Store → FeedbackRow → Bool
is_negative s f = elim f.rating [ minus_one ↦ is_some (find (is_run f.run_id) s.runs) | _ ↦ false ]
  where
    is_some : {A : Type 0} → Option A → Bool
    is_some none = false
    is_some (some a) = true

-- ORDER BY created_at DESC; rows of one time stay in the order of the table.
unfoldable pub insert_newest : FeedbackRow → List FeedbackRow → List FeedbackRow
insert_newest f [] = f ∷ []
insert_newest f (g ∷ more) =
    let rest = insert_newest f more in
    if leb g.created_at f.created_at then f ∷ g ∷ more else g ∷ rest

unfoldable pub newest_first : List FeedbackRow → List FeedbackRow
newest_first [] = []
newest_first (f ∷ more) = insert_newest f (newest_first more)

abbrev pub limit : ℕ → List FeedbackRow → List FeedbackRow
limit zero rows = []
limit (suc n) [] = []
limit (suc n) (f ∷ more) = f ∷ limit n more

-- `negative_feedback`.
unfoldable pub negative_feedback : ℕ → Runtime (List FeedbackRow)
negative_feedback n = gets (λ s. limit n (newest_first (select (is_negative s) s.feedback)))

-- `needle in text`.
abbrev pub contains : String → String → Bool
contains text needle = leb (String.find text needle) (String.len text)

-- `" ".join(...)` of the comments that are not empty.
unfoldable pub evidence_of : List FeedbackRow → String
evidence_of [] = ""
evidence_of (f ∷ more) =
    let rest = evidence_of more in
    if f.comment == ""
    then rest
    else if rest == ""
    then f.comment
    else String.◌++◌ f.comment (String.◌++◌ " " rest)

-- `text[:n]`.
unfoldable pub first_chars : ℕ → String → String
first_chars zero text = ""
first_chars (suc n) String.[] = ""
first_chars (suc n) (String.◌∷◌ c text) = String.◌∷◌ c (first_chars n text)

abbrev pub with_suffix : String → String
with_suffix prompt =
    if contains prompt (strip evolution_suffix) then prompt else String.◌++◌ prompt evolution_suffix

unfoldable pub candidate_prompt : String → String → String
candidate_prompt prompt evidence =
    if evidence == ""
    then with_suffix prompt
    else String.◌++◌ (with_suffix prompt)
        (String.◌++◌ "\nObserved operator feedback themes: " (first_chars 1_000 evidence))

abbrev pub proposal : String → ℕ → String → CandidateRow
proposal candidate_id version prompt = record {
  candidate_id = candidate_id;
  parent_version = version;
  prompt = prompt;
  status = CandidateStatus.proposed;
  candidate_score = none;
}

-- INSERT INTO evolution_candidates, under its primary key.
unfoldable pub insert_candidate : CandidateRow → Runtime Unit
insert_candidate c s = elim (find (has_candidate_id c.candidate_id) s.candidates) [
  | some _ ↦ (err integrity_error, s)
  | none ↦ (ok tt, record s { candidates = s.candidates ++ c ∷ [] })
]

-- `propose` once the served prompt is read.
unfoldable pub propose_over : (ℕ → String) → ℕ × String → Runtime CandidateRow
propose_over identifier served = do
  feedback ← negative_feedback 20
  candidate_id ← new_id identifier
  let c = proposal candidate_id served.0 (candidate_prompt served.1 (evidence_of feedback))
  insert_candidate c
  pure c

-- `propose`. The row is the view that it returns.
unfoldable pub propose : (ℕ → String) → Runtime CandidateRow
propose identifier = active_prompt >>= propose_over identifier
