-- ===== src/Runtime/Store.antt =====
-- services/runtime/src/evoagent_runtime/store.py and models.py: the tables of the database, one record
-- for each kind of row. A JSON column is the value whose text it holds; `drawn` counts the
-- identifiers that were drawn so far.
use evoagent_os.Base.{ℕ, String, Bool, true, false, List, Option, ◌==◌}
use evoagent_os.Base.Action.{Action}

pub data RiskLevel : Type 0 where
  low medium high : RiskLevel

pub data RunStatus : Type 0 where
  accepted running awaiting_approval completed failed : RunStatus

pub data Role : Type 0 where
  system user assistant tool : Role

-- What a tool returns, or a refusal of its call.
pub data ToolResult : Type 0 where
  denied_by_policy : String → ToolResult
  denied_by_operator : String → ToolResult
  memory_stored : String → ToolResult
  memory_matches : List String → ToolResult
  file_read : String → String → ToolResult
  file_written : String → ℕ → ToolResult
  http_answer : ℕ → String → String → Bool → ToolResult
  other : String → ToolResult

-- The exceptions that the service raises, and those of a provider or a tool by their text.
pub data RunError : Type 0 where
  no_active_prompt unknown_version not_passed candidate_not_found integrity_error : RunError
  run_not_found approval_not_found already_decided : RunError
  interval_too_short text_required path_escapes no_file file_too_large no_directory : RunError
  not_in_subpath undecodable : RunError
  not_https host_not_allowed internal_address : RunError
  duplicate_tool unknown_tool raised : String → RunError
  step_budget : ℕ → RunError

pub record SessionRow : Type 0 where
  pub session_id : String
  pub channel : String
  pub peer_id : String
  pub created_at : ℕ
  pub updated_at : ℕ

pub record MessageRow : Type 0 where
  pub session_id : String
  pub role : Role
  pub content : String
  pub name : Option String
  pub tool_call_id : Option String
  pub created_at : ℕ

pub record Usage : Type 0 where
  pub input_tokens : ℕ
  pub output_tokens : ℕ

pub record RunRow : Type 0 where
  pub run_id : String
  pub session_id : String
  pub status : RunStatus
  pub input_text : String
  pub output_text : Option String
  pub error : Option RunError
  pub prompt_version : ℕ
  pub usage : Option Usage
  pub created_at : ℕ
  pub updated_at : ℕ

pub data DecisionAction : Type 0 where
  deny approve execute : DecisionAction

-- The kind of an event with its payload.
pub data EventKind : Type 0 where
  run_accepted : String → EventKind
  run_started : EventKind
  run_completed : Usage → EventKind
  run_failed : RunError → EventKind
  model_completed : String → ℕ → ℕ → EventKind
  tool_requested : String → RiskLevel → DecisionAction → EventKind
  tool_completed : String → ToolResult → EventKind
  approval_requested : String → String → String → EventKind
  approval_decided : String → Bool → String → EventKind

pub record Event : Type 0 where
  pub kind : EventKind
  pub run_id : String
  pub session_id : String
  pub created_at : ℕ

pub record MemoryRow : Type 0 where
  pub memory_id : String
  pub session_id : String
  pub text : String
  pub created_at : ℕ

pub data ApprovalStatus : Type 0 where
  pending approved denied : ApprovalStatus

pub record ApprovalRow : Type 0 where
  pub approval_id : String
  pub run_id : String
  pub session_id : String
  pub tool_name : String
  pub arguments : List (String × String)
  pub reason : String
  pub status : ApprovalStatus
  pub actor : Option String
  pub created_at : ℕ
  pub decided_at : Option ℕ

pub data PromptState : Type 0 where
  active retired : PromptState

pub record PromptRow : Type 0 where
  pub version : ℕ
  pub prompt : String
  pub state : PromptState
  pub score : Option ℕ
  pub parent_version : Option ℕ
  pub created_at : ℕ

-- A rating of -1, 0 or 1.
pub data Rating : Type 0 where
  minus_one nought plus_one : Rating

pub record FeedbackRow : Type 0 where
  pub feedback_id : String
  pub run_id : String
  pub rating : Rating
  pub comment : String
  pub created_at : ℕ

pub data CandidateStatus : Type 0 where
  proposed passed rejected promoted : CandidateStatus

pub record CandidateRow : Type 0 where
  pub candidate_id : String
  pub parent_version : ℕ
  pub prompt : String
  pub status : CandidateStatus
  pub candidate_score : Option ℕ

pub record JobRow : Type 0 where
  pub job_id : String
  pub name : String
  pub interval_seconds : ℕ
  pub message : String
  pub enabled : Bool
  pub next_run_at : ℕ
  pub created_at : ℕ

-- The bytes of a file: the UTF-8 of a text, or a number of bytes that are not UTF-8.
pub data FileContent : Type 0 where
  utf8 : String → FileContent
  binary : ℕ → FileContent

-- The database, with the files of the workspace.
pub record Store : Type 0 where
  pub sessions : List SessionRow
  pub messages : List MessageRow
  pub runs : List RunRow
  pub events : List Event
  pub memories : List MemoryRow
  pub approvals : List ApprovalRow
  pub prompts : List PromptRow
  pub feedback : List FeedbackRow
  pub candidates : List CandidateRow
  pub jobs : List JobRow
  pub files : List (List String × FileContent)
  pub drawn : ℕ

abbrev pub Runtime : Type 0 → Type 0
Runtime A = Action Store RunError A

abbrev pub is_session : String → SessionRow → Bool
is_session session_id r = r.session_id == session_id

abbrev pub is_run : String → RunRow → Bool
is_run run_id r = r.run_id == run_id

abbrev pub is_approval : String → ApprovalRow → Bool
is_approval approval_id a = a.approval_id == approval_id

abbrev pub is_pending : ApprovalRow → Bool
is_pending a = elim a.status [ pending ↦ true | _ ↦ false ]
