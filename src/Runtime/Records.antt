-- ===== src/Runtime/Records.antt =====
-- store.py: the methods of `Store` over sessions, messages, runs, events, memories, feedback and
-- approvals. `now` is the reading of the clock, and `Host` what the service takes from outside.
use evoagent_os.Base.{
  ℕ, zero, suc, ◌+◌, String, Bool, true, false, ◌&&◌, List, [], ◌∷◌, ◌++◌, Option, none, some, ◌==◌,
  if◌then◌else◌,
}
use evoagent_os.Base.Rows.{select, update_where, find}
use evoagent_os.Base.Action.{ok, err, pure, gets, modify, ◌>>=◌, ◌>>◌}
use evoagent_os.Runtime.Store.{
  RunStatus, accepted, Role, integrity_error, MessageRow, RunRow, EventKind, MemoryRow, pending,
  approved, denied, ApprovalRow, Rating, FeedbackRow, Runtime, is_session, is_run, is_approval,
  is_pending,
}

-- The messages of a request to a model, and its answer.
pub record ChatMessage : Type 0 where
  pub role : Role
  pub content : String
  pub name : Option String
  pub tool_call_id : Option String

pub record ToolCall : Type 0 where
  pub id : String
  pub name : String
  pub arguments : List (String × String)

pub record ModelTurn : Type 0 where
  pub text : String
  pub tool_calls : List ToolCall
  pub input_tokens : ℕ
  pub output_tokens : ℕ
  pub model : String

-- `tool.wire_schema()`.
pub record ToolSchema : Type 0 where
  pub name : String
  pub description : String
  pub parameters : String

-- `new_id(prefix)`: the identifiers come in a sequence.
unfoldable pub new_id : (ℕ → String) → Runtime String
new_id identifier s = (ok (identifier s.drawn), record s { drawn = s.drawn + 1 })

-- INSERT ... ON CONFLICT(session_id) DO UPDATE SET updated_at
unfoldable pub ensure_session : ℕ → String → String → String → Runtime Unit
ensure_session now session_id channel peer_id = modify λ s. record s {
  sessions = elim (find (is_session session_id) s.sessions) [
    | some _ ↦ update_where (is_session session_id) (λ r. record r { updated_at = now }) s.sessions
    | none ↦
        s.sessions
        ++ record {
          session_id = session_id;
          channel = channel;
          peer_id = peer_id;
          created_at = now;
          updated_at = now;
        }
          ∷ []
  ];
}

unfoldable pub add_message :
    ℕ → String → Role → String → Option String → Option String → Runtime Unit
add_message now session_id role content name tool_call_id = modify λ s. record s {
  messages =
      s.messages
      ++ record {
        session_id = session_id;
        role = role;
        content = content;
        name = name;
        tool_call_id = tool_call_id;
        created_at = now;
      }
        ∷ [];
}

-- Whether there are `n` rows or more.
abbrev pub reaches : ℕ → List MessageRow → Bool
reaches zero ms = true
reaches (suc n) [] = false
reaches (suc n) (_ ∷ ms) = reaches n ms

-- The last `n` rows.
unfoldable pub last : ℕ → List MessageRow → List MessageRow
last n [] = []
last n (m ∷ ms) = let rest = last n ms in if reaches n ms then rest else m ∷ ms

-- ORDER BY id DESC LIMIT ?, reversed: the rows stand in the order of their ids.
unfoldable pub history : String → ℕ → Runtime (List MessageRow)
history session_id limit =
    gets (λ s. last limit (select (λ m. m.session_id == session_id) s.messages))

abbrev pub new_run : ℕ → String → String → String → ℕ → RunRow
new_run now run_id session_id input_text prompt_version = record {
  run_id = run_id;
  session_id = session_id;
  status = accepted;
  input_text = input_text;
  output_text = none;
  error = none;
  prompt_version = prompt_version;
  usage = none;
  created_at = now;
  updated_at = now;
}

-- INSERT INTO runs, under its primary key.
unfoldable pub insert_run : RunRow → Runtime Unit
insert_run r s = elim (find (is_run r.run_id) s.runs) [
  | some _ ↦ (err integrity_error, s)
  | none ↦ (ok tt, record s { runs = s.runs ++ r ∷ [] })
]

unfoldable pub create_run : (ℕ → String) → ℕ → String → String → ℕ → Runtime String
create_run identifier now session_id input_text prompt_version = do
  run_id ← new_id identifier
  insert_run (new_run now run_id session_id input_text prompt_version)
  pure run_id

-- `update_run`: the status, and the columns that `change` sets.
unfoldable pub update_run : ℕ → String → RunStatus → (RunRow → RunRow) → Runtime Unit
update_run now run_id status change = modify λ s. record s {
  runs =
      update_where (is_run run_id) (λ r. record (change r) { status = status; updated_at = now })
        s.runs;
}

unfoldable pub get_run : String → Runtime (Option RunRow)
get_run run_id = gets (λ s. find (is_run run_id) s.runs)

unfoldable pub event : ℕ → EventKind → String → String → Runtime Unit
event now kind run_id session_id = modify λ s. record s {
  events =
      s.events
      ++ record { kind = kind; run_id = run_id; session_id = session_id; created_at = now } ∷ [];
}

-- INSERT INTO memories, whose identifiers are unique.
unfoldable pub insert_memory : MemoryRow → Runtime Unit
insert_memory m s = elim (find (λ r. r.memory_id == m.memory_id) s.memories) [
  | some _ ↦ (err integrity_error, s)
  | none ↦ (ok tt, record s { memories = s.memories ++ m ∷ [] })
]

unfoldable pub remember : (ℕ → String) → ℕ → String → String → Runtime String
remember identifier now session_id text = do
  memory_id ← new_id identifier
  insert_memory
      (record { memory_id = memory_id; session_id = session_id; text = text; created_at = now })
  pure memory_id

-- INSERT INTO feedback, under its primary key.
unfoldable pub insert_feedback : FeedbackRow → Runtime Unit
insert_feedback f s = elim (find (λ r. r.feedback_id == f.feedback_id) s.feedback) [
  | some _ ↦ (err integrity_error, s)
  | none ↦ (ok tt, record s { feedback = s.feedback ++ f ∷ [] })
]

unfoldable pub add_feedback : (ℕ → String) → ℕ → String → Rating → String → Runtime String
add_feedback identifier now run_id rating comment = do
  feedback_id ← new_id identifier
  insert_feedback (record {
    feedback_id = feedback_id;
    run_id = run_id;
    rating = rating;
    comment = comment;
    created_at = now;
  })
  pure feedback_id

unfoldable pub insert_approval : ApprovalRow → Runtime Unit
insert_approval a s = elim (find (is_approval a.approval_id) s.approvals) [
  | some _ ↦ (err integrity_error, s)
  | none ↦ (ok tt, record s { approvals = s.approvals ++ a ∷ [] })
]

abbrev pub new_approval :
    ℕ → String → String → String → List (String × String) → String → String → ApprovalRow
new_approval now run_id session_id tool_name arguments reason approval_id = record {
  approval_id = approval_id;
  run_id = run_id;
  session_id = session_id;
  tool_name = tool_name;
  arguments = arguments;
  reason = reason;
  status = pending;
  actor = none;
  created_at = now;
  decided_at = none;
}

unfoldable pub create_approval :
    (ℕ → String) → ℕ → String → String → String → List (String × String) → String → Runtime String
create_approval identifier now run_id session_id tool_name arguments reason = do
  approval_id ← new_id identifier
  insert_approval (new_approval now run_id session_id tool_name arguments reason approval_id)
  pure approval_id

unfoldable pub approval : String → Runtime (Option ApprovalRow)
approval approval_id = gets (λ s. find (is_approval approval_id) s.approvals)

abbrev pub decided : ℕ → Bool → String → ApprovalRow → ApprovalRow
decided now yea actor a = record a {
  status = if yea then approved else denied;
  actor = some actor;
  decided_at = some now;
}

-- UPDATE approvals ... WHERE approval_id=? AND status='pending'
unfoldable pub record_decision : ℕ → String → Bool → String → Runtime Unit
record_decision now approval_id yea actor = modify λ s. record s {
  approvals =
      update_where (λ a. is_approval approval_id a && is_pending a) (decided now yea actor)
        s.approvals;
}

unfoldable pub pending_approvals : Runtime (List ApprovalRow)
pending_approvals = gets (λ s. select is_pending s.approvals)
