-- ===== src/Runtime/Agent.antt =====
-- services/runtime/src/evoagent_runtime/runtime.py: `AgentRuntime`. The calls of a turn and the turns of a
-- run.
pub mod Decide
pub mod Runs
pub mod Turns
pub mod Endings
pub mod Governance
pub mod Keeping
pub mod Approvals
pub mod Failures
mod Tests
use Prim.Native.String
use evoagent_os.Base.{
  ℕ, zero, suc, ◌+◌, String, Bool, true, false, not, ◌&&◌, ◌||◌, List, [], ◌∷◌, ◌++◌, Option, none,
  some, map, length, ◌==◌, if◌then◌else◌,
}
use evoagent_os.Base.Rows.{find}
use evoagent_os.Base.Action.{
  Result, ok, err, pure, raise, gets, modify, or_raise, raise_if, ◌>>=◌, ◌>>◌,
}
use evoagent_os.Runtime.Store.{
  RunStatus, running, awaiting_approval, completed, failed, Role, DecisionAction, deny, approve,
  execute, ToolResult, denied_by_policy, denied_by_operator, RunError, run_not_found,
  approval_not_found, already_decided, step_budget, Usage, RunRow, MessageRow, MemoryRow,
  ApprovalRow, EventKind, run_accepted, run_started, run_completed, run_failed, model_completed,
  tool_requested, tool_completed, approval_requested, approval_decided, Store, Runtime, is_pending,
}
use evoagent_os.Runtime.Records.{
  ChatMessage, ToolCall, ModelTurn, ToolSchema, ensure_session, add_message, history, create_run,
  update_run, get_run, event, create_approval, approval, record_decision,
}
use evoagent_os.Runtime.Prompts.{active_prompt, prompt}
use evoagent_os.Runtime.Tools.{
  Outside, ToolContext, Tool, ToolRegistry, ToolDecision, decide, get_tool, schemas, execute_call,
}
use evoagent_os.Runtime.Tools.Builtins.{search_memory}

-- A request of a channel.
pub record Envelope : Type 0 where
  pub channel : String
  pub peer_id : String
  pub session_id : Option String
  pub text : String

-- The configuration of an `AgentRuntime`, and what it takes from outside: the provider, whose turn may
-- depend on how many it has given in this run, `sha256(...).hexdigest()`, and `json.dumps` of a result.
pub record AgentRuntime : Type 0 where
  pub outside : Outside
  pub workspace : List String
  pub tools : ToolRegistry
  pub allowed_hosts : List String
  pub max_tool_steps : ℕ
  pub complete : ℕ → List ChatMessage → List ToolSchema → Result RunError ModelTurn
  pub sha256 : String → String
  pub dumps : ToolResult → String

abbrev pub session_digest : AgentRuntime → Envelope → String
session_digest agent e =
    String.◌++◌ "session_"
      (String.slice (agent.sha256 (String.◌++◌ e.channel (String.◌++◌ ":" e.peer_id))) 0 20)

-- `session_id`: an empty identifier counts as none.
unfoldable pub session_of : AgentRuntime → Envelope → String
session_of agent e = elim e.session_id [
  | none ↦ session_digest agent e
  | some id ↦ if id == "" then session_digest agent e else id
]

pub record Accepted : Type 0 where
  pub run_id : String
  pub session_id : String
  pub prompt_version : ℕ
  pub prompt : String

abbrev pub accepted_as : String → String → ℕ → String → Accepted
accepted_as run_id session_id version prompt = record {
  run_id = run_id;
  session_id = session_id;
  prompt_version = version;
  prompt = prompt;
}

unfoldable pub accept : AgentRuntime → Envelope → Runtime Accepted
accept agent e = do
  let session = session_of agent e
  let now = agent.outside.now
  ensure_session now session e.channel e.peer_id
  served ← active_prompt
  run_id ← create_run agent.outside.identifier now session e.text served.0
  add_message now session Role.user e.text none none
  event now (run_accepted e.channel) run_id session
  pure (accepted_as run_id session served.0 served.1)

-- The run and the session that a turn belongs to.
pub record Turn : Type 0 where
  pub run_id : String
  pub session_id : String

abbrev pub context_of : AgentRuntime → Turn → ToolContext
context_of agent t = record {
  outside = agent.outside;
  session_id = t.session_id;
  run_id = t.run_id;
  workspace = agent.workspace;
  allowed_hosts = agent.allowed_hosts;
}

abbrev pub memory_lines : List MemoryRow → String
memory_lines [] = ""
memory_lines (m ∷ []) = String.◌++◌ "- " m.text
memory_lines (m ∷ n ∷ ms) =
    String.◌++◌ "- " (String.◌++◌ m.text (String.◌++◌ "\n" (memory_lines (n ∷ ms))))

abbrev pub system_text : String → String → String
system_text prompt memory =
    if memory == ""
    then prompt
    else String.◌++◌ prompt (String.◌++◌ "\n\nRelevant operator memory:\n" memory)

abbrev pub chat_message : MessageRow → ChatMessage
chat_message m = record {
  role = m.role;
  content = m.content;
  name = m.name;
  tool_call_id = m.tool_call_id;
}

-- `_messages`.
unfoldable pub messages_of : AgentRuntime → String → String → String → Runtime (List ChatMessage)
messages_of agent session_id prompt query = do
  memory ← search_memory agent.outside query
  rows ← history session_id 40
  pure (
      record {
        role = Role.system;
        content = system_text prompt (memory_lines memory);
        name = none;
        tool_call_id = none;
      }
      ∷ map chat_message rows)

abbrev pub tool_message : ToolCall → String → ChatMessage
tool_message call content = record {
  role = Role.tool;
  content = content;
  name = some call.name;
  tool_call_id = some call.id;
}

-- The answer to a call, in the session and in the messages.
unfoldable pub answer :
    AgentRuntime → Turn → ToolCall → ToolResult → List ChatMessage → Runtime (List ChatMessage)
answer agent t call result messages = do
  let now = agent.outside.now
  let serialized = agent.dumps result
  add_message now t.session_id Role.tool serialized (some call.name) (some call.id)
  event now (tool_completed call.name result) t.run_id t.session_id
  pure (messages ++ tool_message call serialized ∷ [])

-- A call that has to be approved ends the turn.
unfoldable pub request_approval : AgentRuntime → Turn → ToolCall → String → Runtime Unit
request_approval agent t call reason = do
  let now = agent.outside.now
  approval_id ←
      create_approval agent.outside.identifier now t.run_id t.session_id call.name call.arguments
        reason
  update_run now t.run_id awaiting_approval (λ r. r)
  event now (approval_requested approval_id call.name reason) t.run_id t.session_id

-- What the decision on a call does, over the handling of the calls behind it.
abbrev pub dispatch :
    AgentRuntime
    → Turn
    → ToolCall
    → List ChatMessage
    → (List ChatMessage → Runtime (Option (List ChatMessage)))
    → String
    → DecisionAction
    → Runtime (Option (List ChatMessage))
dispatch agent t call messages rest reason deny =
    answer agent t call (denied_by_policy reason) messages >>= rest
dispatch agent t call messages rest reason approve =
    request_approval agent t call reason >> pure none
dispatch agent t call messages rest reason execute =
    execute_call agent.tools call (context_of agent t) >>= λ result.
    answer agent t call result messages >>= rest

-- The calls of a turn in their order. The result is none once a call waits for approval.
unfoldable pub handle_calls :
    AgentRuntime → Turn → List ToolCall → List ChatMessage → Runtime (Option (List ChatMessage))
handle_calls agent t [] messages = pure (some messages)
handle_calls agent t (call ∷ calls) messages = do
  tool ← get_tool agent.tools call.name
  let decision = decide agent.tools.policy tool
  event agent.outside.now (tool_requested call.name tool.risk decision.action) t.run_id t.session_id
  dispatch agent t call messages (handle_calls agent t calls) decision.reason decision.action

abbrev pub said : ModelTurn → List ChatMessage → List ChatMessage
said turn messages =
    if turn.text == ""
    then messages
    else messages
      ++ record { role = Role.assistant; content = turn.text; name = none; tool_call_id = none }
        ∷ []

unfoldable pub say : ℕ → Turn → String → Runtime Unit
say now t text =
    if text == "" then pure tt else add_message now t.session_id Role.assistant text none none

unfoldable pub finish_run : ℕ → Turn → String → Usage → Runtime Unit
finish_run now t text usage = do
  update_run now t.run_id completed (λ r. record r { output_text = some text; usage = some usage })
  event now (run_completed usage) t.run_id t.session_id

abbrev pub ask : AgentRuntime → ℕ → List ChatMessage → Runtime ModelTurn
ask agent step messages s = (agent.complete step messages (schemas agent.tools), s)

abbrev pub add_usage : Usage → ModelTurn → Usage
add_usage u turn = record {
  input_tokens = u.input_tokens + turn.input_tokens;
  output_tokens = u.output_tokens + turn.output_tokens;
}

-- A turn with no calls ends the run.
abbrev pub act :
    AgentRuntime
    → Turn
    → Usage
    → String
    → List ChatMessage
    → List ToolCall
    → Runtime (Option (List ChatMessage))
act agent t usage text messages [] = finish_run agent.outside.now t text usage >> pure none
act agent t usage text messages (call ∷ calls) = handle_calls agent t (call ∷ calls) messages

abbrev pub proceed : (List ChatMessage → Runtime Unit) → Option (List ChatMessage) → Runtime Unit
proceed rest none = pure tt
proceed rest (some messages) = rest messages

-- A turn of the model, and the calls that it makes. The result is none when the run has ended or waits,
-- and the messages for the next turn otherwise.
unfoldable pub take_turn :
    AgentRuntime
    → Turn
    → ℕ
    → Usage
    → ModelTurn
    → List ChatMessage
    → Runtime (Option (List ChatMessage))
take_turn agent t step usage turn messages = do
  event agent.outside.now (model_completed turn.model (length turn.tool_calls) step) t.run_id
      t.session_id
  say agent.outside.now t turn.text
  act agent t usage turn.text (said turn messages) turn.tool_calls

-- `_drive`: `left` turns remain of `max_tool_steps + 1`.
unfoldable pub drive : AgentRuntime → Turn → ℕ → ℕ → Usage → List ChatMessage → Runtime Unit
drive agent t zero step usage messages = raise (step_budget agent.max_tool_steps)
drive agent t (suc left) step usage messages = ask agent step messages >>= λ turn.
    take_turn agent t step (add_usage usage turn) turn messages
    >>= proceed (drive agent t left (suc step) (add_usage usage turn))

abbrev pub no_usage : Usage
no_usage = record { input_tokens = 0; output_tokens = 0 }

unfoldable pub drive_from : AgentRuntime → Turn → List ChatMessage → Runtime Unit
drive_from agent t messages = drive agent t (suc agent.max_tool_steps) 0 no_usage messages

-- `except Exception`: the failure of a run is recorded.
unfoldable pub fail_run : ℕ → Turn → RunError → Runtime Unit
fail_run now t e = do
  update_run now t.run_id failed (λ r. record r { error = some e })
  event now (run_failed e) t.run_id t.session_id

abbrev pub catch : Runtime Unit → (RunError → Runtime Unit) → Runtime Unit
catch m handler s = let (r, s') = m s in elim r [ ok _ ↦ (ok tt, s') | err e ↦ handler e s' ]

-- `_execute`.
unfoldable pub execute_run : AgentRuntime → Turn → String → String → Runtime Unit
execute_run agent t prompt query = do
  update_run agent.outside.now t.run_id running (λ r. r)
  event agent.outside.now run_started t.run_id t.session_id
  catch (messages_of agent t.session_id prompt query >>= drive_from agent t)
      (fail_run agent.outside.now t)

unfoldable pub run_view : String → Runtime RunRow
run_view run_id = do found ← get_run run_id; or_raise run_not_found found

abbrev pub turn_of : Accepted → Turn
turn_of a = record { run_id = a.run_id; session_id = a.session_id }

-- `run_once`, and `submit` with its task run to its end.
unfoldable pub run_once : AgentRuntime → Envelope → Runtime RunRow
run_once agent e = do
  a ← accept agent e
  execute_run agent (turn_of a) a.prompt e.text
  run_view a.run_id

unfoldable pub submit : AgentRuntime → Envelope → Runtime String
submit agent e = do a ← accept agent e; execute_run agent (turn_of a) a.prompt e.text; pure a.run_id
