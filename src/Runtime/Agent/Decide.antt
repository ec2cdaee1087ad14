-- ===== src/Runtime/Agent/Decide.antt =====
-- runtime.py: `AgentRuntime.decide_approval`.
use evoagent_os.Base.{String, Bool, not, some, if◌then◌else◌}
use evoagent_os.Base.Action.{pure, or_raise, raise_if, ◌>>=◌, ◌>>◌}
use evoagent_os.Runtime.Store.{
  running, Role, ToolResult, denied_by_operator, run_not_found, approval_not_found, already_decided,
  RunRow, ApprovalRow, approval_decided, Runtime, is_pending,
}
use evoagent_os.Runtime.Records.{
  ToolCall, add_message, update_run, get_run, event, approval, record_decision,
}
use evoagent_os.Runtime.Prompts.{prompt}
use evoagent_os.Runtime.Tools.{execute_call}
use evoagent_os.Runtime.Agent.{AgentRuntime, Turn, context_of, drive_from, messages_of, run_view}

-- The approved call, or the refusal in its place. The call draws a new identifier.
unfoldable pub decided_result : AgentRuntime → Turn → ToolCall → Bool → String → Runtime ToolResult
decided_result agent t call yea actor =
    if yea
    then execute_call agent.tools call (context_of agent t)
    else pure (denied_by_operator actor)

-- `decide_approval` once it has the result of the call.
unfoldable pub go_on :
    AgentRuntime → ApprovalRow → RunRow → ToolCall → Bool → String → ToolResult → Runtime RunRow
go_on agent a run call yea actor result = do
  let now = agent.outside.now
  add_message now run.session_id Role.tool (agent.dumps result) (some call.name) (some call.id)
  event now (approval_decided a.approval_id yea actor) run.run_id run.session_id
  update_run now run.run_id running (λ r. r)
  text ← prompt run.prompt_version
  messages ← messages_of agent run.session_id text run.input_text
  drive_from agent (record { run_id = run.run_id; session_id = run.session_id }) messages
  run_view run.run_id

abbrev pub approved_call : ApprovalRow → String → ToolCall
approved_call a call_id = record { id = call_id; name = a.tool_name; arguments = a.arguments }

-- `decide_approval` once the approval and its run are read.
unfoldable pub resume :
    AgentRuntime → ApprovalRow → RunRow → String → Bool → String → Runtime RunRow
resume agent a run call_id yea actor =
    decided_result agent (record { run_id = run.run_id; session_id = run.session_id })
      (approved_call a call_id) yea actor
    >>= go_on agent a run (approved_call a call_id) yea actor

unfoldable pub decide_approval : AgentRuntime → String → String → Bool → String → Runtime RunRow
decide_approval agent call_id approval_id yea actor = do
  found ← approval approval_id
  a ← or_raise approval_not_found found
  raise_if (not (is_pending a)) already_decided
  record_decision agent.outside.now approval_id yea actor
  known ← get_run a.run_id
  run ← or_raise run_not_found known
  resume agent a run call_id yea actor
