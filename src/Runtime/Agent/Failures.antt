-- ===== src/Runtime/Agent/Failures.antt =====
-- runtime.py, `decide_approval`: what becomes of the run when the approved tool raises.
use evoagent_os.Base.{◌≡◌, ap, ◌∙◌, String, true, some}
use evoagent_os.Base.Rows.{find}
use evoagent_os.Base.Action.{ok, err, ◌>>=◌}
use evoagent_os.Runtime.Store.{
  RunError, RunRow, ApprovalRow, Store, Runtime, is_run, is_approval, is_pending,
}
use evoagent_os.Runtime.Records.{ToolCall, get_run, record_decision}
use evoagent_os.Runtime.Tools.{Tool, is_tool, get_tool, execute_call}
use evoagent_os.Runtime.Agent.{AgentRuntime, Turn, context_of}
use evoagent_os.Runtime.Agent.Decide.{decided_result, resume, go_on, decide_approval}
use evoagent_os.Runtime.Agent.Runs.{KeepsRuns, execute_call-runs}
use evoagent_os.Runtime.Agent.Approvals.{decide_approval-resumed, resumed}

bind_err :
    {A B : Type 0} (m : Runtime A) (f : A → Runtime B) (s : Store) (e : RunError)
    → (m s).0 ≡ err e
    → (m >>= f) s ≡ (err e, (m s).1)
bind_err m f s e h = ap (λ r. elim r [ ok x ↦ f x (m s).1 | err e' ↦ (err e', (m s).1) ]) h

module _ (agent : AgentRuntime) (a : ApprovalRow) (run : RunRow) (tool : Tool) (e : RunError)
    (keeps : KeepsRuns agent.tools)
    (known : find (is_tool a.tool_name) agent.tools.tools ≡ some tool) where
  -- The turn in which the approved call is made.
  abbrev turn : Turn
  turn = record { run_id = run.run_id; session_id = run.session_id }

  -- The tool raises on the approved call, made in this state.
  abbrev Raises : Store → Type 0
  Raises s = (tool.handler a.arguments (context_of agent turn) s).0 ≡ err e

  resume-Raises :
      (call_id actor : String) (s : Store)
      → Raises s
      → ((resume agent a run call_id true actor s).0 ≡ err e)
        × ((resume agent a run call_id true actor s).1.runs ≡ s.runs)
  unfolding resume decided_result execute_call get_tool
  resume-Raises call_id actor s raises =
      let call : ToolCall = record { id = call_id; name = a.tool_name; arguments = a.arguments } in
      let stop =
        bind_err (decided_result agent turn call true actor) (go_on agent a run call true actor) s e
          (rw (known, execute_call) raises) in
      (
        ap (λ r. r.0) stop,
        ap (λ r. r.1.runs) stop
            ∙ execute_call-runs agent.tools call (context_of agent turn) s keeps,
      )

  resumed-Raises :
      (call_id actor : String) (s : Store)
      → Raises s
      → find (is_run a.run_id) s.runs ≡ some run
      → ((resumed agent a call_id true actor s).0 ≡ err e)
        × ((resumed agent a call_id true actor s).1.runs ≡ s.runs)
  unfolding get_run
  resumed-Raises call_id actor s raises h = rw h (resume-Raises call_id actor s raises)

-- The tool of a pending approval, approved now, raises on the call that `decide_approval` makes of it:
-- the error goes to the caller and is not recorded, so the run keeps its row, with the status that it
-- had while it waited. The tools leave the tables of runs and approvals alone.
pub decide_approval_raises :
    (agent : AgentRuntime) (call_id id : String) (actor : String) (a : ApprovalRow) (run : RunRow)
    (tool : Tool) (e : RunError) (s : Store)
    → KeepsRuns agent.tools
    → find (is_tool a.tool_name) agent.tools.tools ≡ some tool
    → (tool.handler a.arguments
        (context_of agent (record { run_id = run.run_id; session_id = run.session_id }))
        (record_decision agent.outside.now id true actor s).1).0
      ≡ err e
    → find (is_approval id) s.approvals ≡ some a
    → is_pending a ≡ true
    → find (is_run a.run_id) s.runs ≡ some run
    → ((decide_approval agent call_id id true actor s).0 ≡ err e)
      × (find (is_run a.run_id) (decide_approval agent call_id id true actor s).1.runs ≡ some run)
unfolding record_decision
decide_approval_raises agent call_id id actor a run tool e s keeps known raises found wait row =
    let eq = decide_approval-resumed agent call_id id true actor a s found wait in
    let before = (record_decision agent.outside.now id true actor s).1 in
    let (failed, same) =
      resumed-Raises agent a run tool e keeps known call_id actor before raises row in
    (
      ap (λ r. r.0) eq ∙ failed,
      ap (λ r. find (is_run a.run_id) r.1.runs) eq ∙ ap (find (is_run a.run_id)) same ∙ row,
    )
