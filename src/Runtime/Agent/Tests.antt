-- ===== src/Runtime/Agent/Tests.antt =====
-- The theorems of the agent, with the agents and the database of Office.
mod Office
use evoagent_os.Base.{
  ℕ, zero, suc, ◌≡◌, refl, String, Bool, true, List, [], ◌∷◌, none, some, Bool-cases, inl, inr,
  ◌==◌,
}
use evoagent_os.Base.Rows.{find, select}
use evoagent_os.Base.Action.{ok, err, pure, raise}
use evoagent_os.Runtime.Store.{
  low, high, pending, awaiting_approval, already_decided, no_directory, not_https, raised, other,
  PromptState, PromptRow, ApprovalRow, RunRow, Store, is_run, is_approval,
}
use evoagent_os.Runtime.Records.{ModelTurn, decided, record_decision}
use evoagent_os.Runtime.Prompts.{newest, is_active}
use evoagent_os.Runtime.Tools.{Outside, ToolContext, Tool, ToolRegistry, is_tool, decide}
use evoagent_os.Runtime.Tools.Web.{http_get}
use evoagent_os.Runtime.Tools.Builtins.{builtin_tools}
use evoagent_os.Runtime.Tools.Workspace.{builtin_tool-IsSpared}
use evoagent_os.Runtime.Agent.{AgentRuntime, context_of, Envelope, run_once}
use evoagent_os.Runtime.Agent.Decide.{decide_approval}
use evoagent_os.Runtime.Agent.Runs.{KeepsRuns}
use evoagent_os.Runtime.Agent.Endings.{ReturnsSettled, run_once-Settled}
use evoagent_os.Runtime.Agent.Governance.{Agrees, SameTool, run_once-same}
use evoagent_os.Runtime.Agent.Approvals.{decide_approval_once}
use evoagent_os.Runtime.Agent.Failures.{decide_approval_raises}
use Office.{
  clock, mailer, office, quiet_office, agent, request, served_prompt, waiting_run, waiting_approval,
  database, equipped, fetch_approval, fetch_database, fetcher,
}

module _ (name : String) (tool : Tool) (arguments : List (String × String)) (context : ToolContext)
    (s : Store) where
  office_runs :
      find (is_tool name) office.tools ≡ some tool
      → (tool.handler arguments context s).1.runs ≡ s.runs
  unfolding find
  office_runs h = elim (Bool-cases (clock.name == name)) [
    | inl e ↦ let same : clock ≡ tool = cc (rw e at h) in rw (← same)
    | inr e ↦ elim (Bool-cases (mailer.name == name)) [
      | inl m ↦ let same : mailer ≡ tool = cc (rw (e, m) at h) in rw (← same)
      | inr m ↦ cc (rw (e, m) at h)
    ]
  ]

  office_approvals :
      find (is_tool name) office.tools ≡ some tool
      → (tool.handler arguments context s).1.approvals ≡ s.approvals
  unfolding find
  office_approvals h = elim (Bool-cases (clock.name == name)) [
    | inl e ↦ let same : clock ≡ tool = cc (rw e at h) in rw (← same)
    | inr e ↦ elim (Bool-cases (mailer.name == name)) [
      | inl m ↦ let same : mailer ≡ tool = cc (rw (e, m) at h) in rw (← same)
      | inr m ↦ cc (rw (e, m) at h)
    ]
  ]

office-KeepsRuns : KeepsRuns office
office-KeepsRuns = record { runs = office_runs; approvals = office_approvals }

same_tools :
    (name : String)
    → SameTool office.policy
        (find (is_tool name) office.tools)
        (find (is_tool name) quiet_office.tools)
unfolding find decide
same_tools name = elim (Bool-cases (clock.name == name)) [
  | inl e ↦ rw (e) (refl, refl, λ h. refl)
  | inr e ↦ elim (Bool-cases (mailer.name == name)) [
    | inl m ↦ rw (e, m) (refl, refl, λ h. cc)
    | inr m ↦ rw (e, m) tt
  ]
]

office-Agrees : Agrees office quiet_office
office-Agrees = record { policy = refl; schema = refl; tools = same_tools }

prompt_served : newest (select is_active database.prompts) ≡ some served_prompt
unfolding select newest
prompt_served = refl

run_free : find (is_run (agent.outside.identifier database.drawn)) database.runs ≡ none
unfolding find
run_free = refl

approval_found : find (is_approval "approval") database.approvals ≡ some waiting_approval
unfolding find
approval_found = refl

mailer_found : find (is_tool waiting_approval.tool_name) agent.tools.tools ≡ some mailer
unfolding find
mailer_found = refl

run_found : find (is_run waiting_approval.run_id) database.runs ≡ some waiting_run
unfolding find
run_found = refl

run_once-Settled_example :
    (r : RunRow) × ((run_once agent request database).0 ≡ ok r)
    × ReturnsSettled r (run_once agent request database).1
run_once-Settled_example =
    run_once-Settled agent request served_prompt database office-KeepsRuns prompt_served run_free

run_once-same_example :
    run_once agent request ≡ run_once (record agent { tools = quiet_office }) request
run_once-same_example = run_once-same agent quiet_office office-Agrees request

decide_approval_once_example :
    let s' = (decide_approval agent "call" "approval" true "operator" database).1 in
    (find (is_approval "approval") s'.approvals ≡ some (decided 7 true "operator" waiting_approval))
    × ((later : AgentRuntime) (call : String) (yea' : Bool) (actor' : String)
        → decide_approval later call "approval" yea' actor' s' ≡ (err already_decided, s'))
decide_approval_once_example =
    decide_approval_once agent "call" "approval" true "operator" waiting_approval database
      office-KeepsRuns approval_found refl

equipped-KeepsRuns : KeepsRuns equipped.tools
equipped-KeepsRuns = record {
  runs = λ name tool arguments context s h.
      (builtin_tool-IsSpared name tool arguments context s h).runs;
  approvals = λ name tool arguments context s h.
      (builtin_tool-IsSpared name tool arguments context s h).approvals;
}

fetcher_found : find (is_tool fetch_approval.tool_name) equipped.tools.tools ≡ some fetcher
unfolding find builtin_tools
fetcher_found = refl

fetch_found : find (is_approval "approval") fetch_database.approvals ≡ some fetch_approval
unfolding find
fetch_found = refl

fetch_raises :
    (fetcher.handler fetch_approval.arguments
      (context_of equipped (record { run_id = "run"; session_id = "session" }))
      (record_decision equipped.outside.now "approval" true "operator" fetch_database).1).0
    ≡ err not_https
unfolding http_get
fetch_raises = refl

decide_approval_raises_example :
    ((decide_approval equipped "call" "approval" true "operator" fetch_database).0 ≡ err not_https)
    × (find
          (is_run "run")
          (decide_approval equipped "call" "approval" true "operator" fetch_database).1.runs
        ≡ some waiting_run)
decide_approval_raises_example =
    decide_approval_raises equipped "call" "approval" "operator" fetch_approval waiting_run fetcher
      not_https fetch_database equipped-KeepsRuns fetcher_found fetch_raises fetch_found refl
      run_found
