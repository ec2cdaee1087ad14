-- ===== src/Runtime/Agent/Approvals.antt =====
-- runtime.py, `decide_approval`: an approval is decided once.
use evoagent_os.Base.{
  ℕ, suc, ◌≡◌, refl, sym, subst, arith, String, Bool, true, false, ◌&&◌, Option, some, Option-cases,
  inl, inr,
}
use evoagent_os.Base.Rows.{find, find-update, mem-find}
use evoagent_os.Base.Action.{err, ◌>>=◌, pure, or_raise}
use evoagent_os.Runtime.Store.{
  already_decided, run_not_found, denied_by_operator, Role, RunRow, running, ApprovalRow, Store,
  Runtime, is_approval, is_pending,
}
use evoagent_os.Runtime.Records.{
  ToolCall, add_message, history, approval, get_run, decided, record_decision,
}
use evoagent_os.Runtime.Prompts.{is_version, prompt}
use evoagent_os.Runtime.Tools.Builtins.{search_memory}
use evoagent_os.Runtime.Agent.{AgentRuntime, Turn, drive_from, messages_of, run_view, no_usage}
use evoagent_os.Runtime.Agent.Decide.{decided_result, resume, go_on, decide_approval}
use evoagent_os.Runtime.Agent.Runs.{KeepsRuns}
use evoagent_os.Runtime.Agent.Keeping.{
  Has, Keeps, Keeps-bind, Keeps-or_raise, Keeps-same, drive-Keeps, event-Keeps, execute_call-Keeps,
  update_run-Keeps,
}

-- What `decide_approval` does once the decision is recorded.
abbrev pub resumed : AgentRuntime → ApprovalRow → String → Bool → String → Runtime RunRow
resumed agent a call_id yea actor = get_run a.run_id >>= λ known.
    or_raise run_not_found known >>= λ run. resume agent a run call_id yea actor

module _ (agent : AgentRuntime) (keeps : KeepsRuns agent.tools) (id : String)
    (kept : ApprovalRow) where
  messages_of-Keeps :
      (session_id text query : String) → Keeps id kept (messages_of agent session_id text query)
  unfolding messages_of search_memory history
  messages_of-Keeps session_id text query =
      Keeps-same id kept (messages_of agent session_id text query) (λ s. refl)

  prompt-Keeps : (version : ℕ) → Keeps id kept (prompt version)
  unfolding prompt
  prompt-Keeps version = record {
    at = λ s h. elim (Option-cases (find (is_version version) s.prompts)) [
      | inl n ↦ rw (n, prompt) h
      | inr (p, n) ↦ rw (n, prompt) h
    ];
  }

  run_view-Keeps : (run_id : String) → Keeps id kept (run_view run_id)
  unfolding run_view get_run
  run_view-Keeps run_id =
      Keeps-bind id kept (get_run run_id) (or_raise run_not_found)
        (Keeps-same id kept (get_run run_id) (λ s. refl))
        (λ row. Keeps-or_raise id kept run_not_found row)

  decided_result-Keeps :
      (t : Turn) (call : ToolCall) (yea : Bool) (actor : String)
      → Keeps id kept (decided_result agent t call yea actor)
  unfolding decided_result
  decided_result-Keeps t call true actor = execute_call-Keeps agent t keeps id kept call
  decided_result-Keeps t call false actor =
      Keeps-same id kept (pure (denied_by_operator actor)) (λ s. refl)

  add_message-Keeps :
      (session_id : String) (role : Role) (content : String) (name call : Option String)
      → Keeps id kept (add_message agent.outside.now session_id role content name call)
  unfolding add_message
  add_message-Keeps session_id role content name call = Keeps-same id kept _ (λ s. refl)

  resume-Keeps :
      (a : ApprovalRow) (run : RunRow) (call_id : String) (yea : Bool) (actor : String)
      → Keeps id kept (resume agent a run call_id yea actor)
  unfolding resume go_on drive_from
  resume-Keeps a run call_id yea actor =
      let t : Turn = record { run_id = run.run_id; session_id = run.session_id } in
      Keeps-bind id kept _ _
        (decided_result-Keeps t
          (record { id = call_id; name = a.tool_name; arguments = a.arguments }) yea actor)
        (λ result. Keeps-bind id kept _ _ (add_message-Keeps run.session_id Role.tool _ _ _) (λ _.
          Keeps-bind id kept _ _ (event-Keeps agent t keeps id kept _) (λ _.
            Keeps-bind id kept _ _ (update_run-Keeps agent t keeps id kept running (λ r. r)) (λ _.
              Keeps-bind id kept _ _ (prompt-Keeps run.prompt_version) (λ text.
                Keeps-bind id kept _ _ (messages_of-Keeps run.session_id text run.input_text) (λ ms.
                  Keeps-bind id kept _ _
                    (drive-Keeps agent t keeps id kept (suc agent.max_tool_steps) 0 no_usage ms)
                    (λ _. run_view-Keeps run.run_id)))))))

  resumed-Keeps :
      (a : ApprovalRow) (call_id : String) (yea : Bool) (actor : String)
      → Keeps id kept (resumed agent a call_id yea actor)
  unfolding get_run
  resumed-Keeps a call_id yea actor =
      Keeps-bind id kept (get_run a.run_id) _ (Keeps-same id kept (get_run a.run_id) (λ s. refl))
        (λ known.
          Keeps-bind id kept (or_raise run_not_found known) _
            (Keeps-or_raise id kept run_not_found known)
            (λ run. resume-Keeps a run call_id yea actor))

record_decision-Has :
    (now : ℕ) (id : String) (yea : Bool) (actor : String) (a : ApprovalRow) (s : Store)
    → Has id a s
    → is_pending a ≡ true
    → Has id (decided now yea actor a) (record_decision now id yea actor s).1
unfolding record_decision
record_decision-Has now id yea actor a s found wait =
    let hit = (mem-find (is_approval id) s.approvals found).1 in
    let e =
      find-update (is_approval id) (λ x. is_approval id x && is_pending x) (decided now yea actor)
        s.approvals (λ q m. ground arith) in
    rw (e, found, hit, wait)

decided-not_pending :
    (now : ℕ) (yea : Bool) (actor : String) (a : ApprovalRow)
    → is_pending (decided now yea actor a) ≡ false
decided-not_pending now true actor a = refl
decided-not_pending now false actor a = refl

already :
    (agent : AgentRuntime) (call_id id : String) (yea : Bool) (actor : String) (a : ApprovalRow)
    (s : Store)
    → Has id a s
    → is_pending a ≡ false
    → decide_approval agent call_id id yea actor s ≡ (err already_decided, s)
unfolding decide_approval approval
already agent call_id id yea actor a s found decided = rw (found, decided)

pub decide_approval-resumed :
    (agent : AgentRuntime) (call_id id : String) (yea : Bool) (actor : String) (a : ApprovalRow)
    (s : Store)
    → Has id a s
    → is_pending a ≡ true
    → decide_approval agent call_id id yea actor s
      ≡ resumed agent a call_id yea actor (record_decision agent.outside.now id yea actor s).1
unfolding decide_approval approval record_decision
decide_approval-resumed agent call_id id yea actor a s found wait = rw (found, wait)

-- A pending approval is decided once: whether `decide_approval` returns or raises, afterwards the
-- approval has that decision and its actor, and every later decision on it is refused and changes
-- nothing. The tools leave the tables of runs and approvals alone.
pub decide_approval_once :
    (agent : AgentRuntime) (call_id id : String) (yea : Bool) (actor : String) (a : ApprovalRow)
    (s : Store)
    → KeepsRuns agent.tools
    → find (is_approval id) s.approvals ≡ some a
    → is_pending a ≡ true
    → let s' = (decide_approval agent call_id id yea actor s).1 in
      (find (is_approval id) s'.approvals ≡ some (decided agent.outside.now yea actor a))
      × ((later : AgentRuntime) (call : String) (yea' : Bool) (actor' : String)
          → decide_approval later call id yea' actor' s' ≡ (err already_decided, s'))
decide_approval_once agent call_id id yea actor a s keeps found wait =
    let kept = decided agent.outside.now yea actor a in
    let before = (record_decision agent.outside.now id yea actor s).1 in
    let stays =
      (resumed-Keeps agent keeps id kept a call_id yea actor).at before
        (record_decision-Has agent.outside.now id yea actor a s found wait) in
    let after : Has id kept (decide_approval agent call_id id yea actor s).1 =
      subst (λ r. Has id kept r.1)
        (sym (decide_approval-resumed agent call_id id yea actor a s found wait)) stays in
    (
      after,
      λ later call yea' actor'.
          already later call id yea' actor' kept (decide_approval agent call_id id yea actor s).1
            after (decided-not_pending agent.outside.now yea actor a),
    )
