-- ===== src/Runtime/Agent/Turns.antt =====
-- runtime.py: the turns of a run, from `_messages` to the end of `_drive`.
use evoagent_os.Base.{
  ℕ, zero, suc, ◌≡◌, refl, ap, inl, inr, String, List, [], ◌∷◌, Option, none, some, ◌==◌,
}
use evoagent_os.Base.Action.Triple.{
  Triple, Triple-pure, Triple-raise, Triple-if, Triple-modify, Triple-bind,
}
use evoagent_os.Runtime.Store.{
  completed, failed, DecisionAction, deny, approve, execute, ToolResult, RunError, Usage, EventKind,
  Store, Runtime,
}
use evoagent_os.Runtime.Records.{
  ChatMessage, ToolCall, ModelTurn, add_message, update_run, event, create_approval, new_approval,
  new_id, history,
}
use evoagent_os.Runtime.Tools.{get_tool, execute_call, decide}
use evoagent_os.Runtime.Tools.Builtins.{search_memory}
use evoagent_os.Runtime.Agent.{
  AgentRuntime, Turn, context_of, answer, request_approval, handle_calls, dispatch, act, proceed,
  say, said, take_turn, drive, drive_from, ask, add_usage, messages_of, fail_run,
}
use evoagent_os.Runtime.Agent.Runs.{
  KeepsRuns, HasStatus, Exists, Waits, Ended, Awaiting, Exists-keeping, get_tool-state,
  execute_call-runs, finish_run-Ended, insert_approval-Waits, Awaiting-update, Awaiting-event,
  update_run-find,
}

module _ (agent : AgentRuntime) (t : Turn) (keeps : KeepsRuns agent.tools) where
  create_approval-Waits :
      (identifier : ℕ → String) (now : ℕ) (session_id tool_name : String)
      (arguments : List (String × String)) (reason : String)
      → Triple
          (Exists t.run_id)
          (create_approval identifier now t.run_id session_id tool_name arguments reason)
          (λ _ s. Exists t.run_id s × Waits t.run_id s)
          (λ _. Exists t.run_id)
  unfolding create_approval new_id
  create_approval-Waits identifier now session_id tool_name arguments reason =
      Triple-bind (λ _. Exists t.run_id) (new_id identifier) _
        (Exists-keeping t.run_id (new_id identifier) (λ s. refl))
        (λ id.
          Triple-bind (λ _ s. Exists t.run_id s × Waits t.run_id s) _ _
            (insert_approval-Waits t.run_id
              (new_approval now t.run_id session_id tool_name arguments reason id) refl refl)
            (λ _. Triple-pure id (λ s h. h)))

  pub answer-Exists :
      (call : ToolCall) (result : ToolResult) (messages : List ChatMessage)
      → Triple
          (Exists t.run_id)
          (answer agent t call result messages)
          (λ _. Exists t.run_id)
          (λ _. Exists t.run_id)
  unfolding answer add_message event
  answer-Exists call result messages =
      Exists-keeping t.run_id (answer agent t call result messages) (λ s. refl)

  request_approval-Awaiting :
      (call : ToolCall) (reason : String)
      → Triple
          (Exists t.run_id)
          (request_approval agent t call reason)
          (λ _. Awaiting t.run_id)
          (λ _. Exists t.run_id)
  unfolding request_approval
  request_approval-Awaiting call reason =
      Triple-bind (λ _ s. Exists t.run_id s × Waits t.run_id s) _ _
        (create_approval-Waits agent.outside.identifier agent.outside.now t.session_id call.name
          call.arguments reason)
        (λ id.
          Triple-bind (λ _. Awaiting t.run_id) _ _ (Awaiting-update agent.outside.now t.run_id)
            (λ _. Awaiting-event agent.outside.now _ t.run_id t.session_id))

  -- What a turn leaves: a run that has ended or waits, or one with its row.
  Handled : Option (List ChatMessage) → Store → Type 0
  Handled none s = Ended t.run_id s
  Handled (some _) s = Exists t.run_id s

  dispatch-Handled :
      (call : ToolCall) (messages : List ChatMessage)
      (rest : List ChatMessage → Runtime (Option (List ChatMessage))) (reason : String)
      (action : DecisionAction)
      → ((ms : List ChatMessage)
          → Triple (Exists t.run_id) (rest ms) Handled (λ _. Exists t.run_id))
      → Triple
          (Exists t.run_id)
          (dispatch agent t call messages rest reason action)
          Handled
          (λ _. Exists t.run_id)
  unfolding Handled
  dispatch-Handled call messages rest reason deny h =
      Triple-bind (λ _. Exists t.run_id) _ rest (answer-Exists call _ messages) h
  dispatch-Handled call messages rest reason approve h =
      Triple-bind (λ _. Awaiting t.run_id) _ _ (request_approval-Awaiting call reason)
        (λ _. Triple-pure none (λ s x. inr x))
  dispatch-Handled call messages rest reason execute h =
      Triple-bind (λ _. Exists t.run_id) (execute_call agent.tools call (context_of agent t)) _
        (Exists-keeping t.run_id (execute_call agent.tools call (context_of agent t))
          (λ s. execute_call-runs agent.tools call (context_of agent t) s keeps))
        (λ result. Triple-bind (λ _. Exists t.run_id) _ rest (answer-Exists call result messages) h)

  pub event-Exists :
      (kind : EventKind)
      → Triple
          (Exists t.run_id)
          (event agent.outside.now kind t.run_id t.session_id)
          (λ _. Exists t.run_id)
          (λ _. Exists t.run_id)
  unfolding event
  event-Exists kind = record { at = λ s h. h }

  handle_calls-Handled :
      (calls : List ToolCall) (messages : List ChatMessage)
      → Triple
          (Exists t.run_id)
          (handle_calls agent t calls messages)
          Handled
          (λ _. Exists t.run_id)
  unfolding handle_calls Handled
  handle_calls-Handled [] messages = Triple-pure (some messages) (λ s h. h)
  handle_calls-Handled (call ∷ calls) messages =
      Triple-bind (λ _. Exists t.run_id) (get_tool agent.tools call.name) _
        (Exists-keeping t.run_id (get_tool agent.tools call.name)
          (λ s. ap (λ x. x.runs) (get_tool-state agent.tools call.name s)))
        (λ tool.
          Triple-bind (λ _. Exists t.run_id) _ _ (event-Exists _)
            (λ _.
              dispatch-Handled call messages (handle_calls agent t calls)
                (decide agent.tools.policy tool).reason (decide agent.tools.policy tool).action
                (handle_calls-Handled calls)))

  act-Handled :
      (usage : Usage) (text : String) (messages : List ChatMessage) (calls : List ToolCall)
      → Triple
          (Exists t.run_id)
          (act agent t usage text messages calls)
          Handled
          (λ _. Exists t.run_id)
  unfolding Handled
  act-Handled usage text messages [] =
      Triple-bind (λ _. HasStatus t.run_id (λ x. x ≡ completed)) _ _
        (finish_run-Ended agent.outside.now t text usage) (λ _. Triple-pure none (λ s x. inl x))
  act-Handled usage text messages (call ∷ calls) = handle_calls-Handled (call ∷ calls) messages

  say-Exists :
      (text : String)
      → Triple
          (Exists t.run_id)
          (say agent.outside.now t text)
          (λ _. Exists t.run_id)
          (λ _. Exists t.run_id)
  unfolding say add_message
  say-Exists text =
      Triple-if (text == "") _ _ (Triple-pure tt (λ s h. h)) (Triple-modify _ (λ s h. h))

  take_turn-Handled :
      (step : ℕ) (usage : Usage) (turn : ModelTurn) (messages : List ChatMessage)
      → Triple
          (Exists t.run_id)
          (take_turn agent t step usage turn messages)
          Handled
          (λ _. Exists t.run_id)
  unfolding take_turn
  take_turn-Handled step usage turn messages =
      Triple-bind (λ _. Exists t.run_id) _ _ (event-Exists _)
        (λ _.
          Triple-bind (λ _. Exists t.run_id) _ _ (say-Exists turn.text)
            (λ _. act-Handled usage turn.text (said turn messages) turn.tool_calls))

  proceed-Ended :
      (rest : List ChatMessage → Runtime Unit) (next : Option (List ChatMessage))
      → ((ms : List ChatMessage)
          → Triple (Exists t.run_id) (rest ms) (λ _. Ended t.run_id) (λ _. Exists t.run_id))
      → Triple (Handled next) (proceed rest next) (λ _. Ended t.run_id) (λ _. Exists t.run_id)
  unfolding Handled
  proceed-Ended rest none h = Triple-pure tt (λ s x. x)
  proceed-Ended rest (some messages) h = h messages

  ask-Exists :
      (step : ℕ) (messages : List ChatMessage)
      → Triple
          (Exists t.run_id)
          (ask agent step messages)
          (λ _. Exists t.run_id)
          (λ _. Exists t.run_id)
  ask-Exists step messages = Exists-keeping t.run_id (ask agent step messages) (λ s. refl)

  drive-Ended :
      (left step : ℕ) (usage : Usage) (messages : List ChatMessage)
      → Triple
          (Exists t.run_id)
          (drive agent t left step usage messages)
          (λ _. Ended t.run_id)
          (λ _. Exists t.run_id)
  unfolding drive
  drive-Ended zero step usage messages = Triple-raise _ (λ s h. h)
  drive-Ended (suc left) step usage messages =
      Triple-bind (λ _. Exists t.run_id) (ask agent step messages) _ (ask-Exists step messages)
        (λ turn.
          Triple-bind Handled _ _ (take_turn-Handled step (add_usage usage turn) turn messages)
            (λ next. proceed-Ended _ next (drive-Ended left (suc step) (add_usage usage turn))))

  pub messages_of-Exists :
      (prompt query : String)
      → Triple
          (Exists t.run_id)
          (messages_of agent t.session_id prompt query)
          (λ _. Exists t.run_id)
          (λ _. Exists t.run_id)
  unfolding messages_of search_memory history
  messages_of-Exists prompt query =
      Exists-keeping t.run_id (messages_of agent t.session_id prompt query) (λ s. refl)

  pub drive_from-Ended :
      (messages : List ChatMessage)
      → Triple
          (Exists t.run_id)
          (drive_from agent t messages)
          (λ _. Ended t.run_id)
          (λ _. Exists t.run_id)
  unfolding drive_from
  drive_from-Ended messages = drive-Ended _ 0 _ messages

  pub fail_run-Failed :
      (e : RunError)
      → Triple
          (Exists t.run_id)
          (fail_run agent.outside.now t e)
          (λ _. HasStatus t.run_id (λ x. x ≡ failed))
          (λ _ _. ⊥)
  unfolding fail_run event update_run
  fail_run-Failed e = record {
    at = λ s h.
        let (r, found) = h in
        update_run-find agent.outside.now t.run_id failed (λ q. record q { error = some e }) s r
          (λ q. refl) found;
  }
