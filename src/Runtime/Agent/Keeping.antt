-- ===== src/Runtime/Agent/Keeping.antt =====
-- runtime.py: the row of an approval through the turns of a run.
use evoagent_os.Base.{
  ℕ, zero, suc, ◌≡◌, refl, ap, ◌∙◌, String, List, [], ◌∷◌, Option, none, some, Option-cases,
  Bool-cases, inl, inr, ◌==◌,
}
use evoagent_os.Base.Rows.{find, find-append}
use evoagent_os.Base.Action.{Result, ok, err, ◌>>=◌, pure, or_raise}
use evoagent_os.Runtime.Store.{
  DecisionAction, deny, approve, execute, ToolResult, RunError, Usage, RunRow, RunStatus,
  awaiting_approval, ApprovalRow, EventKind, Store, Runtime, is_approval,
}
use evoagent_os.Runtime.Records.{
  ChatMessage, ToolCall, add_message, update_run, event, create_approval, insert_approval,
  new_approval, new_id,
}
use evoagent_os.Runtime.Tools.{ToolContext, ToolRegistry, is_tool, get_tool, execute_call, decide}
use evoagent_os.Runtime.Agent.{
  AgentRuntime, Turn, context_of, answer, request_approval, dispatch, handle_calls, say, said,
  finish_run, act, proceed, take_turn, drive, ask, add_usage,
}
use evoagent_os.Runtime.Agent.Runs.{KeepsRuns, get_tool-state}

-- The row of the approval, and the actions that leave it as it is.
abbrev pub Has : String → ApprovalRow → Store → Type 0
Has approval_id a s = find (is_approval approval_id) s.approvals ≡ some a

pub record Keeps {A : Type 0} (approval_id : String) (a : ApprovalRow) (m : Runtime A)
    : Type 0 where
  pub at : (s : Store) → Has approval_id a s → Has approval_id a (m s).1

module _ {A : Type 0} (approval_id : String) (a : ApprovalRow) where
  pub Keeps-same :
      (m : Runtime A) → ((s : Store) → (m s).1.approvals ≡ s.approvals) → Keeps approval_id a m
  Keeps-same m same = record { at = λ s h. ap (find (is_approval approval_id)) (same s) ∙ h }

  pub Keeps-or_raise : (e : RunError) (o : Option A) → Keeps approval_id a (or_raise e o)
  Keeps-or_raise e none = record { at = λ s h. h }
  Keeps-or_raise e (some x) = record { at = λ s h. h }

module _ {A B : Type 0} (approval_id : String) (a : ApprovalRow) where
  pub after :
      (r : Result RunError A) (f : A → Runtime B) (s s' : Store)
      → Has approval_id a s'
      → ((x : A) → Keeps approval_id a (f x))
      → Has approval_id a (((λ (_ : Store). (r, s')) >>= f) s).1
  after (ok x) f s s' h k = (k x).at s' h
  after (err e) f s s' h k = h

  pub Keeps-bind :
      (m : Runtime A) (f : A → Runtime B)
      → Keeps approval_id a m
      → ((x : A) → Keeps approval_id a (f x))
      → Keeps approval_id a (m >>= f)
  Keeps-bind m f km kf = record { at = λ s h. let (r, s') = m s in after r f s s' (km.at s h) kf }

execute_call-approvals :
    (registry : ToolRegistry) (call : ToolCall) (context : ToolContext) (s : Store)
    → KeepsRuns registry
    → (execute_call registry call context s).1.approvals ≡ s.approvals
unfolding execute_call get_tool
execute_call-approvals registry call context s keeps =
    elim (Option-cases (find (is_tool call.name) registry.tools)) [
      | inl n ↦ rw (n, execute_call)
      | inr (tool, n) ↦
          rw (n, execute_call) (keeps.approvals call.name tool call.arguments context s n)
    ]

insert_approval-Keeps :
    (approval_id : String) (a b : ApprovalRow) → Keeps approval_id a (insert_approval b)
unfolding insert_approval
insert_approval-Keeps approval_id a b = record {
  at = λ s h. elim (Option-cases (find (is_approval b.approval_id) s.approvals)) [
    | inl n ↦
        rw (n, insert_approval) (rw (find-append (is_approval approval_id) s.approvals (b ∷ []), h))
    | inr (c, n) ↦ rw (n, insert_approval) h
  ];
}

module _ (agent : AgentRuntime) (t : Turn) (keeps : KeepsRuns agent.tools) (id : String)
    (a : ApprovalRow) where
  create_approval-Keeps :
      (identifier : ℕ → String) (now : ℕ) (run_id session_id tool_name : String)
      (arguments : List (String × String)) (reason : String)
      → Keeps id a (create_approval identifier now run_id session_id tool_name arguments reason)
  unfolding create_approval new_id
  create_approval-Keeps identifier now run_id session_id tool_name arguments reason =
      Keeps-bind id a (new_id identifier) _ (Keeps-same id a (new_id identifier) (λ s. refl)) (λ x.
        Keeps-bind id a _ _
          (insert_approval-Keeps id a
            (new_approval now run_id session_id tool_name arguments reason x))
          (λ _. Keeps-same id a (pure x) (λ s. refl)))

  pub event-Keeps :
      (kind : EventKind) → Keeps id a (event agent.outside.now kind t.run_id t.session_id)
  unfolding event
  event-Keeps kind = Keeps-same id a _ (λ s. refl)

  pub update_run-Keeps :
      (st : RunStatus) (change : RunRow → RunRow)
      → Keeps id a (update_run agent.outside.now t.run_id st change)
  unfolding update_run
  update_run-Keeps st change = Keeps-same id a _ (λ s. refl)

  answer-Keeps :
      (call : ToolCall) (result : ToolResult) (ms : List ChatMessage)
      → Keeps id a (answer agent t call result ms)
  unfolding answer add_message event
  answer-Keeps call result ms = Keeps-same id a (answer agent t call result ms) (λ s. refl)

  request_approval-Keeps :
      (call : ToolCall) (reason : String) → Keeps id a (request_approval agent t call reason)
  unfolding request_approval
  request_approval-Keeps call reason =
      Keeps-bind id a _ _
        (create_approval-Keeps agent.outside.identifier agent.outside.now t.run_id t.session_id
          call.name call.arguments reason)
        (λ x.
          Keeps-bind id a _ _ (update_run-Keeps awaiting_approval (λ r. r)) (λ _. event-Keeps _))

  pub execute_call-Keeps :
      (call : ToolCall) → Keeps id a (execute_call agent.tools call (context_of agent t))
  execute_call-Keeps call =
      Keeps-same id a (execute_call agent.tools call (context_of agent t))
        (λ s. execute_call-approvals agent.tools call (context_of agent t) s keeps)

  dispatch-Keeps :
      (call : ToolCall) (ms : List ChatMessage)
      (rest : List ChatMessage → Runtime (Option (List ChatMessage))) (reason : String)
      (action : DecisionAction)
      → ((m : List ChatMessage) → Keeps id a (rest m))
      → Keeps id a (dispatch agent t call ms rest reason action)
  dispatch-Keeps call ms rest reason deny h = Keeps-bind id a _ rest (answer-Keeps call _ ms) h
  dispatch-Keeps call ms rest reason approve h =
      Keeps-bind id a _ _ (request_approval-Keeps call reason)
        (λ _. Keeps-same id a (pure none) (λ s. refl))
  dispatch-Keeps call ms rest reason execute h =
      Keeps-bind id a _ _ (execute_call-Keeps call)
        (λ result. Keeps-bind id a _ rest (answer-Keeps call result ms) h)

  handle_calls-Keeps :
      (calls : List ToolCall) (ms : List ChatMessage) → Keeps id a (handle_calls agent t calls ms)
  unfolding handle_calls
  handle_calls-Keeps [] ms = Keeps-same id a (pure (some ms)) (λ s. refl)
  handle_calls-Keeps (call ∷ calls) ms =
      Keeps-bind id a _ _
        (Keeps-same id a (get_tool agent.tools call.name)
          (λ s. ap (λ x. x.approvals) (get_tool-state agent.tools call.name s)))
        (λ tool. Keeps-bind id a _ _ (event-Keeps _) (λ _.
          dispatch-Keeps call ms _ (decide agent.tools.policy tool).reason
            (decide agent.tools.policy tool).action (handle_calls-Keeps calls)))

  act-Keeps :
      (usage : Usage) (text : String) (ms : List ChatMessage) (calls : List ToolCall)
      → Keeps id a (act agent t usage text ms calls)
  unfolding finish_run update_run event
  act-Keeps usage text ms [] = record { at = λ s h. h }
  act-Keeps usage text ms (call ∷ calls) = handle_calls-Keeps (call ∷ calls) ms

  say-Keeps : (text : String) → Keeps id a (say agent.outside.now t text)
  unfolding say add_message
  say-Keeps text = record {
    at = λ s h. elim (Bool-cases (text == "")) [ inl e ↦ rw (e, say) h | inr e ↦ rw (e, say) h ];
  }

  pub drive-Keeps :
      (left step : ℕ) (usage : Usage) (ms : List ChatMessage)
      → Keeps id a (drive agent t left step usage ms)
  unfolding drive take_turn
  drive-Keeps zero step usage ms = record { at = λ s h. h }
  drive-Keeps (suc left) step usage ms =
      Keeps-bind id a (ask agent step ms) _ (Keeps-same id a (ask agent step ms) (λ s. refl))
        (λ turn.
          Keeps-bind id a (take_turn agent t step (add_usage usage turn) turn ms) _
            (Keeps-bind id a _ _ (event-Keeps _) (λ _.
              Keeps-bind id a _ _ (say-Keeps turn.text)
                (λ _. act-Keeps _ turn.text (said turn ms) turn.tool_calls)))
            (λ next. proceeds next (drive-Keeps left (suc step) (add_usage usage turn))))
    where
      proceeds :
          {rest : List ChatMessage → Runtime Unit} (next : Option (List ChatMessage))
          → ((m : List ChatMessage) → Keeps id a (rest m))
          → Keeps id a (proceed rest next)
      proceeds none h = record { at = λ s x. x }
      proceeds (some m) h = h m
