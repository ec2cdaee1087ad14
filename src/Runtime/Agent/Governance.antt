-- ===== src/Runtime/Agent/Governance.antt =====
-- runtime.py and tools.py: which tools a run can reach.
use mathlib.Core.Path.{fun_ext}
use evoagent_os.Base.{
  ℕ, zero, suc, ◌≡◌, refl, sym, ap, ◌∙◌, String, List, [], ◌∷◌, Option, none, some,
}
use evoagent_os.Base.Rows.{find}
use evoagent_os.Base.Action.{or_raise, ◌>>=◌, ◌>>◌}
use evoagent_os.Runtime.Store.{
  RiskLevel, DecisionAction, deny, approve, execute, ToolResult, unknown_tool, running, run_started,
  Usage, tool_requested, Store, Runtime,
}
use evoagent_os.Runtime.Records.{event, update_run, ChatMessage, ToolCall, ModelTurn}
use evoagent_os.Runtime.Tools.{
  Tool, ToolRegistry, ToolPolicy, ToolDecision, decide, decide_on, is_tool, get_tool, schemas,
  execute_call,
}
use evoagent_os.Runtime.Agent.{
  AgentRuntime, Envelope, Turn, context_of, answer, request_approval, dispatch, handle_calls, say,
  said, act, proceed, take_turn, drive, drive_from, ask, add_usage, messages_of, fail_run,
  execute_run, catch, accept, session_of, turn_of, run_view, run_once, no_usage,
}

-- Two tools that an operator cannot tell apart by their names and risks, and which do the same
-- wherever the policy executes them.
abbrev pub SameTool : ToolPolicy → Option Tool → Option Tool → Type 0
SameTool policy none none = Unit
SameTool policy (some a) (some b) =
    (a.name ≡ b.name)
    × (a.risk ≡ b.risk)
    × ((decide policy a).action ≡ execute → a.handler ≡ b.handler)
SameTool policy _ _ = ⊥

-- A registry under the same policy, whose tools may differ in what they do where the policy does not
-- execute them.
pub record Agrees (registry other : ToolRegistry) : Type 0 where
  pub policy : registry.policy ≡ other.policy
  pub schema : schemas registry ≡ schemas other
  pub tools :
      (name : String)
      → SameTool registry.policy
          (find (is_tool name) registry.tools)
          (find (is_tool name) other.tools)

decide-same :
    (policy : ToolPolicy) (a b : Tool)
    → a.name ≡ b.name
    → a.risk ≡ b.risk
    → decide policy a ≡ decide policy b
unfolding decide
decide-same policy a b n r = ap (λ x. decide_on policy x a.risk) n ∙ ap (decide_on policy b.name) r

get_tool-find :
    (registry : ToolRegistry) (name : String) (o : Option Tool)
    → find (is_tool name) registry.tools ≡ o
    → get_tool registry name ≡ or_raise (unknown_tool name) o
unfolding get_tool
get_tool-find registry name o h = ap (or_raise (unknown_tool name)) h

bind-same :
    {A B : Type 0} (m : Runtime A) (f g : A → Runtime B)
    → ((a : A) → f a ≡ g a)
    → (m >>= f) ≡ (m >>= g)
bind-same m f g h = ap (λ k. m >>= k) (fun_ext h)

module _ (agent : AgentRuntime) (other : ToolRegistry) (agrees : Agrees agent.tools other)
    (t : Turn) where
  abbrev other_agent : AgentRuntime
  other_agent = record agent { tools = other }

  answer-same :
      (call : ToolCall) (result : ToolResult) (ms : List ChatMessage)
      → answer agent t call result ms ≡ answer other_agent t call result ms
  unfolding answer
  answer-same call result ms = refl

  request-same :
      (call : ToolCall) (reason : String)
      → request_approval agent t call reason ≡ request_approval other_agent t call reason
  unfolding request_approval
  request-same call reason = refl

  execute_call-same :
      (call : ToolCall) (a b : Tool)
      → find (is_tool call.name) agent.tools.tools ≡ some a
      → find (is_tool call.name) other.tools ≡ some b
      → a.handler ≡ b.handler
      → execute_call agent.tools call (context_of agent t)
        ≡ execute_call other call (context_of other_agent t)
  unfolding execute_call
  execute_call-same call a b ea eb h =
      ap (λ m. m >>= λ (tool : Tool). tool.handler call.arguments (context_of agent t))
        (get_tool-find agent.tools call.name (some a) ea)
      ∙ ap (λ k. k call.arguments (context_of agent t)) h
      ∙ sym (
          ap (λ m. m >>= λ (tool : Tool). tool.handler call.arguments (context_of agent t))
            (get_tool-find other call.name (some b) eb))

  dispatch-same :
      (call : ToolCall) (ms : List ChatMessage)
      (rest rest' : List ChatMessage → Runtime (Option (List ChatMessage))) (reason : String)
      (action : DecisionAction)
      → ((m : List ChatMessage) → rest m ≡ rest' m)
      → (action ≡ execute
          → execute_call agent.tools call (context_of agent t)
            ≡ execute_call other call (context_of other_agent t))
      → dispatch agent t call ms rest reason action
        ≡ dispatch other_agent t call ms rest' reason action
  unfolding answer request_approval
  dispatch-same call ms rest rest' reason deny h k = bind-same _ rest rest' h
  dispatch-same call ms rest rest' reason approve h k = refl
  dispatch-same call ms rest rest' reason execute h k =
      ap (λ m. m >>= λ result. answer agent t call result ms >>= rest) (k refl)
      ∙ bind-same _ (λ result. answer agent t call result ms >>= rest)
          (λ result. answer other_agent t call result ms >>= rest')
          (λ result. bind-same (answer agent t call result ms) rest rest' h)

  -- What follows the decision on a tool of the given risk, and what follows the lookup of a tool.
  abbrev follow :
      AgentRuntime
      → ToolCall
      → List ChatMessage
      → (List ChatMessage → Runtime (Option (List ChatMessage)))
      → ToolDecision
      → RiskLevel
      → Runtime (Option (List ChatMessage))
  follow runtime call ms rest decision risk =
      event runtime.outside.now (tool_requested call.name risk decision.action) t.run_id
        t.session_id
      >> dispatch runtime t call ms rest decision.reason decision.action

  abbrev decided_by :
      AgentRuntime
      → ToolCall
      → List ChatMessage
      → (List ChatMessage → Runtime (Option (List ChatMessage)))
      → Tool
      → Runtime (Option (List ChatMessage))
  decided_by runtime call ms rest tool =
      follow runtime call ms rest (decide runtime.tools.policy tool) tool.risk

  looked_up-same :
      (call : ToolCall) (ms : List ChatMessage)
      (rest rest' : List ChatMessage → Runtime (Option (List ChatMessage))) (a b : Option Tool)
      → find (is_tool call.name) agent.tools.tools ≡ a
      → find (is_tool call.name) other.tools ≡ b
      → SameTool agent.tools.policy a b
      → ((m : List ChatMessage) → rest m ≡ rest' m)
      → (s : Store)
      → (or_raise (unknown_tool call.name) a >>= decided_by agent call ms rest) s
        ≡ (or_raise (unknown_tool call.name) b >>= decided_by other_agent call ms rest') s
  looked_up-same call ms rest rest' none none ea eb same h s = refl
  looked_up-same call ms rest rest' none (some b) ea eb same h s = absurd same
  looked_up-same call ms rest rest' (some a) none ea eb same h s = absurd same
  looked_up-same call ms rest rest' (some a) (some b) ea eb same h s =
      let dec : decide agent.tools.policy a ≡ decide other.policy b =
        decide-same agent.tools.policy a b same.0 same.1 ∙ ap (λ p. decide p b) agrees.policy in
      ap (λ d. follow agent call ms rest d a.risk s) dec
      ∙ ap (λ r. follow agent call ms rest (decide other.policy b) r s) same.1
      ∙ ap (λ m. m s)
          (bind-same
            (event agent.outside.now
              (tool_requested call.name b.risk (decide other.policy b).action) t.run_id
              t.session_id)
            (λ _.
              dispatch agent t call ms rest (decide other.policy b).reason
                (decide other.policy b).action)
            (λ _.
              dispatch other_agent t call ms rest' (decide other.policy b).reason
                (decide other.policy b).action)
            (λ _.
              dispatch-same call ms rest rest' (decide other.policy b).reason
                (decide other.policy b).action h
                (λ q. execute_call-same call a b ea eb (same.2 (ap (λ d. d.action) dec ∙ q)))))

  handle_calls-same :
      (calls : List ToolCall) (ms : List ChatMessage)
      → handle_calls agent t calls ms ≡ handle_calls other_agent t calls ms
  unfolding handle_calls
  handle_calls-same [] ms = refl
  handle_calls-same (call ∷ calls) ms = fun_ext λ s.
      ap (λ m. (m >>= decided_by agent call ms (handle_calls agent t calls)) s)
        (get_tool-find agent.tools call.name _ refl)
      ∙ looked_up-same call ms (handle_calls agent t calls) (handle_calls other_agent t calls) _ _
          refl refl (agrees.tools call.name) (handle_calls-same calls) s
      ∙ ap (λ m. (m >>= decided_by other_agent call ms (handle_calls other_agent t calls)) s)
          (sym (get_tool-find other call.name _ refl))

  act-same :
      (usage : Usage) (text : String) (ms : List ChatMessage) (calls : List ToolCall)
      → act agent t usage text ms calls ≡ act other_agent t usage text ms calls
  act-same usage text ms [] = refl
  act-same usage text ms (call ∷ calls) = handle_calls-same (call ∷ calls) ms

  take_turn-same :
      (step : ℕ) (usage : Usage) (turn : ModelTurn) (ms : List ChatMessage)
      → take_turn agent t step usage turn ms ≡ take_turn other_agent t step usage turn ms
  unfolding take_turn
  take_turn-same step usage turn ms = bind-same _ _ _ (λ _.
      bind-same (say agent.outside.now t turn.text) _ _
        (λ _. act-same usage turn.text (said turn ms) turn.tool_calls))

  proceed-same :
      (rest rest' : List ChatMessage → Runtime Unit) (next : Option (List ChatMessage))
      → ((m : List ChatMessage) → rest m ≡ rest' m)
      → proceed rest next ≡ proceed rest' next
  proceed-same rest rest' none h = refl
  proceed-same rest rest' (some ms) h = h ms

  drive-same :
      (left step : ℕ) (usage : Usage) (ms : List ChatMessage)
      → drive agent t left step usage ms ≡ drive other_agent t left step usage ms
  unfolding drive
  drive-same zero step usage ms = refl
  drive-same (suc left) step usage ms =
      ap
        (λ sc. (λ (s : Store). (agent.complete step ms sc, s)) >>= λ turn.
          take_turn agent t step (add_usage usage turn) turn ms
          >>= proceed (drive agent t left (suc step) (add_usage usage turn)))
        agrees.schema
      ∙ bind-same (ask other_agent step ms) _ _ (λ turn.
        ap (λ m. m >>= proceed (drive agent t left (suc step) (add_usage usage turn)))
          (take_turn-same step (add_usage usage turn) turn ms)
        ∙ bind-same (take_turn other_agent t step (add_usage usage turn) turn ms) _ _
            (λ next. proceed-same _ _ next (drive-same left (suc step) (add_usage usage turn))))

module _ (agent : AgentRuntime) (other : ToolRegistry) (agrees : Agrees agent.tools other) where
  execute_run-same :
      (t : Turn) (prompt query : String)
      → execute_run agent t prompt query
        ≡ execute_run (record agent { tools = other }) t prompt query
  unfolding execute_run messages_of drive_from fail_run
  execute_run-same t prompt query =
      bind-same (update_run agent.outside.now t.run_id running (λ r. r)) _ _ (λ _.
        bind-same (event agent.outside.now run_started t.run_id t.session_id) _ _ (λ _.
          ap (λ (m : Runtime Unit). catch m (fail_run agent.outside.now t))
            (bind-same (messages_of agent t.session_id prompt query) _ _
              (λ ms. drive-same agent other agrees t (suc agent.max_tool_steps) 0 no_usage ms))))

  accept-same : (e : Envelope) → accept agent e ≡ accept (record agent { tools = other }) e
  unfolding accept session_of
  accept-same e = refl

  -- A run does not depend on what a tool does that the policy does not execute: with another registry
  -- under the same policy, which shows the same names, risks and schemas and has the same handlers
  -- for the tools that the policy executes, `run_once` gives the same result and the same database,
  -- whatever the model asks for.
  pub run_once-same :
      (e : Envelope) → run_once agent e ≡ run_once (record agent { tools = other }) e
  unfolding run_once
  run_once-same e =
      ap (λ m. m >>= λ a. execute_run agent (turn_of a) a.prompt e.text >> run_view a.run_id)
        (accept-same e)
      ∙ bind-same (accept (record agent { tools = other }) e) _ _
          (λ a. ap (λ m. m >> run_view a.run_id) (execute_run-same (turn_of a) a.prompt e.text))
