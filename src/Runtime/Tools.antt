-- ===== src/Runtime/Tools.antt =====
-- services/runtime/src/evoagent_runtime/tools.py: the policy and the registry. An argument of a call is the
-- text that `str` gives of its value.
pub mod Web
pub mod Builtins
pub mod Sparing
pub mod Workspace
mod Tests
use Prim.Native.String
use evoagent_os.Base.{
  ℕ, ◌+◌, String, Bool, true, false, not, ◌&&◌, ◌||◌, List, [], ◌∷◌, ◌++◌, Option, none, some, map,
  mem_text, ltb, all, length, ◌==◌, if◌then◌else◌,
}
use evoagent_os.Base.Rows.{find}
use evoagent_os.Base.Texts.{strip}
use evoagent_os.Base.Action.{
  Result, ok, err, pure, raise, gets, modify, or_raise, raise_if, ◌>>=◌, ◌>>◌,
}
use evoagent_os.Runtime.Store.{
  RiskLevel, low, medium, high, DecisionAction, deny, approve, execute, ToolResult, memory_stored,
  memory_matches, file_read, file_written, other, RunError, text_required, path_escapes, no_file,
  file_too_large, no_directory, not_https, host_not_allowed, internal_address, duplicate_tool,
  unknown_tool, raised, MemoryRow, Store, Runtime,
}
use evoagent_os.Runtime.Records.{ToolCall, ToolSchema, remember}

-- An address of `ipaddress`.
pub record Address : Type 0 where
  pub is_private : Bool
  pub is_loopback : Bool
  pub is_link_local : Bool
  pub is_reserved : Bool

-- What `urlparse` says of a URL.
pub record ParsedUrl : Type 0 where
  pub scheme : String
  pub hostname : Option String

-- An answer of a server, its body in bytes.
pub record Response : Type 0 where
  pub status_code : ℕ
  pub content_type : Option String
  pub content : List ℕ

-- What a tool takes from outside: the identifiers of uuid4, the clock, the ranking of the full-text
-- index of SQLite, `Path.resolve` of pathlib on a workspace and a relative path, as the parts of the
-- path that it gives, `urlparse`, the addresses that `getaddrinfo` gives with what `ipaddress` says of
-- each, the server's answer to a GET of `httpx`, and the decoding of bytes that replaces the wrong ones.
-- A call that raises gives its error.
pub record Outside : Type 0 where
  pub identifier : ℕ → String
  pub now : ℕ
  pub clock_text : String
  pub search_rank : String → List MemoryRow → List MemoryRow
  pub resolve : List String → String → List String
  pub urlparse : String → Result RunError ParsedUrl
  pub addresses : String → Result RunError (List Address)
  pub http_response : String → Result RunError Response
  pub decode_replace : List ℕ → String

pub record ToolContext : Type 0 where
  pub outside : Outside
  pub session_id : String
  pub run_id : String
  pub workspace : List String
  pub allowed_hosts : List String

-- `arguments.get(key, "")`.
abbrev pub argument : String → List (String × String) → String
argument key [] = ""
argument key ((k, v) ∷ more) = if k == key then v else argument key more

abbrev pub Handler : Type 0
Handler = List (String × String) → ToolContext → Runtime ToolResult

pub record Tool : Type 0 where
  pub name : String
  pub description : String
  pub input_schema : String
  pub risk : RiskLevel
  pub handler : Handler

pub record ToolDecision : Type 0 where
  pub action : DecisionAction
  pub reason : String

pub record ToolPolicy : Type 0 where
  pub denied : List String
  pub require_approval : List RiskLevel

abbrev pub risk_eq : RiskLevel → RiskLevel → Bool
risk_eq low low = true
risk_eq medium medium = true
risk_eq high high = true
risk_eq _ _ = false

abbrev pub mem_risk : RiskLevel → List RiskLevel → Bool
mem_risk r [] = false
mem_risk r (x ∷ xs) = risk_eq r x || mem_risk r xs

abbrev pub risk_value : RiskLevel → String
risk_value low = "low"
risk_value medium = "medium"
risk_value high = "high"

-- `ToolPolicy(...)`: an empty set of levels counts as none given.
unfoldable pub tool_policy : List String → List RiskLevel → ToolPolicy
tool_policy denied [] = record { denied = denied; require_approval = medium ∷ high ∷ [] }
tool_policy denied (r ∷ rs) = record { denied = denied; require_approval = r ∷ rs }

-- The decision rests on a tool's name and risk.
abbrev pub decide_on : ToolPolicy → String → RiskLevel → ToolDecision
decide_on policy name risk =
    if mem_text name policy.denied
    then record {
      action = deny;
      reason = String.◌++◌ "Tool " (String.◌++◌ name " is denied by operator policy");
    }
    else if mem_risk risk policy.require_approval
    then record {
      action = approve;
      reason = String.◌++◌ (risk_value risk) "-risk tool requires operator approval";
    }
    else record { action = execute; reason = "low-risk tool allowed" }

-- `ToolPolicy.decide`.
unfoldable pub decide : ToolPolicy → Tool → ToolDecision
decide policy tool = decide_on policy tool.name tool.risk

pub record ToolRegistry : Type 0 where
  pub policy : ToolPolicy
  pub tools : List Tool

abbrev pub is_tool : String → Tool → Bool
is_tool name t = t.name == name

unfoldable pub register_tool : Tool → ToolRegistry → Option ToolRegistry
register_tool tool registry = elim (find (is_tool tool.name) registry.tools) [
  | some _ ↦ none
  | none ↦ some (record registry { tools = registry.tools ++ tool ∷ [] })
]

-- `ToolRegistry.get`.
unfoldable pub get_tool : ToolRegistry → String → Runtime Tool
get_tool registry name = or_raise (unknown_tool name) (find (is_tool name) registry.tools)

abbrev pub schemas : ToolRegistry → List ToolSchema
schemas registry =
    map (λ t. record { name = t.name; description = t.description; parameters = t.input_schema })
      registry.tools

-- `ToolRegistry.execute`.
unfoldable pub execute_call : ToolRegistry → ToolCall → ToolContext → Runtime ToolResult
execute_call registry call context = do
  tool ← get_tool registry call.name
  tool.handler call.arguments context
