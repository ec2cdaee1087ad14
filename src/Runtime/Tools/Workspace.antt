-- ===== src/Runtime/Tools/Workspace.antt =====
-- tools.py: what the built-in tools leave alone.
mod Writes
use Prim.Native.String
use evoagent_os.Base.{
  ℕ, ◌≡◌, refl, sym, ap, subst, String, true, false, not, ◌||◌, List, [], ◌∷◌, some, Option-cases,
  Bool-cases, inl, inr, if◌then◌else◌, ◌==◌, mem_text, all, eq_true, and_true, ltb,
}
use evoagent_os.Base.Rows.{find}
use evoagent_os.Base.Action.{◌>>=◌, ◌>>◌, pure, modify, raise_if, or_raise, gets}
use evoagent_os.Runtime.Store.{
  no_file, file_too_large, no_directory, host_not_allowed, internal_address, not_https, file_read,
  file_written, not_in_subpath, undecodable, FileContent, Store, MemoryRow,
}
use evoagent_os.Runtime.Records.{ToolCall, remember, insert_memory, new_id}
use evoagent_os.Runtime.Tools.{
  ToolContext, Tool, ToolPolicy, ToolRegistry, argument, is_tool, execute_call, get_tool,
  register_tool,
}
use evoagent_os.Runtime.Tools.Builtins.{
  clock_now, memory_remember, memory_search, search_memory, workspace_read, workspace_write,
  safe_workspace_path, size, read_text, is_blocked, join_path, relative_to, write_file, path_eq,
  is_file, is_within, builtin_tools, register_all, builtins,
}
use evoagent_os.Runtime.Tools.Web.{http_get, validate_host, any_internal, secure_host, http_result}
use evoagent_os.Runtime.Tools.Sparing.{
  IsSpared, IsSpared-refl, Sparing, Sparing-bind, Sparing-gets, Sparing-or_raise, Sparing-pure,
  Sparing-raise_if, Sparing-returned,
}
use Writes.{workspace_write-Sparing}

insert_memory-Sparing : (context : ToolContext) (m : MemoryRow) → Sparing context (insert_memory m)
unfolding insert_memory
insert_memory-Sparing context m = record {
  at = λ s. elim (Option-cases (find (λ r. r.memory_id == m.memory_id) s.memories)) [
    | inl n ↦
        rw (n, insert_memory) (record { runs = refl; approvals = refl; outside = λ p h. refl })
    | inr (r, n) ↦ rw (n, insert_memory) (IsSpared-refl context s)
  ];
}

new_id-Sparing :
    (context : ToolContext) (identifier : ℕ → String) → Sparing context (new_id identifier)
unfolding new_id
new_id-Sparing context identifier = record {
  at = λ s. record { runs = refl; approvals = refl; outside = λ p h. refl };
}

remember-Sparing :
    (context : ToolContext) (identifier : ℕ → String) (now : ℕ) (session_id text : String)
    → Sparing context (remember identifier now session_id text)
unfolding remember
remember-Sparing context identifier now session_id text =
    Sparing-bind context _ _ (new_id-Sparing context identifier) (λ id.
      Sparing-bind context _ _ (insert_memory-Sparing context _) (λ _. Sparing-pure context _))

memory_remember-Sparing :
    (arguments : List (String × String)) (context : ToolContext)
    → Sparing context (memory_remember arguments context)
unfolding memory_remember
memory_remember-Sparing arguments context =
    Sparing-bind context _ _ (Sparing-raise_if context _ _) (λ _.
      Sparing-bind context _ _ (remember-Sparing context _ _ _ _) (λ id. Sparing-pure context _))

clock_now-Sparing :
    (arguments : List (String × String)) (context : ToolContext)
    → Sparing context (clock_now arguments context)
unfolding clock_now
clock_now-Sparing arguments context = record { at = IsSpared-refl context }

memory_search-Sparing :
    (arguments : List (String × String)) (context : ToolContext)
    → Sparing context (memory_search arguments context)
unfolding memory_search search_memory
memory_search-Sparing arguments context = record { at = IsSpared-refl context }

safe_workspace_path-Sparing :
    (context : ToolContext) (relative : String)
    → Sparing context (safe_workspace_path context relative)
unfolding safe_workspace_path
safe_workspace_path-Sparing context relative =
    Sparing-bind context _ _ (Sparing-raise_if context _ _) (λ _. Sparing-pure context _)

workspace_read-Sparing :
    (arguments : List (String × String)) (context : ToolContext)
    → Sparing context (workspace_read arguments context)
unfolding workspace_read
workspace_read-Sparing arguments context =
    Sparing-bind context _ _ (safe_workspace_path-Sparing context _) (λ path.
      Sparing-bind context _ _ (Sparing-gets context (λ s. find (is_file path) s.files)) (λ found.
        Sparing-bind context _ _ (Sparing-or_raise context no_file found) (λ file.
          Sparing-bind context _ _
            (Sparing-raise_if context (ltb 1_000_000 (size file.1)) file_too_large)
            (λ _.
              Sparing-bind context _ _
                (Sparing-or_raise context not_in_subpath (relative_to context.workspace path))
                (λ below.
                  Sparing-bind context _ _ (Sparing-or_raise context undecodable (read_text file.1))
                    (λ content. Sparing-pure context (file_read (join_path below) content)))))))

validate_host-Sparing :
    (context : ToolContext) (host : String) → Sparing context (validate_host context host)
unfolding validate_host
validate_host-Sparing context host =
    Sparing-bind context _ _
      (Sparing-raise_if context (not (mem_text host context.allowed_hosts)) host_not_allowed)
      (λ _.
        Sparing-bind context _ _ (Sparing-returned context (context.outside.addresses host))
          (λ found. Sparing-raise_if context (any_internal found) internal_address))

http_get-Sparing :
    (arguments : List (String × String)) (context : ToolContext)
    → Sparing context (http_get arguments context)
unfolding http_get
http_get-Sparing arguments context =
    let url = argument "url" arguments in
    Sparing-bind context _ _ (Sparing-returned context (context.outside.urlparse url)) (λ parsed.
      Sparing-bind context _ _ (Sparing-or_raise context not_https (secure_host parsed)) (λ host.
        Sparing-bind context _ _ (validate_host-Sparing context host) (λ _.
          Sparing-bind context _ _ (Sparing-returned context (context.outside.http_response url))
            (λ response. Sparing-pure context (http_result context.outside response)))))

abbrev Spares : Tool → Type 0
Spares tool =
    (arguments : List (String × String)) (context : ToolContext)
    → Sparing context (tool.handler arguments context)

abbrev AllSpare : List Tool → Type 0
AllSpare [] = Unit
AllSpare (t ∷ ts) = Spares t × AllSpare ts

builtin_tools-AllSpare : AllSpare builtin_tools
unfolding builtin_tools
builtin_tools-AllSpare = (
  clock_now-Sparing,
  (
    memory_remember-Sparing,
    (
      memory_search-Sparing,
      (workspace_read-Sparing, (workspace_write-Sparing, (http_get-Sparing, tt))),
    ),
  ),
)

find-Spares :
    (name : String) (tools : List Tool) (tool : Tool)
    → AllSpare tools
    → find (is_tool name) tools ≡ some tool
    → Spares tool
unfolding find
find-Spares name [] tool all h = cc
find-Spares name (t ∷ ts) tool all h = elim (Bool-cases (is_tool name t)) [
  | inl e ↦ let same : t ≡ tool = cc (rw e at h) in subst Spares same all.0
  | inr e ↦ find-Spares name ts tool all.1 (rw e at h)
]

builtins-tools :
    (policy : ToolPolicy)
    → builtins policy ≡ some (record { policy = policy; tools = builtin_tools })
unfolding builtins register_all register_tool find builtin_tools
builtins-tools policy = refl

execute_call-IsSpared :
    (registry : ToolRegistry) (call : ToolCall) (context : ToolContext) (s : Store)
    → AllSpare registry.tools
    → IsSpared context s (execute_call registry call context s).1
unfolding execute_call get_tool
execute_call-IsSpared registry call context s all =
    elim (Option-cases (find (is_tool call.name) registry.tools)) [
      | inl n ↦ rw (n, execute_call) (IsSpared-refl context s)
      | inr (tool, n) ↦
          rw (n, execute_call)
            ((find-Spares call.name registry.tools tool all n call.arguments context).at s)
    ]

-- `builtins` always returns a registry. Whatever call of it is executed, and whether that returns or
-- raises, the tables of runs and approvals and every file outside the resolved workspace stay as they
-- are.
pub builtins-IsSpared :
    (policy : ToolPolicy)
    → (registry : ToolRegistry) × (builtins policy ≡ some registry)
      × ((call : ToolCall) (context : ToolContext) (s : Store)
          → IsSpared context s (execute_call registry call context s).1)
builtins-IsSpared policy = (
  record { policy = policy; tools = builtin_tools },
  builtins-tools policy,
  λ call context s. execute_call-IsSpared _ call context s builtin_tools-AllSpare,
)

-- The built-in handlers leave the runs and the approvals alone.
pub builtin_tool-IsSpared :
    (name : String) (tool : Tool) (arguments : List (String × String)) (context : ToolContext)
    (s : Store)
    → find (is_tool name) builtin_tools ≡ some tool
    → IsSpared context s (tool.handler arguments context s).1
builtin_tool-IsSpared name tool arguments context s h =
    (find-Spares name builtin_tools tool builtin_tools-AllSpare h arguments context).at s
