-- ===== src/Runtime/Tools/Tests.antt =====
-- The built-in tools under a policy, and the theorem there.
use evoagent_os.Base.{◌≡◌, [], ◌∷◌, some}
use evoagent_os.Runtime.Store.{Store, high}
use evoagent_os.Runtime.Records.{ToolCall}
use evoagent_os.Runtime.Tools.{ToolContext, ToolRegistry, ToolPolicy, execute_call}
use evoagent_os.Runtime.Tools.Builtins.{builtins}
use evoagent_os.Runtime.Tools.Sparing.{IsSpared}
use evoagent_os.Runtime.Tools.Workspace.{builtins-IsSpared}

abbrev careful : ToolPolicy
careful = record { denied = "http.get" ∷ []; require_approval = high ∷ [] }

builtins-IsSpared_example :
    (registry : ToolRegistry) × (builtins careful ≡ some registry)
    × ((call : ToolCall) (context : ToolContext) (s : Store)
        → IsSpared context s (execute_call registry call context s).1)
builtins-IsSpared_example = builtins-IsSpared careful
