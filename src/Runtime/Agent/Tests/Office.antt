-- ===== src/Runtime/Agent/Tests/Office.antt =====
-- Agents with tools that are executed, held back or raise, and a database with a run that waits.
use evoagent_os.Base.{ℕ, zero, suc, String, [], ◌∷◌, none, some}
use evoagent_os.Base.Action.{ok, err, pure, raise}
use evoagent_os.Runtime.Store.{
  low, high, pending, awaiting_approval, no_directory, raised, other, PromptState, PromptRow,
  ApprovalRow, RunRow, Store,
}
use evoagent_os.Runtime.Records.{ModelTurn}
use evoagent_os.Runtime.Tools.{Outside, Tool, ToolRegistry}
use evoagent_os.Runtime.Tools.Web.{http_get}
use evoagent_os.Runtime.Tools.Builtins.{builtin_tools}
use evoagent_os.Runtime.Agent.{AgentRuntime, Envelope}

abbrev drawn_identifier : ℕ → String
drawn_identifier zero = "id_0"
drawn_identifier (suc zero) = "id_1"
drawn_identifier (suc (suc n)) = "id_2"

abbrev world : Outside
world = record {
  identifier = drawn_identifier;
  now = 7;
  clock_text = "noon";
  search_rank = λ query rows. rows;
  resolve = λ workspace relative. workspace;
  urlparse = λ url. ok (record { scheme = url; hostname = none });
  addresses = λ host. ok [];
  http_response = λ url. err (raised "no network");
  decode_replace = λ bytes. "";
}

abbrev pub clock : Tool
clock = record {
  name = "clock";
  description = "The time";
  input_schema = "{}";
  risk = low;
  handler = λ arguments context. pure (other "noon");
}

abbrev pub mailer : Tool
mailer = record {
  name = "mail";
  description = "Sends";
  input_schema = "{}";
  risk = high;
  handler = λ arguments context. raise no_directory;
}

abbrev quiet_mailer : Tool
quiet_mailer = record mailer { handler = λ arguments context. pure (other "sent") }

abbrev pub office : ToolRegistry
office = record {
  policy = record { denied = []; require_approval = high ∷ [] };
  tools = clock ∷ mailer ∷ [];
}

abbrev pub quiet_office : ToolRegistry
quiet_office = record office { tools = clock ∷ quiet_mailer ∷ [] }

abbrev turn_calling : String → ModelTurn
turn_calling name = record {
  text = "";
  tool_calls = record { id = "call"; name = name; arguments = [] } ∷ [];
  model = "model";
  input_tokens = 1;
  output_tokens = 1;
}

-- The clock is asked for first, then a mail is sent.
abbrev scripted : ℕ → ModelTurn
scripted zero = turn_calling "clock"
scripted (suc n) = turn_calling "mail"

abbrev pub agent : AgentRuntime
agent = record {
  outside = world;
  workspace = [];
  tools = office;
  allowed_hosts = [];
  max_tool_steps = 3;
  complete = λ step messages tools. ok (scripted step);
  sha256 = λ text. text;
  dumps = λ result. "result";
}

abbrev pub request : Envelope
request = record {
  channel = "web";
  peer_id = "peer";
  session_id = some "session";
  text = "Mail the time.";
}

abbrev pub served_prompt : PromptRow
served_prompt = record {
  version = 1;
  prompt = "Be careful.";
  state = PromptState.active;
  score = none;
  parent_version = none;
  created_at = 0;
}

abbrev pub waiting_run : RunRow
waiting_run = record {
  run_id = "run";
  session_id = "session";
  status = awaiting_approval;
  input_text = "Mail the time.";
  output_text = none;
  error = none;
  prompt_version = 1;
  usage = none;
  created_at = 0;
  updated_at = 0;
}

abbrev pub waiting_approval : ApprovalRow
waiting_approval = record {
  approval_id = "approval";
  run_id = "run";
  session_id = "session";
  tool_name = "mail";
  arguments = [];
  reason = "high-risk tool requires operator approval";
  status = pending;
  actor = none;
  created_at = 0;
  decided_at = none;
}

abbrev pub database : Store
database = record {
  sessions = [];
  messages = [];
  runs = waiting_run ∷ [];
  events = [];
  memories = [];
  approvals = waiting_approval ∷ [];
  prompts = served_prompt ∷ [];
  feedback = [];
  candidates = [];
  jobs = [];
  files = [];
  drawn = 0;
}

-- The built-in tools, and an approval of a GET of a URL that is not HTTPS.
abbrev pub equipped : AgentRuntime
equipped = record agent {
  tools = record {
    policy = record { denied = []; require_approval = high ∷ [] };
    tools = builtin_tools;
  };
}

abbrev pub fetch_approval : ApprovalRow
fetch_approval = record waiting_approval {
  tool_name = "http.get";
  arguments = ("url", "http://example.org") ∷ [];
}

abbrev pub fetch_database : Store
fetch_database = record database { approvals = fetch_approval ∷ [] }

abbrev pub fetcher : Tool
fetcher = record {
  name = "http.get";
  description = "Fetch an operator-allowlisted HTTPS URL";
  input_schema = "{url}";
  risk = high;
  handler = http_get;
}
