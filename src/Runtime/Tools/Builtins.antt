-- ===== src/Runtime/Tools/Builtins.antt =====
-- tools.py: the built-in tools, those of the workspace among them.
use Prim.Native.String
use evoagent_os.Base.{
  ℕ, String, Bool, true, false, not, ◌&&◌, ◌||◌, List, [], ◌∷◌, Option, none, some, map, ltb, ◌==◌,
  if◌then◌else◌,
}
use evoagent_os.Base.Rows.{find}
use evoagent_os.Base.Texts.{strip}
use evoagent_os.Base.Action.{pure, gets, modify, or_raise, raise_if, ◌>>=◌, ◌>>◌}
use evoagent_os.Runtime.Store.{
  low, medium, high, memory_stored, memory_matches, file_read, file_written, other, text_required,
  path_escapes, no_file, file_too_large, no_directory, not_in_subpath, undecodable, FileContent,
  utf8, binary, MemoryRow, Runtime,
}
use evoagent_os.Runtime.Records.{remember}
use evoagent_os.Runtime.Tools.{
  Outside, Tool, ToolContext, ToolPolicy, ToolRegistry, Handler, argument, register_tool,
}
use evoagent_os.Runtime.Tools.Web.{http_get}

unfoldable pub clock_now : Handler
clock_now arguments context = pure (other context.outside.clock_text)

unfoldable pub memory_remember : Handler
memory_remember arguments context = do
  let text = strip (argument "text" arguments)
  raise_if (text == "") text_required
  memory_id ← remember context.outside.identifier context.outside.now context.session_id text
  pure (memory_stored memory_id)

-- The first `n` of a list.
abbrev pub limit_five : List MemoryRow → List MemoryRow
limit_five (a ∷ b ∷ c ∷ d ∷ e ∷ _) = a ∷ b ∷ c ∷ d ∷ e ∷ []
limit_five rows = rows

-- `search_memory(query, limit=5)`: the best matches of the index.
unfoldable pub search_memory : Outside → String → Runtime (List MemoryRow)
search_memory outside query = gets (λ s. limit_five (outside.search_rank query s.memories))

unfoldable pub memory_search : Handler
memory_search arguments context = do
  rows ← search_memory context.outside (strip (argument "query" arguments))
  pure (memory_matches (map (λ r. r.text) rows))

-- `root in candidate.parents`, or the root itself.
abbrev pub is_within : List String → List String → Bool
is_within [] candidate = true
is_within (p ∷ ps) [] = false
is_within (p ∷ ps) (q ∷ qs) = p == q && is_within ps qs

unfoldable pub safe_workspace_path : ToolContext → String → Runtime (List String)
safe_workspace_path context relative = do
  let candidate = context.outside.resolve context.workspace relative
  raise_if (not (is_within (context.outside.resolve context.workspace "") candidate)) path_escapes
  pure candidate

abbrev pub path_eq : List String → List String → Bool
path_eq [] [] = true
path_eq (p ∷ ps) (q ∷ qs) = p == q && path_eq ps qs
path_eq _ _ = false

abbrev pub is_file : List String → List String × FileContent → Bool
is_file path f = path_eq f.0 path

abbrev pub join_path : List String → String
join_path [] = ""
join_path (p ∷ ps) = String.◌++◌ p (String.◌++◌ "/" (join_path ps))

-- `path.relative_to(workspace)` raises unless the path is below the workspace as it is written; the
-- workspace is not resolved here.
abbrev pub relative_to : List String → List String → Option (List String)
relative_to [] path = some path
relative_to (p ∷ ps) [] = none
relative_to (p ∷ ps) (q ∷ qs) = if p == q then relative_to ps qs else none

-- `path.stat().st_size`.
abbrev pub size : FileContent → ℕ
size (utf8 text) = String.len text
size (binary n) = n

-- `path.read_text(encoding="utf-8")`.
abbrev pub read_text : FileContent → Option String
read_text (utf8 text) = some text
read_text (binary n) = none

unfoldable pub workspace_read : Handler
workspace_read arguments context = do
  path ← safe_workspace_path context (argument "path" arguments)
  found ← gets (λ s. find (is_file path) s.files)
  file ← or_raise no_file found
  raise_if (ltb 1_000_000 (size file.1)) file_too_large
  below ← or_raise not_in_subpath (relative_to context.workspace path)
  content ← or_raise undecodable (read_text file.1)
  pure (file_read (join_path below) content)

-- A file cannot stand where a directory does, nor below a file.
abbrev pub is_blocked : List String → List (List String × FileContent) → Bool
is_blocked path [] = false
is_blocked path (f ∷ fs) =
    ((is_within f.0 path || is_within path f.0) && not (is_file path f)) || is_blocked path fs

unfoldable pub write_file :
    List String → String → List (List String × FileContent) → List (List String × FileContent)
write_file path content [] = (path, utf8 content) ∷ []
write_file path content (f ∷ fs) =
    let rest = write_file path content fs in
    if is_file path f then (path, utf8 content) ∷ fs else f ∷ rest

unfoldable pub workspace_write : Handler
workspace_write arguments context = do
  path ← safe_workspace_path context (argument "path" arguments)
  let content = argument "content" arguments
  raise_if (ltb 1_000_000 (String.len content)) file_too_large
  taken ← gets (λ s. is_blocked path s.files)
  raise_if (path_eq path (context.outside.resolve context.workspace "") || taken) no_directory
  modify (λ s. record s { files = write_file path content s.files })
  below ← or_raise not_in_subpath (relative_to context.workspace path)
  pure (file_written (join_path below) (String.len content))

unfoldable pub builtin_tools : List Tool
unfolding clock_now memory_remember memory_search workspace_read workspace_write http_get
builtin_tools =
    record {
      name = "clock.now";
      description = "Return current UTC time";
      input_schema = "{}";
      risk = low;
      handler = clock_now;
    }
    ∷ record {
      name = "memory.remember";
      description = "Persist a useful fact or preference";
      input_schema = "{text}";
      risk = low;
      handler = memory_remember;
    }
    ∷ record {
      name = "memory.search";
      description = "Search persistent memory";
      input_schema = "{query}";
      risk = low;
      handler = memory_search;
    }
    ∷ record {
      name = "workspace.read";
      description = "Read a UTF-8 file inside the configured workspace";
      input_schema = "{path}";
      risk = medium;
      handler = workspace_read;
    }
    ∷ record {
      name = "workspace.write";
      description = "Write a UTF-8 file inside the configured workspace";
      input_schema = "{path, content}";
      risk = high;
      handler = workspace_write;
    }
    ∷ record {
      name = "http.get";
      description = "Fetch an operator-allowlisted HTTPS URL";
      input_schema = "{url}";
      risk = high;
      handler = http_get;
    }
    ∷ []

unfoldable pub register_all : List Tool → ToolRegistry → Option ToolRegistry
unfolding register_tool
register_all [] registry = some registry
register_all (t ∷ ts) registry = elim (register_tool t registry) [
  | none ↦ none
  | some registry' ↦ register_all ts registry'
]

-- `builtins(policy)`. The schemas name the properties that they require.
unfoldable pub builtins : ToolPolicy → Option ToolRegistry
unfolding register_all
builtins policy = register_all builtin_tools (record { policy = policy; tools = [] })
