-- ===== src/Runtime/Tools/Web.antt =====
-- tools.py: `http_get` with `_validate_host`. The host and the network are asked through `Outside`.
use evoagent_os.Base.{
  ℕ, zero, suc, String, Bool, false, not, ◌||◌, List, [], ◌∷◌, Option, none, some, mem_text, ltb,
  length, ◌==◌, if◌then◌else◌,
}
use evoagent_os.Base.Action.{pure, or_raise, returned, raise_if, ◌>>=◌, ◌>>◌}
use evoagent_os.Runtime.Store.{
  ToolResult, http_answer, not_https, host_not_allowed, internal_address, Runtime,
}
use evoagent_os.Runtime.Tools.{
  Address, Outside, ParsedUrl, Response, ToolContext, Handler, argument,
}

abbrev pub is_internal : Address → Bool
is_internal a = a.is_private || a.is_loopback || a.is_link_local || a.is_reserved

abbrev pub any_internal : List Address → Bool
any_internal [] = false
any_internal (a ∷ more) = is_internal a || any_internal more

-- `_validate_host`.
unfoldable pub validate_host : ToolContext → String → Runtime Unit
validate_host context host = do
  raise_if (not (mem_text host context.allowed_hosts)) host_not_allowed
  found ← returned (context.outside.addresses host)
  raise_if (any_internal found) internal_address

-- The host of a URL that is asked for; None and the empty text are no host.
abbrev pub secure_host : ParsedUrl → Option String
secure_host parsed =
    if parsed.scheme == "https"
    then elim parsed.hostname [ none ↦ none | some host ↦ if host == "" then none else some host ]
    else none

abbrev pub take_bytes : ℕ → List ℕ → List ℕ
take_bytes zero bytes = []
take_bytes (suc n) [] = []
take_bytes (suc n) (b ∷ bytes) = b ∷ take_bytes n bytes

abbrev pub http_result : Outside → Response → ToolResult
http_result outside response =
    let body = take_bytes 1_000_000 response.content in
    http_answer response.status_code (elim response.content_type [ none ↦ "" | some kind ↦ kind ])
      (outside.decode_replace body) (ltb (length body) (length response.content))

unfoldable pub http_get : Handler
http_get arguments context = do
  let url = argument "url" arguments
  parsed ← returned (context.outside.urlparse url)
  host ← or_raise not_https (secure_host parsed)
  validate_host context host
  response ← returned (context.outside.http_response url)
  pure (http_result context.outside response)
