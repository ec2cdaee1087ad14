-- ===== src/Realtime/Auth/Session.antt =====
-- auth.py: session tokens.
use evoagent_os.Base.{
  ℕ, ◌+◌, String, Bool, true, false, not, List, [], ◌∷◌, Option, none, some, ltb, mem_text, all,
  ◌==◌, if◌then◌else◌,
}
use evoagent_os.Base.Action.{Action, Result, ok, err}
use evoagent_os.Base.Results.{◌>>=◌, ◌>>◌, reject_if}
use evoagent_os.Realtime.Protocol.{ℤ, pos, negsuc}
use evoagent_os.Realtime.Auth.{
  TokenError, ReplayCache, consume, subject_invalid, audience_claim_invalid, scope_invalid,
  scope_unsorted, capabilities_invalid, capabilities_unsorted, persona_denied, capabilities_denied,
  ttl_range,
}
use evoagent_os.Realtime.Auth.Json.{text, array, int, Members, member, end, claim}
use evoagent_os.Realtime.Auth.Tokens.{Crypto, Window, as_int, decode_token, encode_token, in_range}
use evoagent_os.Realtime.Auth.Claims.{claim_string, jti_claim, claim_set, sorted, text_items}

pub record SessionTokenClaims : Type 0 where
  pub subject : String
  pub audience : String
  pub issued_at : ℤ
  pub expires_at : ℤ
  pub jti : String
  pub persona_scope : List String
  pub capabilities : List String

abbrev pub session_claims : List String
session_claims =
    "kind" ∷ "sub" ∷ "aud" ∷ "iat" ∷ "exp" ∷ "jti" ∷ "persona_scope" ∷ "capabilities" ∷ []

-- The claims of a payload.
unfoldable pub session_of_payload : Members → Result TokenError SessionTokenClaims
session_of_payload payload = do
  subject ← claim_string subject_invalid (claim "sub" payload)
  claimed ← claim_string audience_claim_invalid (claim "aud" payload)
  issued_at ← as_int (claim "iat" payload)
  expires_at ← as_int (claim "exp" payload)
  jti ← jti_claim (claim "jti" payload)
  persona_scope ← claim_set scope_invalid scope_unsorted 64 (claim "persona_scope" payload)
  capabilities ←
      claim_set capabilities_invalid capabilities_unsorted 128 (claim "capabilities" payload)
  ok (record {
    subject = subject;
    audience = claimed;
    issued_at = issued_at;
    expires_at = expires_at;
    jti = jti;
    persona_scope = persona_scope;
    capabilities = capabilities;
  })

-- `verify_session_token` up to the replay cache.
unfoldable pub read_session_token :
    Crypto → String → String → String → Window → Result TokenError SessionTokenClaims
read_session_token crypto token key audience w =
    decode_token crypto token key audience "session" session_claims w >>= session_of_payload

-- `max(expires_at, current + clock_skew_seconds)`.
abbrev pub max_ℤ : ℤ → ℕ → ℕ
max_ℤ (pos a) n = if ltb a n then n else a
max_ℤ (negsuc a) n = n

abbrev pub expiry : Window → ℤ → ℕ
expiry w expires_at = max_ℤ expires_at (w.now + w.clock_skew_seconds)

-- The claims that were read, and the jti in the cache.
abbrev pub then_consume :
    {A : Type 0}
    → (A → String)
    → (A → ℤ)
    → Window
    → Result TokenError A
    → Action ReplayCache TokenError A
then_consume jti expires_at w (err e) cache = (err e, cache)
then_consume jti expires_at w (ok claims) cache =
    let (r, cache') = consume (jti claims) (expiry w (expires_at claims)) w.now cache in
    (r >> ok claims, cache')

-- `if consume and replay_cache is not None`: the call that consumes the jti is made on the cache, or
-- the claims are only read.
abbrev pub where_consumed :
    {A : Type 0}
    → Bool
    → Result TokenError A
    → Action ReplayCache TokenError A
    → Action (Option ReplayCache) TokenError A
where_consumed consumes reading consuming none = (reading, none)
where_consumed false reading consuming (some cache) = (reading, some cache)
where_consumed true reading consuming (some cache) =
    let (r, cache') = consuming cache in (r, some cache')

-- `verify_session_token` with a replay cache and `consume=True`.
unfoldable pub verify_session_token :
    Crypto → String → String → String → Window → Action ReplayCache TokenError SessionTokenClaims
verify_session_token crypto token key audience w =
    then_consume (λ c. c.jti) (λ c. c.expires_at) w (read_session_token crypto token key audience w)

-- `verify_session_token` with any `consume` and `replay_cache`.
unfoldable pub verify_session_call :
    Crypto
    → String
    → String
    → String
    → Window
    → Bool
    → Action (Option ReplayCache) TokenError SessionTokenClaims
verify_session_call crypto token key audience w consumes =
    where_consumed consumes (read_session_token crypto token key audience w)
      (verify_session_token crypto token key audience w)

-- `authorize_session_claims`.
unfoldable pub authorize_session_claims :
    SessionTokenClaims → String → List String → Result TokenError Unit
authorize_session_claims claims persona_id capabilities = do
  reject_if (not (mem_text persona_id claims.persona_scope)) persona_denied
  reject_if (not (all (λ c. mem_text c claims.capabilities) capabilities)) capabilities_denied

-- `jti or secrets.token_urlsafe(24)`.
abbrev pub jti_or : String → Option String → String
jti_or drawn none = drawn
jti_or drawn (some jti) = if jti == "" then drawn else jti

abbrev pub session_payload : String → String → ℕ → ℕ → String → List String → List String → Members
session_payload subject audience now ttl_seconds jti persona_scope capabilities =
    member "kind" (text "session") (
      member "sub" (text subject) (
        member "aud" (text audience) (
          member "iat" (int (pos now)) (
            member "exp" (int (pos (now + ttl_seconds))) (
              member "jti" (text jti) (
                member "persona_scope" (array (text_items persona_scope))
                  (member "capabilities" (array (text_items capabilities)) end)))))))

-- `issue_session_token`.
unfoldable pub issue_session_token :
    Crypto
    → String
    → String
    → String
    → List String
    → List String
    → ℕ
    → Option String
    → ℕ
    → Result TokenError String
issue_session_token crypto key subject audience persona_scope capabilities ttl_seconds jti now = do
  reject_if (not (in_range 1 3_600 ttl_seconds)) ttl_range
  sub ← claim_string subject_invalid (text subject)
  aud ← claim_string audience_claim_invalid (text audience)
  id ← jti_claim (text (jti_or crypto.token_urlsafe jti))
  scope ← claim_set scope_invalid scope_unsorted 64 (array (text_items (sorted persona_scope)))
  able ←
      claim_set capabilities_invalid capabilities_unsorted 128
        (array (text_items (sorted capabilities)))
  encode_token crypto (session_payload sub aud now ttl_seconds id (sorted scope) (sorted able)) key
