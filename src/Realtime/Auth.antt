-- ===== src/Realtime/Auth.antt =====
-- services/realtime/src/echoweave/auth.py: the failures of its functions, and `ReplayCache`.
pub mod Json
pub mod Tokens
pub mod Claims
pub mod Session
pub mod Consent
pub mod Replay
pub mod Capacity
pub mod Genuine
pub mod Readings
pub mod OneTime
pub mod Calls
pub mod Accepted
pub mod Issued
pub mod RoundTrip
pub mod Kinds
mod Tests
use evoagent_os.Base.{
  ℕ, zero, suc, String, Bool, true, false, List, [], ◌∷◌, ◌++◌, Option, none, some, leb, length,
  ◌==◌, if◌then◌else◌,
}
use evoagent_os.Base.Rows.{find, select}
use evoagent_os.Base.Action.{Action, ok, err, pure, raise, gets, modify, raise_if, ◌>>=◌, ◌>>◌}

-- The messages of `TokenValidationError`, and of ValueError for an argument out of range. Repeated claims
-- and numbers that are not finite share one.
pub data TokenError : Type 0 where
  token_used cache_full : TokenError
  token_invalid encoding_invalid signature_invalid payload_invalid duplicate_claims : TokenError
  header_invalid claims_invalid audience_invalid timestamps_invalid : TokenError
  not_yet_valid token_expired lifetime_invalid : TokenError
  subject_invalid audience_claim_invalid jti_invalid scope_invalid scope_unsorted : TokenError
  capabilities_invalid capabilities_unsorted : TokenError
  persona_invalid consent_invalid consent_subject_invalid revision_invalid digest_invalid :
      TokenError
  hashes_invalid hash_kind_invalid hash_invalid consent_scope_invalid consent_scope_unsorted :
      TokenError
  persona_denied capabilities_denied scope_insufficient reference_mismatch : TokenError
  key_too_short max_lifetime_range skew_range ttl_range max_entries_range : TokenError

pub record ReplayCache : Type 0 where
  pub max_entries : ℕ
  pub entries : List (String × ℕ)

-- `ReplayCache.__init__`.
unfoldable pub replay_cache : ℕ → Option ReplayCache
replay_cache zero = none
replay_cache (suc n) =
    if leb (suc n) 1_000_000 then some (record { max_entries = suc n; entries = [] }) else none

abbrev pub is_jti : String → String × ℕ → Bool
is_jti jti entry = entry.0 == jti

-- An entry that `consume` keeps at a time.
abbrev pub is_live : ℕ → String × ℕ → Bool
is_live current entry = leb current entry.1

abbrev pub purge : ℕ → ReplayCache → ReplayCache
purge current cache = record cache { entries = select (is_live current) cache.entries }

abbrev pub is_some : {A : Type 0} → Option A → Bool
is_some none = false
is_some (some a) = true

-- `ReplayCache.consume`: what it purges stays purged when it raises.
unfoldable pub consume : String → ℕ → ℕ → Action ReplayCache TokenError Unit
consume jti expires_at current = do
  modify (purge current)
  used ← gets (λ cache. is_some (find (is_jti jti) cache.entries))
  raise_if used token_used
  full ← gets (λ cache. leb cache.max_entries (length cache.entries))
  raise_if full cache_full
  modify (λ cache. record cache { entries = cache.entries ++ (jti, expires_at) ∷ [] })
