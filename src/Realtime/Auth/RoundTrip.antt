-- ===== src/Realtime/Auth/RoundTrip.antt =====
-- auth.py: the session tokens that `issue_session_token` makes are read back.
mod Shapes
use Prim.Native.String
use Prim.Native.String.append
use evoagent_os.Base.{
  ℕ, ◌+◌, ◌≡◌, refl, sym, ap, subst, ◌∙◌, inl, inr, String, true, false, not, ◌&&◌, List, [], ◌∷◌,
  Option, ltb, leb, ◌==◌, eq_true, eq_self, and_true, Bool-cases,
}
use evoagent_os.Base.Texts.{le_text}
use evoagent_os.Base.Action.{ok}
use evoagent_os.Base.Results.{◌>>=◌, reject_if, bind_ok, reject_if_ok}
use evoagent_os.Realtime.Protocol.{pos}
use evoagent_os.Realtime.Auth.{
  ReplayCache, consume, TokenError, ttl_range, subject_invalid, audience_claim_invalid,
  scope_invalid, scope_unsorted, capabilities_invalid, capabilities_unsorted,
}
use evoagent_os.Realtime.Auth.Genuine.{true_of, InWindow, InWindow-check_times}
use evoagent_os.Realtime.Auth.Json.{
  text, int, array, cons, Members, member, end, canonical, canonical_items, canonical_members,
  insert_member, strict, strict_items, strict_members, has_key, claim,
}
use evoagent_os.Realtime.Auth.Tokens.{Crypto, Window, encode_token, in_range, check_payload}
use evoagent_os.Realtime.Auth.Claims.{
  claim_string, is_claim_token, jti_claim, is_jti_token, claim_strings, claim_set, count_items,
  unique_texts, texts_eq, sorted, text_items,
}
use evoagent_os.Realtime.Auth.Session.{
  verify_session_token, expiry, SessionTokenClaims, session_claims, session_payload,
  session_of_payload, read_session_token, issue_session_token, jti_or,
}
use evoagent_os.Realtime.Auth.Readings.{consumed_again}
use evoagent_os.Realtime.Auth.Issued.{Travels, decode_token-encode_token}
use Shapes.{
  claim_string-same, jti_claim-same, claim_set-same, canonical-text_items, strict-text_items,
  in_order,
}

module _ (subject audience : String) (now ttl_seconds : ℕ) (jti : String)
    (persona_scope capabilities : List String) where
  abbrev payload : Members
  payload = in_order subject audience now ttl_seconds jti persona_scope capabilities

  payload_in_order :
      canonical_members
        (session_payload subject audience now ttl_seconds jti persona_scope capabilities)
      ≡ payload
  unfolding canonical_members canonical insert_member le_text
  payload_in_order = rw (canonical-text_items persona_scope, canonical-text_items capabilities)

  payload_strict : strict_members payload ≡ true
  unfolding strict_members strict has_key
  payload_strict = rw (strict-text_items persona_scope, strict-text_items capabilities)

  payload_checked :
      (w : Window)
      → InWindow w (pos now) (pos (now + ttl_seconds))
      → check_payload audience "session" session_claims w payload ≡ ok payload
  unfolding check_payload claim
  payload_checked w h =
      rw (eq_self audience, InWindow-check_times w (pos now) (pos (now + ttl_seconds)) h)

  abbrev claims : SessionTokenClaims
  claims = record {
    subject = subject;
    audience = audience;
    issued_at = pos now;
    expires_at = pos (now + ttl_seconds);
    jti = jti;
    persona_scope = persona_scope;
    capabilities = capabilities;
  }

  payload_claims :
      claim_string subject_invalid (text subject) ≡ ok subject
      → claim_string audience_claim_invalid (text audience) ≡ ok audience
      → jti_claim (text jti) ≡ ok jti
      → claim_set scope_invalid scope_unsorted 64 (array (text_items persona_scope))
        ≡ ok persona_scope
      → claim_set capabilities_invalid capabilities_unsorted 128 (array (text_items capabilities))
        ≡ ok capabilities
      → session_of_payload payload ≡ ok claims
  unfolding session_of_payload claim
  payload_claims s a j p c = rw (s, a, j, p, c)

-- The claims that a token is issued for.
abbrev pub asked : String → String → ℕ → ℕ → String → List String → List String → SessionTokenClaims
asked subject audience now ttl_seconds jti persona_scope capabilities = record {
  subject = subject;
  audience = audience;
  issued_at = pos now;
  expires_at = pos (now + ttl_seconds);
  jti = jti;
  persona_scope = sorted persona_scope;
  capabilities = sorted capabilities;
}

module _ (crypto : Crypto) (key subject audience : String)
    (persona_scope capabilities : List String) (ttl_seconds : ℕ) (jti : Option String) (now : ℕ)
    (token : String) where
  abbrev issued_id : String
  issued_id = jti_or crypto.token_urlsafe jti

  abbrev issued_payload : Members
  issued_payload =
      session_payload subject audience now ttl_seconds issued_id (sorted persona_scope)
        (sorted capabilities)

  -- What `issue_session_token` checks of its arguments, and the payload that it encodes.
  record IsIssued : Type 0 where
    subject_known : claim_string subject_invalid (text subject) ≡ ok subject
    audience_known : claim_string audience_claim_invalid (text audience) ≡ ok audience
    jti_known : jti_claim (text issued_id) ≡ ok issued_id
    scope_known :
        claim_set scope_invalid scope_unsorted 64 (array (text_items (sorted persona_scope)))
        ≡ ok (sorted persona_scope)
    capabilities_known :
        claim_set capabilities_invalid capabilities_unsorted 128
          (array (text_items (sorted capabilities)))
        ≡ ok (sorted capabilities)
    encoded : encode_token crypto issued_payload key ≡ ok token

  issue_session_token-IsIssued :
      issue_session_token crypto key subject audience persona_scope capabilities ttl_seconds jti now
        ≡ ok token
      → IsIssued
  unfolding issue_session_token
  issue_session_token-IsIssued h =
      let (u, g, h0) =
        bind_ok (reject_if (not (in_range 1 3_600 ttl_seconds)) ttl_range) _ token h in
      let (sub, s, h1) = bind_ok (claim_string subject_invalid (text subject)) _ token h0 in
      let (aud, a, h2) = bind_ok (claim_string audience_claim_invalid (text audience)) _ token h1 in
      let (id, j, h3) = bind_ok (jti_claim (text issued_id)) _ token h2 in
      let (scope, p, h4) =
        bind_ok
          (claim_set scope_invalid scope_unsorted 64 (array (text_items (sorted persona_scope)))) _
          token h3 in
      let (able, c, h5) =
        bind_ok
          (claim_set capabilities_invalid capabilities_unsorted 128
            (array (text_items (sorted capabilities))))
          _ token h4 in
      let es = claim_string-same subject_invalid subject sub s in
      let ea = claim_string-same audience_claim_invalid audience aud a in
      let ej = jti_claim-same issued_id id j in
      let (ep, sp) =
        claim_set-same scope_invalid scope_unsorted 64 (sorted persona_scope) scope p in
      let (ec, sc) =
        claim_set-same capabilities_invalid capabilities_unsorted 128 (sorted capabilities) able
          c in
      let wp : sorted scope ≡ sorted persona_scope = ap sorted ep ∙ sp in
      let wc : sorted able ≡ sorted capabilities = ap sorted ec ∙ sc in
      record {
        subject_known = subst (λ x. claim_string subject_invalid (text subject) ≡ ok x) es s;
        audience_known =
            subst (λ x. claim_string audience_claim_invalid (text audience) ≡ ok x) ea a;
        jti_known = subst (λ x. jti_claim (text issued_id) ≡ ok x) ej j;
        scope_known =
            subst
              (λ x.
                claim_set scope_invalid scope_unsorted 64
                  (array (text_items (sorted persona_scope)))
                ≡ ok x)
              ep p;
        capabilities_known =
            subst
              (λ x.
                claim_set capabilities_invalid capabilities_unsorted 128
                  (array (text_items (sorted capabilities)))
                ≡ ok x)
              ec c;
        encoded = cc;
      }

read_session_token-issue :
    (crypto : Crypto) (key subject audience : String) (persona_scope capabilities : List String)
    (ttl_seconds : ℕ) (jti : Option String) (now : ℕ) (token : String) (w : Window)
    → issue_session_token crypto key subject audience persona_scope capabilities ttl_seconds jti now
      ≡ ok token
    → Travels crypto
        (session_payload subject audience now ttl_seconds
          (jti_or crypto.token_urlsafe jti)
          (sorted persona_scope)
          (sorted capabilities))
        key
    → ltb 16_384 (String.len token) ≡ false
    → InWindow w (pos now) (pos (now + ttl_seconds))
    → read_session_token crypto token key audience w
      ≡ ok (
          asked subject audience now ttl_seconds
            (jti_or crypto.token_urlsafe jti)
            persona_scope
            capabilities)
unfolding read_session_token
read_session_token-issue crypto key subject audience persona_scope capabilities ttl_seconds jti now
      token w h travels short window =
    let i =
      issue_session_token-IsIssued crypto key subject audience persona_scope capabilities
        ttl_seconds jti now token h in
    let id = jti_or crypto.token_urlsafe jti in
    let ps = sorted persona_scope in
    let cs = sorted capabilities in
    let order = payload_in_order subject audience now ttl_seconds id ps cs in
    let strict =
      ap strict_members order ∙ payload_strict subject audience now ttl_seconds id ps cs in
    let decoded =
      decode_token-encode_token crypto _ key travels token audience "session" session_claims w
        i.encoded short strict in
    let checked =
      ap (check_payload audience "session" session_claims w) order
      ∙ payload_checked subject audience now ttl_seconds id ps cs w window in
    ap (λ d. d >>= session_of_payload) (decoded ∙ checked)
    ∙ payload_claims subject audience now ttl_seconds id ps cs i.subject_known i.audience_known
        i.jti_known i.scope_known i.capabilities_known

-- A session token of at most 16384 bytes that is issued is verified: with libraries that let its segments
-- travel, a time in the token's window and a replay cache that takes its jti, verifying it under the same
-- key and audience gives the claims that it was issued for, with its scopes and capabilities sorted.
pub verify_session_token-issue :
    (crypto : Crypto) (key subject audience : String) (persona_scope capabilities : List String)
    (ttl_seconds : ℕ) (jti : Option String) (now : ℕ) (token : String) (w : Window)
    (cache : ReplayCache)
    → issue_session_token crypto key subject audience persona_scope capabilities ttl_seconds jti now
      ≡ ok token
    → Travels crypto
        (session_payload subject audience now ttl_seconds
          (jti_or crypto.token_urlsafe jti)
          (sorted persona_scope)
          (sorted capabilities))
        key
    → ltb 16_384 (String.len token) ≡ false
    → InWindow w (pos now) (pos (now + ttl_seconds))
    → (consume (jti_or crypto.token_urlsafe jti) (expiry w (pos (now + ttl_seconds))) w.now cache).0
      ≡ ok tt
    → (verify_session_token crypto token key audience w cache).0
      ≡ ok (
          asked subject audience now ttl_seconds
            (jti_or crypto.token_urlsafe jti)
            persona_scope
            capabilities)
unfolding verify_session_token
verify_session_token-issue crypto key subject audience persona_scope capabilities ttl_seconds jti
      now token w cache h travels short window taken =
    consumed_again w (read_session_token crypto token key audience w) cache
      (asked subject audience now ttl_seconds (jti_or crypto.token_urlsafe jti) persona_scope
        capabilities)
      (read_session_token-issue crypto key subject audience persona_scope capabilities ttl_seconds
        jti now token w h travels short window)
      taken
