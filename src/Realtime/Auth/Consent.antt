-- ===== src/Realtime/Auth/Consent.antt =====
-- auth.py: consent assertions.
use evoagent_os.Base.{
  ℕ, ◌+◌, String, Bool, not, List, [], ◌∷◌, Option, ltb, mem_text, all, length, ◌==◌, if◌then◌else◌,
}
use evoagent_os.Base.Action.{Action, Result, ok, err}
use evoagent_os.Base.Results.{◌>>=◌, ◌>>◌, reject_if}
use evoagent_os.Base.Texts.{le_text}
use evoagent_os.Realtime.Protocol.{ℤ, pos}
use evoagent_os.Realtime.Auth.{
  TokenError, ReplayCache, audience_claim_invalid, persona_invalid, subject_invalid,
  consent_invalid, consent_subject_invalid, revision_invalid, digest_invalid, hashes_invalid,
  hash_kind_invalid, hash_invalid, consent_scope_invalid, consent_scope_unsorted,
  scope_insufficient, reference_mismatch, ttl_range,
}
use evoagent_os.Realtime.Auth.Json.{
  Json, text, array, int, object, Members, member, end, claim, keys,
}
use evoagent_os.Realtime.Auth.Tokens.{
  Crypto, Window, as_int, decode_token, encode_token, in_range, same_keys,
}
use evoagent_os.Realtime.Auth.Claims.{
  claim_string, jti_claim, claim_set, sorted, text_items, is_sha256,
}
use evoagent_os.Realtime.Auth.Session.{then_consume, where_consumed, jti_or}

pub record ConsentAssertionClaims : Type 0 where
  pub subject : String
  pub audience : String
  pub issued_at : ℤ
  pub expires_at : ℤ
  pub jti : String
  pub persona_id : String
  pub consent_id : String
  pub revision : ℕ
  pub manifest_digest : String
  pub scopes : List String
  pub reference_hashes : List (String × String)

abbrev pub consent_claims : List String
consent_claims =
    "kind" ∷ "sub" ∷ "aud" ∷ "iat" ∷ "exp" ∷ "jti" ∷ "persona_id" ∷ "consent_id" ∷ "revision"
    ∷ "manifest_digest" ∷ "scopes" ∷ "reference_hashes" ∷ []

abbrev pub revision_claim : Json → Result TokenError ℕ
revision_claim (int (pos n)) = ok n
revision_claim _ = err revision_invalid

abbrev pub sha256_claim : TokenError → Json → Result TokenError String
sha256_claim e (text s) = if is_sha256 s then ok s else err e
sha256_claim e _ = err e

-- The loop over `raw_hashes.items()`.
unfoldable pub read_hashes : Members → Result TokenError (List (String × String))
read_hashes end = ok []
read_hashes (member kind digest more) = do
  reject_if (not (mem_text kind ("image" ∷ "voice" ∷ []))) hash_kind_invalid
  d ← sha256_claim hash_invalid digest
  rest ← read_hashes more
  ok ((kind, d) ∷ rest)

abbrev pub hashes_claim : Json → Result TokenError (List (String × String))
hashes_claim (object ms) = reject_if (ltb 2 (length (keys ms))) hashes_invalid >> read_hashes ms
hashes_claim _ = err hashes_invalid

-- `verify_consent_assertion` up to the replay cache.
unfoldable pub read_consent_assertion :
    Crypto → String → String → String → Window → Result TokenError ConsentAssertionClaims
read_consent_assertion crypto token key audience w = do
  payload ← decode_token crypto token key audience "consent" consent_claims w
  persona_id ← claim_string persona_invalid (claim "persona_id" payload)
  subject ← claim_string subject_invalid (claim "sub" payload)
  reject_if (not (subject == persona_id)) consent_subject_invalid
  revision ← revision_claim (claim "revision" payload)
  manifest_digest ← sha256_claim digest_invalid (claim "manifest_digest" payload)
  hashes ← hashes_claim (claim "reference_hashes" payload)
  claimed ← claim_string audience_claim_invalid (claim "aud" payload)
  issued_at ← as_int (claim "iat" payload)
  expires_at ← as_int (claim "exp" payload)
  jti ← jti_claim (claim "jti" payload)
  consent_id ← claim_string consent_invalid (claim "consent_id" payload)
  scopes ← claim_set consent_scope_invalid consent_scope_unsorted 32 (claim "scopes" payload)
  ok (record {
    subject = subject;
    audience = claimed;
    issued_at = issued_at;
    expires_at = expires_at;
    jti = jti;
    persona_id = persona_id;
    consent_id = consent_id;
    revision = revision;
    manifest_digest = manifest_digest;
    scopes = scopes;
    reference_hashes = hashes;
  })

-- `verify_consent_assertion` with a replay cache and `consume=True`.
unfoldable pub verify_consent_assertion :
    Crypto
    → String
    → String
    → String
    → Window
    → Action ReplayCache TokenError ConsentAssertionClaims
verify_consent_assertion crypto token key audience w =
    then_consume (λ c. c.jti) (λ c. c.expires_at) w
      (read_consent_assertion crypto token key audience w)

-- `verify_consent_assertion` with any `consume` and `replay_cache`.
unfoldable pub verify_consent_call :
    Crypto
    → String
    → String
    → String
    → Window
    → Bool
    → Action (Option ReplayCache) TokenError ConsentAssertionClaims
verify_consent_call crypto token key audience w consumes =
    where_consumed consumes (read_consent_assertion crypto token key audience w)
      (verify_consent_assertion crypto token key audience w)

abbrev pub kinds : List (String × String) → List String
kinds [] = []
kinds ((kind, digest) ∷ more) = kind ∷ kinds more

abbrev pub digest_of : String → List (String × String) → String
digest_of kind [] = ""
digest_of kind ((k, digest) ∷ more) = if k == kind then digest else digest_of kind more

-- `authorize_consent_claims`.
unfoldable pub authorize_consent_claims :
    ConsentAssertionClaims → String → List (String × String) → Result TokenError Unit
authorize_consent_claims claims required_scope expected = do
  reject_if (not (mem_text required_scope claims.scopes)) scope_insufficient
  reject_if (not (same_keys (kinds claims.reference_hashes) (kinds expected))) reference_mismatch
  reject_if (not (all (λ e. digest_of e.0 claims.reference_hashes == e.1) expected))
      reference_mismatch

unfoldable pub insert_hash : String × String → List (String × String) → List (String × String)
insert_hash h [] = h ∷ []
insert_hash h (g ∷ more) =
    let rest = insert_hash h more in if le_text h.0 g.0 then h ∷ g ∷ more else g ∷ rest

-- `sorted(reference_hashes.items())`, whose keys differ.
unfoldable pub sorted_hashes : List (String × String) → List (String × String)
sorted_hashes [] = []
sorted_hashes (h ∷ more) = insert_hash h (sorted_hashes more)

abbrev pub text_members : List (String × String) → Members
text_members [] = end
text_members ((k, v) ∷ more) = member k (text v) (text_members more)

-- `issue_consent_assertion`.
unfoldable pub issue_consent_assertion :
    Crypto
    → String
    → String
    → String
    → String
    → ℕ
    → String
    → List String
    → List (String × String)
    → ℕ
    → Option String
    → ℕ
    → Result TokenError String
issue_consent_assertion crypto key audience persona_id consent_id revision manifest_digest scopes
      reference_hashes ttl_seconds jti now =
    do
      reject_if (not (in_range 1 3_600 ttl_seconds)) ttl_range
      digest ← sha256_claim digest_invalid (text manifest_digest)
      hashes ← hashes_claim (object (text_members (sorted_hashes reference_hashes)))
      persona ← claim_string persona_invalid (text persona_id)
      aud ← claim_string audience_claim_invalid (text audience)
      id ← jti_claim (text (jti_or crypto.token_urlsafe jti))
      consent ← claim_string consent_invalid (text consent_id)
      allowed ←
          claim_set consent_scope_invalid consent_scope_unsorted 32
            (array (text_items (sorted scopes)))
      encode_token crypto
          (member "kind" (text "consent") (
            member "sub" (text persona) (
              member "aud" (text aud) (
                member "iat" (int (pos now)) (
                  member "exp" (int (pos (now + ttl_seconds))) (
                    member "jti" (text id) (
                      member "persona_id" (text persona) (
                        member "consent_id" (text consent) (
                          member "revision" (int (pos revision)) (
                            member "manifest_digest" (text digest) (
                              member "scopes" (array (text_items (sorted allowed))) (
                                member "reference_hashes" (object (text_members hashes))
                                  end))))))))))))
          key
