-- ===== src/Realtime/Auth/Tests.antt =====
-- A session token that is issued, verified, refused and replayed, and the theorems there.
use evoagent_os.Base.{
  ℕ, ◌≡◌, ◌≤◌, refl, arith, String, true, false, List, [], ◌∷◌, Option, none, some, ◌==◌,
  if◌then◌else◌, nat_eq, length,
}
use evoagent_os.Base.Action.{ok, err}
use evoagent_os.Base.Rows.{find, select}
use evoagent_os.Base.Texts.{all_chars, le_text}
use evoagent_os.Realtime.Protocol.{pos}
use evoagent_os.Realtime.Auth.{TokenError, ReplayCache, replay_cache, consume}
use evoagent_os.Realtime.Auth.Json.{
  Json, text, int, array, object, nil, cons, Members, member, end, has_key, strict, strict_items,
  strict_members, claim, canonical, canonical_items, canonical_members, insert_member,
}
use evoagent_os.Realtime.Auth.Tokens.{
  Crypto, Window, token_header, strict_json_object, b64decode, cut, split_token, check_times,
  check_payload, read_payload, check_signature, signing_key, decode_token, encode_token,
}
use evoagent_os.Realtime.Auth.Claims.{
  is_claim_token, is_jti_token, insert_text, sorted, claim_strings, claim_set,
}
use evoagent_os.Realtime.Auth.Session.{
  SessionTokenClaims, session_of_payload, session_payload, issue_session_token, read_session_token,
  verify_session_token, verify_session_call,
}
use evoagent_os.Realtime.Auth.Consent.{verify_consent_assertion}
use evoagent_os.Realtime.Auth.Issued.{Travels}
use evoagent_os.Realtime.Auth.RoundTrip.{asked, verify_session_token-issue}
use evoagent_os.Realtime.Auth.Genuine.{InWindow}
use evoagent_os.Realtime.Auth.Replay.{Attempt, attempts}
use evoagent_os.Realtime.Auth.Capacity.{attempts-IsBounded}
use evoagent_os.Realtime.Auth.OneTime.{verify_session_token_once, verify_session_token_replayed}
use evoagent_os.Realtime.Auth.Calls.{verify_session_call_twice}
use evoagent_os.Realtime.Auth.Accepted.{IsGenuine, verify_session_token-IsGenuine}
use evoagent_os.Realtime.Auth.Kinds.{verify_session_token-apart}

abbrev digest : List ℕ
digest =
    0 ∷ 0 ∷ 0 ∷ 0 ∷ 0 ∷ 0 ∷ 0 ∷ 0 ∷ 0 ∷ 0 ∷ 0 ∷ 0 ∷ 0 ∷ 0 ∷ 0 ∷ 0 ∷ 0 ∷ 0 ∷ 0 ∷ 0 ∷ 0 ∷ 0 ∷ 0 ∷ 0
    ∷ 0 ∷ 0 ∷ 0 ∷ 0 ∷ 0 ∷ 0 ∷ 0 ∷ 0 ∷ []

abbrev issued_payload : Members
issued_payload = member "aud" (text "studio") (
    member "capabilities" (array (cons (text "talk") nil)) (
      member "exp" (int (pos 100)) (
        member "iat" (int (pos 90)) (
          member "jti" (text "0123456789abcdef") (
            member "kind" (text "session") (
              member "persona_scope" (array (cons (text "host") nil))
                (member "sub" (text "ann") end)))))))

abbrev encoded : List ℕ → String
encoded [] = ""
encoded (n ∷ _) = if nat_eq n 1 then "H" else if nat_eq n 2 then "P" else "S"

abbrev parsed : List ℕ → Option Json
parsed (n ∷ []) = if nat_eq n 1 then some (object token_header) else some (object issued_payload)
parsed _ = none

abbrev toy : Crypto
toy = record {
  hmac = λ key input. digest;
  b64decode = λ s.
      if s == "H"
      then some (1 ∷ [])
      else if s == "P"
      then some (2 ∷ [])
      else if s == "S"
      then some digest
      else none;
  b64encode = encoded;
  parse = parsed;
  dumps = λ payload. if has_key "alg" payload then 1 ∷ [] else 2 ∷ [];
  token_urlsafe = "0123456789abcdef";
}

abbrev studio_key : String
studio_key = "0123456789abcdef0123456789abcdef"

abbrev token : String
token = "H.P.S"

abbrev window : Window
window = record { max_lifetime_seconds = 300; clock_skew_seconds = 5; now = 99 }

abbrev fresh : ReplayCache
fresh = record { max_entries = 2; entries = [] }

abbrev claims : SessionTokenClaims
claims = record {
  subject = "ann";
  audience = "studio";
  issued_at = pos 90;
  expires_at = pos 100;
  jti = "0123456789abcdef";
  persona_scope = "host" ∷ [];
  capabilities = "talk" ∷ [];
}

accepted : (verify_session_token toy token studio_key "studio" window fresh).0 ≡ ok claims
unfolding verify_session_token read_session_token session_of_payload decode_token signing_key
    split_token cut all_chars check_signature read_payload strict_json_object b64decode strict
    strict_items strict_members has_key check_payload check_times claim claim_set claim_strings
    sorted insert_text le_text is_claim_token is_jti_token consume find select
accepted = refl

abbrev other_calls : List Attempt
other_calls = record { jti = "fedcba9876543210"; expires_at = 200; at = 100 } ∷ []

abbrev at_second : ℕ → Window
at_second now = record window { now = now }

fresh_made : replay_cache 2 ≡ some fresh
unfolding replay_cache
fresh_made = refl

attempts-IsBounded_example : length (attempts other_calls fresh).entries ≤ 2
attempts-IsBounded_example = attempts-IsBounded 2 fresh other_calls fresh_made

verify_session_token_once_example :
    (e : TokenError) × ((verify_session_token toy token studio_key "studio" (at_second 104) (
        attempts other_calls (verify_session_token toy token studio_key "studio" window fresh).1)).0
      ≡ err e)
verify_session_token_once_example =
    verify_session_token_once toy token studio_key "studio" window fresh claims other_calls
      studio_key "studio" (at_second 104) accepted (omega arith, tt) (omega arith)

called : (verify_session_call toy token studio_key "studio" window true (some fresh)).0 ≡ ok claims
unfolding verify_session_call
called = accepted

verify_session_call_twice_example :
    ((other : Option ReplayCache)
      → verify_session_call toy token studio_key "studio" window false other ≡ (ok claims, other))
    × ((e : TokenError) × ((verify_session_call toy token studio_key "studio" window true
            (verify_session_call toy token studio_key "studio" window true (some fresh)).1).0
          ≡ err e))
verify_session_call_twice_example =
    verify_session_call_twice toy token studio_key "studio" window fresh claims called

verify_session_token_replayed_example :
    (verify_session_token toy token studio_key "studio"
      (at_second 105)
      (verify_session_token toy token studio_key "studio" window fresh).1).0
    ≡ ok claims
verify_session_token_replayed_example =
    verify_session_token_replayed toy token studio_key "studio" window fresh claims 105 accepted
      (omega arith) refl

verify_session_token-IsGenuine_example : IsGenuine toy token studio_key "studio" window claims
verify_session_token-IsGenuine_example =
    verify_session_token-IsGenuine toy token studio_key "studio" window fresh claims accepted

verify_session_token-apart_example :
    (e : TokenError) × ((verify_consent_assertion toy token studio_key "studio" window fresh).0
      ≡ err e)
verify_session_token-apart_example =
    verify_session_token-apart toy token studio_key "studio" studio_key "studio" window window fresh
      fresh claims accepted

token_issued :
    issue_session_token toy studio_key "ann" "studio" ("host" ∷ []) ("talk" ∷ []) 10 none 90
    ≡ ok token
unfolding issue_session_token encode_token signing_key canonical_members canonical canonical_items
    insert_member has_key claim_set claim_strings sorted insert_text le_text is_claim_token
    is_jti_token all_chars
token_issued = refl

abbrev asked_payload : Members
asked_payload =
    session_payload "ann" "studio" 90 10 "0123456789abcdef" (sorted ("host" ∷ []))
      (sorted ("talk" ∷ []))

toy-Travels : Travels toy asked_payload studio_key
unfolding canonical_members canonical canonical_items insert_member has_key sorted insert_text
    le_text all_chars
toy-Travels = record {
  header = record { segment = refl; decoded = refl };
  payload = record { segment = refl; decoded = refl };
  signature = record { segment = refl; decoded = refl };
  header_read = refl;
  payload_read = refl;
  digest_size = refl;
}

window-InWindow : InWindow window (pos 90) (pos 100)
window-InWindow = record {
  lifetime_range = refl;
  skew_range = refl;
  started = refl;
  lasting = refl;
  lifetime = refl;
}

jti_free : (consume "0123456789abcdef" 104 99 fresh).0 ≡ ok tt
unfolding consume find select
jti_free = refl

verify_session_token-issue_example :
    (verify_session_token toy token studio_key "studio" window fresh).0
    ≡ ok (asked "ann" "studio" 90 10 "0123456789abcdef" ("host" ∷ []) ("talk" ∷ []))
verify_session_token-issue_example =
    verify_session_token-issue toy studio_key "ann" "studio" ("host" ∷ []) ("talk" ∷ []) 10 none 90
      token window fresh token_issued toy-Travels refl window-InWindow jti_free
