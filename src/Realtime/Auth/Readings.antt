-- ===== src/Realtime/Auth/Readings.antt =====
-- auth.py: how a session token is read, at one time and at a later one.
use evoagent_os.Base.{ℕ, ◌+◌, ◌≤◌, ◌≡◌, refl, ap, subst, ◌∙◌, arith, String, false, some}
use evoagent_os.Base.Action.{Result, ok, err}
use evoagent_os.Base.Results.{◌>>=◌, bind_ok}
use evoagent_os.Realtime.Protocol.{ℤ, pos, negsuc}
use evoagent_os.Realtime.Auth.{
  TokenError, subject_invalid, audience_claim_invalid, scope_invalid, scope_unsorted,
  capabilities_invalid, capabilities_unsorted, ReplayCache, consume,
}
use evoagent_os.Realtime.Auth.Json.{Members, claim}
use evoagent_os.Realtime.Auth.Tokens.{
  Crypto, Segments, Window, as_int, split_token, read_payload, decode_token, lt_ℤ, plus,
}
use evoagent_os.Realtime.Auth.Claims.{claim_string, jti_claim, claim_set}
use evoagent_os.Realtime.Auth.Session.{
  SessionTokenClaims, session_claims, session_of_payload, read_session_token, expiry, then_consume,
}
use evoagent_os.Realtime.Auth.Genuine.{
  IsDecoded, decode_token-IsDecoded, IsDecoded-again, check_payload-IsChecked,
  IsChecked-check_payload, InWindow,
}

-- A token whose session claims were read, with the payload that they come from.
pub record IsRead (crypto : Crypto) (token key audience : String) (w : Window)
    (c : SessionTokenClaims) : Type 0 where
  pub payload : Members
  pub decoded : IsDecoded crypto token key audience "session" session_claims w payload
  pub claims : session_of_payload payload ≡ ok c

pub read_session_token-IsRead :
    (crypto : Crypto) (token key audience : String) (w : Window) (c : SessionTokenClaims)
    → read_session_token crypto token key audience w ≡ ok c
    → IsRead crypto token key audience w c
unfolding read_session_token
read_session_token-IsRead crypto token key audience w c h =
    let (p, decoded, claims) =
      bind_ok (decode_token crypto token key audience "session" session_claims w) session_of_payload
        c h in
    record {
      payload = p;
      decoded =
          decode_token-IsDecoded crypto token key audience "session" session_claims w p decoded;
      claims = claims;
    }

-- A token has the same payload however it is read.
pub payload_same :
    (crypto : Crypto) (token : String) (t t' : Segments) (p p' : Members)
    → split_token token ≡ some t
    → split_token token ≡ some t'
    → read_payload crypto t ≡ ok p
    → read_payload crypto t' ≡ ok p'
    → p ≡ p'
payload_same crypto token t t' p p' s s' r r' =
    let e : t ≡ t' = cc in let r'' = subst (λ x. read_payload crypto x ≡ ok p) e r in cc

pub read_session_token-same :
    (crypto : Crypto) (token key key' audience audience' : String) (w w' : Window)
    (c c' : SessionTokenClaims)
    → read_session_token crypto token key audience w ≡ ok c
    → read_session_token crypto token key' audience' w' ≡ ok c'
    → c ≡ c'
read_session_token-same crypto token key key' audience audience' w w' c c' h h' =
    let a = read_session_token-IsRead crypto token key audience w c h in
    let b = read_session_token-IsRead crypto token key' audience' w' c' h' in
    let e =
      payload_same crypto token _ _ a.payload b.payload a.decoded.split b.decoded.split
        a.decoded.read b.decoded.read in
    let r = subst (λ x. session_of_payload x ≡ ok c) e a.claims in let r' = b.claims in cc

-- What a verification that returns has done to the cache.
pub then_consume_ok :
    (w : Window) (r : Result TokenError SessionTokenClaims) (cache : ReplayCache)
    (c : SessionTokenClaims)
    → (then_consume (λ x. x.jti) (λ x. x.expires_at) w r cache).0 ≡ ok c
    → (r ≡ ok c)
      × ((consume c.jti (expiry w c.expires_at) w.now cache).0 ≡ ok tt)
      × ((then_consume (λ x. x.jti) (λ x. x.expires_at) w r cache).1
          ≡ (consume c.jti (expiry w c.expires_at) w.now cache).1)
then_consume_ok w (err e) cache c h = cc
then_consume_ok w (ok d) cache c h =
    let (u, taken, same) =
      bind_ok (consume d.jti (expiry w d.expires_at) w.now cache).0 (λ _. ok d) c h in
    let e : d ≡ c = cc in
    (
      ap ok e,
      subst (λ x. (consume x.jti (expiry w x.expires_at) w.now cache).0 ≡ ok tt) e taken,
      ap (λ x. (consume x.jti (expiry w x.expires_at) w.now cache).1) e,
    )

-- Claims that were read, with a jti that is taken, are returned.
pub consumed_again :
    (w : Window) (r : Result TokenError SessionTokenClaims) (cache : ReplayCache)
    (c : SessionTokenClaims)
    → r ≡ ok c
    → (consume c.jti (expiry w c.expires_at) w.now cache).0 ≡ ok tt
    → (then_consume (λ x. x.jti) (λ x. x.expires_at) w r cache).0 ≡ ok c
consumed_again w r cache c h taken = rw (h, taken)

-- The claims of a payload are those that the checks of its times and audience saw.
pub record IsSession (p : Members) (c : SessionTokenClaims) : Type 0 where
  pub audience : claim_string audience_claim_invalid (claim "aud" p) ≡ ok c.audience
  pub issued_at : as_int (claim "iat" p) ≡ ok c.issued_at
  pub expires_at : as_int (claim "exp" p) ≡ ok c.expires_at

pub session_of_payload-IsSession :
    (p : Members) (c : SessionTokenClaims) → session_of_payload p ≡ ok c → IsSession p c
unfolding session_of_payload
session_of_payload-IsSession p c h =
    let (subject, h0, k0) = bind_ok (claim_string subject_invalid (claim "sub" p)) _ c h in
    let (claimed, h1, k1) = bind_ok (claim_string audience_claim_invalid (claim "aud" p)) _ c k0 in
    let (issued_at, h2, k2) = bind_ok (as_int (claim "iat" p)) _ c k1 in
    let (expires_at, h3, k3) = bind_ok (as_int (claim "exp" p)) _ c k2 in
    let (jti, h4, k4) = bind_ok (jti_claim (claim "jti" p)) _ c k3 in
    let (scope, h5, k5) =
      bind_ok (claim_set scope_invalid scope_unsorted 64 (claim "persona_scope" p)) _ c k4 in
    let (able, h6, k6) =
      bind_ok (claim_set capabilities_invalid capabilities_unsorted 128 (claim "capabilities" p)) _
        c k5 in
    let built : SessionTokenClaims = record {
      subject = subject;
      audience = claimed;
      issued_at = issued_at;
      expires_at = expires_at;
      jti = jti;
      persona_scope = scope;
      capabilities = able;
    } in
    let same : built ≡ c = cc in
    subst (IsSession p) same (record { audience = h1; issued_at = h2; expires_at = h3 })

abbrev pub at_time : Window → ℕ → Window
at_time w now = record w { now = now }

started_later :
    (i : ℤ) (now now' skew : ℕ)
    → now ≤ now'
    → lt_ℤ (pos (now + skew)) i ≡ false
    → lt_ℤ (pos (now' + skew)) i ≡ false
started_later (pos a) now now' skew h e = ground arith
started_later (negsuc a) now now' skew h e = refl

InWindow-later :
    (w : Window) (now' : ℕ) (i e : ℤ)
    → InWindow w i e
    → w.now ≤ now'
    → lt_ℤ (plus e w.clock_skew_seconds) (pos now') ≡ false
    → InWindow (at_time w now') i e
InWindow-later w now' i e h later lasting = record {
  lifetime_range = h.lifetime_range;
  skew_range = h.skew_range;
  started = started_later i w.now now' w.clock_skew_seconds later h.started;
  lasting = lasting;
  lifetime = h.lifetime;
}

-- A token that was read is read again at a later time, up to its expiry and the clock skew.
pub read_session_token-later :
    (crypto : Crypto) (token key audience : String) (w : Window) (now' : ℕ) (c : SessionTokenClaims)
    → read_session_token crypto token key audience w ≡ ok c
    → w.now ≤ now'
    → lt_ℤ (plus c.expires_at w.clock_skew_seconds) (pos now') ≡ false
    → read_session_token crypto token key audience (at_time w now') ≡ ok c
unfolding read_session_token
read_session_token-later crypto token key audience w now' c h later lasting =
    let r = read_session_token-IsRead crypto token key audience w c h in
    let p = r.payload in
    let s = session_of_payload-IsSession p c r.claims in
    let k =
      check_payload-IsChecked crypto token key audience "session" session_claims w p p
        r.decoded.checked in
    let exp = k.exp in
    let exp' = s.expires_at in
    let same : c.expires_at ≡ k.expires_at = cc in
    let shifted =
      InWindow-later w now' k.issued_at k.expires_at k.window later
        (subst (λ e. lt_ℤ (plus e w.clock_skew_seconds) (pos now') ≡ false) same lasting) in
    let checked =
      IsChecked-check_payload crypto token key audience "session" session_claims (at_time w now') p
        (record {
          keys_known = k.keys_known;
          kind_known = k.kind_known;
          audience_known = k.audience_known;
          issued_at = k.issued_at;
          expires_at = k.expires_at;
          iat = k.iat;
          exp = k.exp;
          window = shifted;
        }) in
    let again =
      IsDecoded-again crypto token key audience "session" session_claims w (at_time w now') p
        r.decoded checked in
    ap (λ d. d >>= session_of_payload) again ∙ r.claims
