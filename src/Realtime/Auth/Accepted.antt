-- ===== src/Realtime/Auth/Accepted.antt =====
-- auth.py: what an accepted session token has shown.
use evoagent_os.Base.{◌≡◌, sym, subst, ◌∙◌, inl, inr, String, true, some, eq_true, Bool-cases}
use evoagent_os.Base.Action.{ok}
use evoagent_os.Realtime.Auth.{TokenError, audience_claim_invalid, ReplayCache}
use evoagent_os.Realtime.Auth.Json.{
  Json, null, non_finite, boolean, float, array, object, text, int, claim,
}
use evoagent_os.Realtime.Auth.Tokens.{Crypto, Segments, Window, split_token, signing_input, is_text}
use evoagent_os.Realtime.Auth.Claims.{claim_string, is_claim_token}
use evoagent_os.Realtime.Auth.Session.{
  SessionTokenClaims, session_claims, read_session_token, verify_session_token,
}
use evoagent_os.Realtime.Auth.Genuine.{check_payload-IsChecked, InWindow, check_signature-genuine}
use evoagent_os.Realtime.Auth.Readings.{
  read_session_token-IsRead, then_consume_ok, session_of_payload-IsSession,
}

-- What an accepted session token has shown: its signature is the HMAC under the key of its first two
-- segments, its audience is the one asked for, it is in its time up to the clock skew, and its lifetime
-- is at least a second and within the limit.
pub record IsGenuine (crypto : Crypto) (token key audience : String) (w : Window)
    (c : SessionTokenClaims) : Type 0 where
  pub segments : Segments
  pub split : split_token token ≡ some segments
  pub signature :
      crypto.b64decode segments.signature ≡ some (crypto.hmac key (signing_input segments))
  pub audience_known : c.audience ≡ audience
  pub window : InWindow w c.issued_at c.expires_at

claim_string-text :
    (e : TokenError) (v : Json) (s t : String)
    → is_text s v ≡ true
    → claim_string e v ≡ ok t
    → t ≡ s
claim_string-text e (text a) s t h k = elim (Bool-cases (is_claim_token a)) [
  | inl valid ↦ let e' : a ≡ t = cc (rw valid at k) in sym e' ∙ eq_true a s h
  | inr bad ↦ cc (rw bad at k)
]
claim_string-text e null s t h k = cc
claim_string-text e non_finite s t h k = cc
claim_string-text e (boolean b) s t h k = cc
claim_string-text e (int n) s t h k = cc
claim_string-text e (float n) s t h k = cc
claim_string-text e (array xs) s t h k = cc
claim_string-text e (object ms) s t h k = cc

-- A session token is accepted only if it is genuine, whatever the replay cache holds.
pub verify_session_token-IsGenuine :
    (crypto : Crypto) (token key audience : String) (w : Window) (cache : ReplayCache)
    (c : SessionTokenClaims)
    → (verify_session_token crypto token key audience w cache).0 ≡ ok c
    → IsGenuine crypto token key audience w c
unfolding verify_session_token
verify_session_token-IsGenuine crypto token key audience w cache c h =
    let (read, taken, after) =
      then_consume_ok w (read_session_token crypto token key audience w) cache c h in
    let r = read_session_token-IsRead crypto token key audience w c read in
    let s = session_of_payload-IsSession r.payload c r.claims in
    let k =
      check_payload-IsChecked crypto token key audience "session" session_claims w r.payload
        r.payload r.decoded.checked in
    let iat = k.iat in
    let exp = k.exp in
    let iat' = s.issued_at in
    let exp' = s.expires_at in
    let same_iat : k.issued_at ≡ c.issued_at = cc in
    let same_exp : k.expires_at ≡ c.expires_at = cc in
    record {
      segments = r.decoded.segments;
      split = r.decoded.split;
      signature = check_signature-genuine crypto key r.decoded.segments r.decoded.signed;
      audience_known =
          claim_string-text audience_claim_invalid (claim "aud" r.payload) audience c.audience
            k.audience_known s.audience;
      window =
          subst (λ e. InWindow w c.issued_at e) same_exp
            (subst (λ i. InWindow w i k.expires_at) same_iat k.window);
    }
