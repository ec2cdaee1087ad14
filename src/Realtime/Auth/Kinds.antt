-- ===== src/Realtime/Auth/Kinds.antt =====
-- auth.py: session tokens and consent assertions are kept apart.
use evoagent_os.Base.{◌≡◌, refl, sym, ap, subst, ◌∙◌, String, List, true, false, ◌==◌, eq_true}
use evoagent_os.Base.Action.{Result, ok, err}
use evoagent_os.Base.Results.{bind_ok}
use evoagent_os.Realtime.Auth.{TokenError, ReplayCache}
use evoagent_os.Realtime.Auth.Json.{
  Json, null, non_finite, boolean, int, float, text, array, object, Members, claim,
}
use evoagent_os.Realtime.Auth.Tokens.{Crypto, Window, decode_token, is_text}
use evoagent_os.Realtime.Auth.Session.{
  SessionTokenClaims, session_claims, read_session_token, then_consume, verify_session_token,
}
use evoagent_os.Realtime.Auth.Consent.{
  ConsentAssertionClaims, consent_claims, read_consent_assertion, verify_consent_assertion,
}
use evoagent_os.Realtime.Auth.Genuine.{decode_token-IsDecoded, check_payload-IsChecked}
use evoagent_os.Realtime.Auth.Readings.{payload_same, then_consume_ok}

is_text_same : (a b : String) (v : Json) → is_text a v ≡ true → is_text b v ≡ true → a ≡ b
is_text_same a b (text t) h k = sym (eq_true t a h) ∙ eq_true t b k
is_text_same a b null h k = cc
is_text_same a b non_finite h k = cc
is_text_same a b (boolean x) h k = cc
is_text_same a b (int n) h k = cc
is_text_same a b (float n) h k = cc
is_text_same a b (array xs) h k = cc
is_text_same a b (object ms) h k = cc

kinds_differ : ◌≡◌ {A = String} "session" "consent" → ⊥
kinds_differ e = let clash : true ≡ false = ap (λ k. k == "session") e in cc

-- The kind of a token's payload, whatever key, audience and window it was read with.
kind_same :
    (crypto : Crypto) (token key audience kind key' audience' kind' : String) (w w' : Window)
    (p p' : Members) (expected expected' : List String)
    → decode_token crypto token key audience kind expected w ≡ ok p
    → decode_token crypto token key' audience' kind' expected' w' ≡ ok p'
    → kind ≡ kind'
kind_same crypto token key audience kind key' audience' kind' w w' p p' expected expected' h h' =
    let a = decode_token-IsDecoded crypto token key audience kind expected w p h in
    let b = decode_token-IsDecoded crypto token key' audience' kind' expected' w' p' h' in
    let e = payload_same crypto token a.segments b.segments p p' a.split b.split a.read b.read in
    let k = check_payload-IsChecked crypto token key audience kind expected w p p a.checked in
    let k' =
      check_payload-IsChecked crypto token key' audience' kind' expected' w' p' p' b.checked in
    is_text_same kind kind' (claim "kind" p')
      (subst (λ x. is_text kind (claim "kind" x) ≡ true) e k.kind_known) k'.kind_known

refused_consent :
    (w : Window) (r : Result TokenError ConsentAssertionClaims) (cache : ReplayCache)
    → ((d : ConsentAssertionClaims) → r ≡ ok d → ⊥)
    → (e : TokenError) × ((then_consume (λ x. x.jti) (λ x. x.expires_at) w r cache).0 ≡ err e)
refused_consent w (err e) cache never = (e, refl)
refused_consent w (ok d) cache never = absurd (never d refl)

-- A token that is accepted as a session token is refused as a consent assertion, under whatever key,
-- audience, window and replay cache.
pub verify_session_token-apart :
    (crypto : Crypto) (token key audience key' audience' : String) (w w' : Window)
    (cache cache' : ReplayCache) (c : SessionTokenClaims)
    → (verify_session_token crypto token key audience w cache).0 ≡ ok c
    → (e : TokenError) × ((verify_consent_assertion crypto token key' audience' w' cache').0
        ≡ err e)
unfolding verify_session_token verify_consent_assertion read_session_token read_consent_assertion
verify_session_token-apart crypto token key audience key' audience' w w' cache cache' c h =
    let (read, taken, after) =
      then_consume_ok w (read_session_token crypto token key audience w) cache c h in
    let (p, decoded, claims) =
      bind_ok (decode_token crypto token key audience "session" session_claims w) _ c read in
    refused_consent w' (read_consent_assertion crypto token key' audience' w') cache' (λ d read'.
      let (p', decoded', claims') =
        bind_ok (decode_token crypto token key' audience' "consent" consent_claims w') _ d read' in
      let e =
        kind_same crypto token key audience "session" key' audience' "consent" w w' p p'
          session_claims consent_claims decoded decoded' in
      kinds_differ e)
