-- ===== src/Realtime/Auth/OneTime.antt =====
-- auth.py: a session token and its replays.
use evoagent_os.Base.{ℕ, ◌≤◌, ◌<◌, ◌≡◌, refl, sym, subst, arith, String, false, List}
use evoagent_os.Base.Action.{Result, ok, err}
use evoagent_os.Realtime.Protocol.{ℤ, pos, negsuc}
use evoagent_os.Realtime.Auth.{TokenError, token_used, ReplayCache, consume}
use evoagent_os.Realtime.Auth.Tokens.{Crypto, Window, lt_ℤ, plus}
use evoagent_os.Realtime.Auth.Session.{
  SessionTokenClaims, read_session_token, expiry, then_consume, verify_session_token,
}
use evoagent_os.Realtime.Auth.Replay.{
  Attempt, attempts, AllUntil, Holds, consume-Holds, attempts-Holds, Holds-refuses, consume_again,
}
use evoagent_os.Realtime.Auth.Readings.{
  consumed_again, read_session_token-same, then_consume_ok, at_time, read_session_token-later,
}

refused :
    (w : Window) (r : Result TokenError SessionTokenClaims) (cache : ReplayCache)
    (c : SessionTokenClaims)
    → ((d : SessionTokenClaims) → r ≡ ok d → c ≡ d)
    → ((e : ℕ) → (consume c.jti e w.now cache).0 ≡ err token_used)
    → (e : TokenError) × ((then_consume (λ x. x.jti) (λ x. x.expires_at) w r cache).0 ≡ err e)
refused w (err e) cache c same used = (e, refl)
refused w (ok d) cache c same used =
    let e = same d refl in
    let taken =
      subst (λ x. (consume x.jti (expiry w d.expires_at) w.now cache).0 ≡ err token_used) e
        (used (expiry w d.expires_at)) in
    (token_used, rw taken)

-- A session token that was accepted is not accepted again while its entry lasts: after any further calls
-- of `consume` up to then, verifying it is refused, under whatever key, audience and window, up to the
-- time max(expires_at, now + clock skew) of the first verification.
pub verify_session_token_once :
    (crypto : Crypto) (token key audience : String) (w : Window) (cache : ReplayCache)
    (c : SessionTokenClaims) (later : List Attempt) (key' audience' : String) (w' : Window)
    → (verify_session_token crypto token key audience w cache).0 ≡ ok c
    → AllUntil (expiry w c.expires_at) later
    → w'.now ≤ expiry w c.expires_at
    → (e : TokenError) × ((verify_session_token crypto token key' audience' w'
          (attempts later (verify_session_token crypto token key audience w cache).1)).0
        ≡ err e)
unfolding verify_session_token
verify_session_token_once crypto token key audience w cache c later key' audience' w' h early now =
    let (read, taken, after) =
      then_consume_ok w (read_session_token crypto token key audience w) cache c h in
    let until = expiry w c.expires_at in
    let first : Holds c.jti until (verify_session_token crypto token key audience w cache).1 =
      subst (Holds c.jti until) (sym after) (consume-Holds c.jti until w.now cache taken) in
    let held = attempts-Holds c.jti until later _ early first in
    refused w' (read_session_token crypto token key' audience' w')
      (attempts later (verify_session_token crypto token key audience w cache).1) c
      (λ d read'.
        read_session_token-same crypto token key key' audience audience' w w' c d read read')
      (λ e. Holds-refuses c.jti until e w'.now _ now held)

-- A session token that was accepted is accepted a second time, with the same claims, once the time of its
-- entry, max(expires_at, now + clock skew) of the first verification, has passed and the clock skew still
-- lets it through: now' at most expires_at + clock skew.
pub verify_session_token_replayed :
    (crypto : Crypto) (token key audience : String) (w : Window) (cache : ReplayCache)
    (c : SessionTokenClaims) (now' : ℕ)
    → (verify_session_token crypto token key audience w cache).0 ≡ ok c
    → expiry w c.expires_at < now'
    → lt_ℤ (plus c.expires_at w.clock_skew_seconds) (pos now') ≡ false
    → (verify_session_token crypto token key audience
        (at_time w now')
        (verify_session_token crypto token key audience w cache).1).0
      ≡ ok c
unfolding verify_session_token
verify_session_token_replayed crypto token key audience w cache c now' h late lasting =
    let (read, taken, after) =
      then_consume_ok w (read_session_token crypto token key audience w) cache c h in
    let until = expiry w c.expires_at in
    let again =
      read_session_token-later crypto token key audience w now' c read
        (expiry_after w c.expires_at now' late) lasting in
    consumed_again (at_time w now') (read_session_token crypto token key audience (at_time w now'))
      (verify_session_token crypto token key audience w cache).1 c again
      (rw after (
        consume_again c.jti until w.now (expiry (at_time w now') c.expires_at) now' cache taken
          late))
  where
    expiry_after : (w : Window) (e : ℤ) (now' : ℕ) → expiry w e < now' → w.now ≤ now'
    expiry_after w (pos a) now' h = ground arith
    expiry_after w (negsuc a) now' h = omega (arith, h)
