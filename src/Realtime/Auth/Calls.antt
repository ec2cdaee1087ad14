-- ===== src/Realtime/Auth/Calls.antt =====
-- auth.py: `verify_session_token` with `consume=False` beside the calls with `consume=True`. The gateway
-- checks a token first and consumes it afterwards.
use evoagent_os.Base.{◌≤◌, ◌≡◌, refl, ap, ◌∙◌, arith, String, true, false, [], Option, none, some}
use evoagent_os.Base.Action.{Action, Result, ok, err}
use evoagent_os.Realtime.Protocol.{ℤ, pos, negsuc}
use evoagent_os.Realtime.Auth.{TokenError, ReplayCache}
use evoagent_os.Realtime.Auth.Tokens.{Crypto, Window}
use evoagent_os.Realtime.Auth.Session.{
  SessionTokenClaims, read_session_token, expiry, where_consumed, verify_session_token,
  verify_session_call,
}
use evoagent_os.Realtime.Auth.Readings.{then_consume_ok}
use evoagent_os.Realtime.Auth.Replay.{attempts}
use evoagent_os.Realtime.Auth.OneTime.{verify_session_token_once}

where_consumed-read :
    {A : Type 0} (r : Result TokenError A) (consuming : Action ReplayCache TokenError A)
    (cache : Option ReplayCache)
    → where_consumed false r consuming cache ≡ (r, cache)
where_consumed-read r consuming none = refl
where_consumed-read r consuming (some cache) = refl

now_within : (w : Window) (e : ℤ) → w.now ≤ expiry w e
now_within w (pos a) = ground arith
now_within w (negsuc a) = omega arith

read_of_verified :
    (crypto : Crypto) (token key audience : String) (w : Window) (cache : ReplayCache)
    (c : SessionTokenClaims)
    → (verify_session_token crypto token key audience w cache).0 ≡ ok c
    → read_session_token crypto token key audience w ≡ ok c
unfolding verify_session_token
read_of_verified crypto token key audience w cache c h =
    (then_consume_ok w (read_session_token crypto token key audience w) cache c h).0

-- A session token that a consuming call accepts: a call that does not consume, with any cache or none,
-- accepts it with the same claims and leaves that cache as it is, and a second consuming call in the same
-- window, on the cache that the first one leaves, refuses it.
pub verify_session_call_twice :
    (crypto : Crypto) (token key audience : String) (w : Window) (cache : ReplayCache)
    (c : SessionTokenClaims)
    → (verify_session_call crypto token key audience w true (some cache)).0 ≡ ok c
    → ((other : Option ReplayCache)
        → verify_session_call crypto token key audience w false other ≡ (ok c, other))
      × ((e : TokenError) × ((verify_session_call crypto token key audience w true
              (verify_session_call crypto token key audience w true (some cache)).1).0
            ≡ err e))
unfolding verify_session_call attempts
verify_session_call_twice crypto token key audience w cache c h = (
  λ other.
      where_consumed-read (read_session_token crypto token key audience w)
        (verify_session_token crypto token key audience w) other
      ∙ ap (λ r. (r, other)) (read_of_verified crypto token key audience w cache c h),
  verify_session_token_once crypto token key audience w cache c [] key audience w h tt
      (now_within w c.expires_at),
)
