-- ===== src/Realtime/Auth/Genuine.antt =====
-- auth.py: what the tokens that are accepted have shown.
use Prim.Native.String
use evoagent_os.Base.{
  ℕ, ◌+◌, ◌≡◌, refl, ap, subst, ◌∙◌, arith, String, Bool, true, false, not, ◌&&◌, ◌||◌, List, [],
  ◌∷◌, Option, none, some, ltb, nat_eq, length, and_true,
}
use evoagent_os.Base.Action.{ok}
use evoagent_os.Base.Results.{reject_if, or_error, bind_ok, reject_if_ok}
use evoagent_os.Realtime.Protocol.{ℤ, pos}
use evoagent_os.Realtime.Auth.{
  TokenError, max_lifetime_range, skew_range, not_yet_valid, token_expired, lifetime_invalid,
  token_invalid, claims_invalid, audience_invalid, encoding_invalid, signature_invalid,
  key_too_short,
}
use evoagent_os.Realtime.Auth.Json.{Members, claim, keys}
use evoagent_os.Realtime.Auth.Tokens.{
  Crypto, Segments, Window, as_int, signing_key, split_token, signing_input, check_signature,
  b64decode, bytes_eq, read_payload, same_keys, is_text, in_range, check_times, check_payload,
  decode_token, lt_ℤ, plus,
}

pub signing_key_same : (key k : String) → signing_key key ≡ ok k → k ≡ key
unfolding signing_key
signing_key_same key k h =
    let (u, guard, e) = bind_ok (reject_if _ key_too_short) (λ _. ok key) k h in cc

or_error_ok :
    {A : Type 0} (e : TokenError) (o : Option A) (a : A) → or_error e o ≡ ok a → o ≡ some a
or_error_ok e none a h = cc
or_error_ok e (some b) a h = cc

pub true_of : (b : Bool) → not b ≡ false → b ≡ true
true_of true h = refl
true_of false h = cc

-- The times of a token lie in the window.
pub record InWindow (w : Window) (issued_at expires_at : ℤ) : Type 0 where
  pub lifetime_range : in_range 1 3_600 w.max_lifetime_seconds ≡ true
  pub skew_range : in_range 0 60 w.clock_skew_seconds ≡ true
  pub started : lt_ℤ (pos (w.now + w.clock_skew_seconds)) issued_at ≡ false
  pub lasting : lt_ℤ (plus expires_at w.clock_skew_seconds) (pos w.now) ≡ false
  pub lifetime :
      (lt_ℤ expires_at (plus issued_at 1)
        || lt_ℤ (plus issued_at w.max_lifetime_seconds) expires_at)
      ≡ false

module _ (w : Window) (issued_at expires_at : ℤ) where
  pub check_times-InWindow :
      (u : Unit) → check_times w issued_at expires_at ≡ ok u → InWindow w issued_at expires_at
  unfolding check_times
  check_times-InWindow u h =
      let (u0, g0, h0) =
        bind_ok (reject_if (not (in_range 1 3_600 w.max_lifetime_seconds)) max_lifetime_range) _ u
          h in
      let (u1, g1, h1) =
        bind_ok (reject_if (not (in_range 0 60 w.clock_skew_seconds)) skew_range) _ u h0 in
      let (u2, g2, h2) =
        bind_ok (reject_if (lt_ℤ (pos (w.now + w.clock_skew_seconds)) issued_at) not_yet_valid) _ u
          h1 in
      let (u3, g3, h3) =
        bind_ok (reject_if (lt_ℤ (plus expires_at w.clock_skew_seconds) (pos w.now)) token_expired)
          _ u h2 in
      record {
        lifetime_range =
            true_of _ (
              reject_if_ok (not (in_range 1 3_600 w.max_lifetime_seconds)) max_lifetime_range u0
                g0);
        skew_range =
            true_of _
              (reject_if_ok (not (in_range 0 60 w.clock_skew_seconds)) TokenError.skew_range u1 g1);
        started = reject_if_ok _ not_yet_valid u2 g2;
        lasting = reject_if_ok _ token_expired u3 g3;
        lifetime = reject_if_ok _ lifetime_invalid u h3;
      }

  pub InWindow-check_times :
      InWindow w issued_at expires_at → check_times w issued_at expires_at ≡ ok tt
  unfolding check_times
  InWindow-check_times h = rw (h.lifetime_range, h.skew_range, h.started, h.lasting, h.lifetime)

module _ (crypto : Crypto) (token key audience kind : String) (expected : List String)
    (w : Window) where
  -- A payload that was decoded from a token: the signature of the segments holds, and the checks of the
  -- claims passed.
  pub record IsDecoded (p : Members) : Type 0 where
    pub segments : Segments
    pub known : signing_key key ≡ ok key
    pub short : ltb 16_384 (String.len token) ≡ false
    pub split : split_token token ≡ some segments
    pub signed : check_signature crypto key segments ≡ ok tt
    pub read : read_payload crypto segments ≡ ok p
    pub checked : check_payload audience kind expected w p ≡ ok p

  -- A payload whose claims pass the checks.
  pub record IsChecked (p : Members) : Type 0 where
    pub keys_known : same_keys (keys p) expected ≡ true
    pub kind_known : is_text kind (claim "kind" p) ≡ true
    pub audience_known : is_text audience (claim "aud" p) ≡ true
    pub issued_at : ℤ
    pub expires_at : ℤ
    pub iat : as_int (claim "iat" p) ≡ ok issued_at
    pub exp : as_int (claim "exp" p) ≡ ok expires_at
    pub window : InWindow w issued_at expires_at

  pub check_payload-IsChecked :
      (q p : Members) → check_payload audience kind expected w q ≡ ok p → IsChecked q
  unfolding check_payload
  check_payload-IsChecked q p h =
      let (u0, g0, h0) =
        bind_ok
          (reject_if (not (same_keys (keys q) expected && is_text kind (claim "kind" q)))
            claims_invalid)
          _ p h in
      let (u1, g1, h1) =
        bind_ok (reject_if (not (is_text audience (claim "aud" q))) audience_invalid) _ p h0 in
      let (i, iat, h2) = bind_ok (as_int (claim "iat" q)) _ p h1 in
      let (e, exp, h3) = bind_ok (as_int (claim "exp" q)) _ p h2 in
      let (u4, times, h4) = bind_ok (check_times w i e) (λ _. ok q) p h3 in
      let (ks, kd) =
        and_true (same_keys (keys q) expected) (is_text kind (claim "kind" q))
          (true_of _ (reject_if_ok _ claims_invalid u0 g0)) in
      record {
        keys_known = ks;
        kind_known = kd;
        audience_known =
            true_of _
              (reject_if_ok (not (is_text audience (claim "aud" q))) audience_invalid u1 g1);
        issued_at = i;
        expires_at = e;
        iat = iat;
        exp = exp;
        window = check_times-InWindow w i e u4 times;
      }

  pub IsChecked-check_payload :
      (p : Members) → IsChecked p → check_payload audience kind expected w p ≡ ok p
  unfolding check_payload
  IsChecked-check_payload p h = rw (
    h.keys_known,
    h.kind_known,
    h.audience_known,
    h.iat,
    h.exp,
    InWindow-check_times w h.issued_at h.expires_at h.window,
  )

  check_payload_same : (q p : Members) → check_payload audience kind expected w q ≡ ok p → q ≡ p
  unfolding check_payload
  check_payload_same q p h =
      let (u0, g0, h0) =
        bind_ok
          (reject_if (not (same_keys (keys q) expected && is_text kind (claim "kind" q)))
            claims_invalid)
          _ p h in
      let (u1, g1, h1) =
        bind_ok (reject_if (not (is_text audience (claim "aud" q))) audience_invalid) _ p h0 in
      let (issued_at, g2, h2) = bind_ok (as_int (claim "iat" q)) _ p h1 in
      let (expires_at, g3, h3) = bind_ok (as_int (claim "exp" q)) _ p h2 in
      let (u4, g4, h4) = bind_ok (check_times w issued_at expires_at) (λ _. ok q) p h3 in cc

  pub decode_token-IsDecoded :
      (p : Members) → decode_token crypto token key audience kind expected w ≡ ok p → IsDecoded p
  unfolding decode_token
  decode_token-IsDecoded p h =
      let (k, known, h0) = bind_ok (signing_key key) _ p h in
      let (u1, g1, h1) = bind_ok (reject_if (ltb 16_384 (String.len token)) token_invalid) _ p h0 in
      let (t, split, h2) = bind_ok (or_error token_invalid (split_token token)) _ p h1 in
      let (u3, signed, h3) = bind_ok (check_signature crypto k t) _ p h2 in
      let (q, read, h4) = bind_ok (read_payload crypto t) _ p h3 in
      let same = check_payload_same q p h4 in
      record {
        segments = t;
        known = subst (λ x. signing_key key ≡ ok x) (signing_key_same key k known) known;
        short = reject_if_ok (ltb 16_384 (String.len token)) token_invalid u1 g1;
        split = or_error_ok token_invalid (split_token token) t split;
        signed =
            subst (λ x. check_signature crypto x t ≡ ok tt) (signing_key_same key k known) signed;
        read = subst (λ x. read_payload crypto t ≡ ok x) same read;
        checked = subst (λ x. check_payload audience kind expected w x ≡ ok p) same h4;
      }

-- A decoded payload is decoded again where its claims pass.
pub IsDecoded-again :
    (crypto : Crypto) (token key audience kind : String) (expected : List String) (w w' : Window)
    (p : Members)
    → IsDecoded crypto token key audience kind expected w p
    → check_payload audience kind expected w' p ≡ ok p
    → decode_token crypto token key audience kind expected w' ≡ ok p
unfolding decode_token
IsDecoded-again crypto token key audience kind expected w w' p h again =
    rw (h.known, h.short, h.split, h.signed, h.read, again)

bytes_eq_same : (a b : List ℕ) → bytes_eq a b ≡ true → a ≡ b
bytes_eq_same [] [] h = refl
bytes_eq_same [] (y ∷ b) h = cc
bytes_eq_same (x ∷ a) [] h = cc
bytes_eq_same (x ∷ a) (y ∷ b) h =
    let (first, rest) = and_true (nat_eq x y) (bytes_eq a b) h in
    let e : x ≡ y = ground arith in let es = bytes_eq_same a b rest in cc

-- The signature that passes is the one of the key on the first two segments.
pub check_signature-genuine :
    (crypto : Crypto) (key : String) (t : Segments)
    → check_signature crypto key t ≡ ok tt
    → crypto.b64decode t.signature ≡ some (crypto.hmac key (signing_input t))
unfolding check_signature b64decode
check_signature-genuine crypto key t h =
    let (supplied, found, h0) =
      bind_ok (or_error encoding_invalid (crypto.b64decode t.signature)) _ tt h in
    let (u1, g1, h1) =
      bind_ok (reject_if (not (nat_eq (length supplied) 32)) signature_invalid) _ tt h0 in
    let same = bytes_eq_same supplied _ (
      true_of _ (
        reject_if_ok (not (bytes_eq supplied (crypto.hmac key (signing_input t)))) signature_invalid
          tt h1)) in
    or_error_ok encoding_invalid (crypto.b64decode t.signature) supplied found ∙ ap some same
