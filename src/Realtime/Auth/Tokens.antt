-- ===== src/Realtime/Auth/Tokens.antt =====
-- auth.py: the encoding of tokens, and `_decode_token` with its checks.
use Prim.Native.String
use Prim.Native.Char.{code}
use evoagent_os.Base.{
  ℕ, suc, ◌+◌, ◌-◌, String, Bool, true, false, not, ◌&&◌, ◌||◌, List, [], ◌∷◌, Option, none, some,
  ltb, leb, nat_eq, all, length, mem_text, ◌==◌, if◌then◌else◌,
}
use evoagent_os.Base.Texts.{all_chars}
use evoagent_os.Base.Action.{Result, ok, err}
use evoagent_os.Base.Results.{◌>>=◌, ◌>>◌, reject_if, or_error}
use evoagent_os.Realtime.Protocol.{ℤ, pos, negsuc}
use evoagent_os.Realtime.Auth.{
  TokenError, token_invalid, encoding_invalid, signature_invalid, payload_invalid, duplicate_claims,
  header_invalid, claims_invalid, audience_invalid, timestamps_invalid, not_yet_valid,
  token_expired, lifetime_invalid, key_too_short, max_lifetime_range, skew_range,
}
use evoagent_os.Realtime.Auth.Json.{
  Json, boolean, int, float, text, object, Members, end, member, strict, claim, keys,
  canonical_members,
}

-- What the tokens take from outside: HMAC-SHA256 of a key and a text, base64 with the alphabet of URLs,
-- the parser of `json` on UTF-8, `json.dumps` of an object in its order, and `secrets.token_urlsafe`.
pub record Crypto : Type 0 where
  pub hmac : String → String → List ℕ
  pub b64decode : String → Option (List ℕ)
  pub b64encode : List ℕ → String
  pub parse : List ℕ → Option Json
  pub dumps : Members → List ℕ
  pub token_urlsafe : String

abbrev pub as_object : Json → Result TokenError Members
as_object (object ms) = ok ms
as_object _ = err payload_invalid

-- `_strict_json_object`. Of several faults the code reports the one that it reads first.
unfoldable pub strict_json_object : Crypto → List ℕ → Result TokenError Members
strict_json_object crypto payload = do
  value ← or_error payload_invalid (crypto.parse payload)
  reject_if (not (strict value)) duplicate_claims
  as_object value

-- `_b64decode`.
unfoldable pub b64decode : Crypto → String → Result TokenError (List ℕ)
b64decode crypto value = or_error encoding_invalid (crypto.b64decode value)

abbrev pub url_char : ℕ → Bool
url_char c =
    (leb b'A' c && leb c b'Z')
    || (leb b'a' c && leb c b'z')
    || (leb b'0' c && leb c b'9')
    || nat_eq c b'_'
    || nat_eq c b'-'

-- The text in front of the first dot and the one behind it.
unfoldable pub cut : String → Option (String × String)
cut String.[] = none
cut (String.◌∷◌ c s) =
    let rest = cut s in
    if nat_eq (code c) b'.'
    then some (String.[], s)
    else elim rest [ none ↦ none | some (a, b) ↦ some (String.◌∷◌ c a, b) ]

abbrev pub is_segment : String → Bool
is_segment s = not (s == "") && all_chars url_char s

pub record Segments : Type 0 where
  pub header : String
  pub payload : String
  pub signature : String

abbrev pub three : String → Option (String × String) → Option Segments
three header none = none
three header (some (payload, signature)) =
    if is_segment header && is_segment payload && is_segment signature
    then some (record { header = header; payload = payload; signature = signature })
    else none

abbrev pub segments_of : Option (String × String) → Option Segments
segments_of none = none
segments_of (some (header, rest)) = three header (cut rest)

-- `TOKEN_PATTERN.fullmatch` and `token.split(".")`.
unfoldable pub split_token : String → Option Segments
split_token token = segments_of (cut token)

abbrev pub signing_input : Segments → String
signing_input t = String.◌++◌ t.header (String.◌++◌ "." t.payload)

abbrev pub bytes_eq : List ℕ → List ℕ → Bool
bytes_eq [] [] = true
bytes_eq (a ∷ as') (b ∷ bs) = nat_eq a b && bytes_eq as' bs
bytes_eq _ _ = false

abbrev pub is_text : String → Json → Bool
is_text s (text t) = t == s
is_text s _ = false

-- What Python takes for equal to 1.
abbrev pub is_one : Json → Bool
is_one (int (pos n)) = nat_eq n 1
is_one (float (some (pos n))) = nat_eq n 1
is_one (boolean true) = true
is_one _ = false

abbrev pub same_keys : List String → List String → Bool
same_keys a b = all (λ k. mem_text k b) a && all (λ k. mem_text k a) b

abbrev pub token_header : Members
token_header =
    member "alg" (text "HS256") (member "typ" (text "EWT") (member "v" (int (pos 1)) end))

-- `header == TOKEN_HEADER`.
abbrev pub is_token_header : Members → Bool
is_token_header ms =
    same_keys (keys ms) ("alg" ∷ "typ" ∷ "v" ∷ [])
    && is_text "HS256" (claim "alg" ms)
    && is_text "EWT" (claim "typ" ms)
    && is_one (claim "v" ms)

-- Order and addition of integers.
abbrev pub lt_ℤ : ℤ → ℤ → Bool
lt_ℤ (pos a) (pos b) = ltb a b
lt_ℤ (pos a) (negsuc b) = false
lt_ℤ (negsuc a) (pos b) = true
lt_ℤ (negsuc a) (negsuc b) = ltb b a

abbrev pub plus : ℤ → ℕ → ℤ
plus (pos a) n = pos (a + n)
plus (negsuc a) n = if ltb a n then pos (n - suc a) else negsuc (a - n)

abbrev pub as_int : Json → Result TokenError ℤ
as_int (int n) = ok n
as_int _ = err timestamps_invalid

pub record Window : Type 0 where
  pub max_lifetime_seconds : ℕ
  pub clock_skew_seconds : ℕ
  pub now : ℕ

abbrev pub in_range : ℕ → ℕ → ℕ → Bool
in_range low high n = leb low n && leb n high

-- The checks of the times of a token. Both sides of a difference are compared as sums.
unfoldable pub check_times : Window → ℤ → ℤ → Result TokenError Unit
check_times w issued_at expires_at = do
  reject_if (not (in_range 1 3_600 w.max_lifetime_seconds)) max_lifetime_range
  reject_if (not (in_range 0 60 w.clock_skew_seconds)) skew_range
  reject_if (lt_ℤ (pos (w.now + w.clock_skew_seconds)) issued_at) not_yet_valid
  reject_if (lt_ℤ (plus expires_at w.clock_skew_seconds) (pos w.now)) token_expired
  reject_if
      (lt_ℤ expires_at (plus issued_at 1)
        || lt_ℤ (plus issued_at w.max_lifetime_seconds) expires_at)
      lifetime_invalid

-- `_decode_token` once the signature holds.
unfoldable pub check_payload :
    String → String → List String → Window → Members → Result TokenError Members
check_payload audience kind expected w payload = do
  reject_if (not (same_keys (keys payload) expected && is_text kind (claim "kind" payload)))
      claims_invalid
  reject_if (not (is_text audience (claim "aud" payload))) audience_invalid
  issued_at ← as_int (claim "iat" payload)
  expires_at ← as_int (claim "exp" payload)
  check_times w issued_at expires_at
  ok payload

unfoldable pub read_payload : Crypto → Segments → Result TokenError Members
read_payload crypto t = do
  header_bytes ← b64decode crypto t.header
  header ← strict_json_object crypto header_bytes
  reject_if (not (is_token_header header)) header_invalid
  payload_bytes ← b64decode crypto t.payload
  strict_json_object crypto payload_bytes

-- The signature of a token under a key.
unfoldable pub check_signature : Crypto → String → Segments → Result TokenError Unit
check_signature crypto key t = do
  supplied ← b64decode crypto t.signature
  reject_if (not (nat_eq (length supplied) 32)) signature_invalid
  reject_if (not (bytes_eq supplied (crypto.hmac key (signing_input t)))) signature_invalid

unfoldable pub signing_key : String → Result TokenError String
signing_key key = reject_if (ltb (String.len key) 32) key_too_short >> ok key

-- `_decode_token`.
unfoldable pub decode_token :
    Crypto → String → String → String → String → List String → Window → Result TokenError Members
decode_token crypto token key audience kind expected w = do
  k ← signing_key key
  reject_if (ltb 16_384 (String.len token)) token_invalid
  t ← or_error token_invalid (split_token token)
  check_signature crypto k t
  payload ← read_payload crypto t
  check_payload audience kind expected w payload

-- The base64 text of `_canonical_json`.
abbrev pub encode_object : Crypto → Members → String
encode_object crypto ms = crypto.b64encode (crypto.dumps (canonical_members ms))

abbrev pub join_token : String → String → String → String
join_token input dot signature = String.◌++◌ input (String.◌++◌ dot signature)

-- `_encode_token`.
unfoldable pub encode_token : Crypto → Members → String → Result TokenError String
encode_token crypto payload key = do
  k ← signing_key key
  let input = join_token (encode_object crypto token_header) "." (encode_object crypto payload)
  ok (join_token input "." (crypto.b64encode (crypto.hmac k input)))
