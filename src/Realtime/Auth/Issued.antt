-- ===== src/Realtime/Auth/Issued.antt =====
-- auth.py: the tokens that `issue_session_token` makes are read back.
use Prim.Native.String
use Prim.Native.String.append
use Prim.Native.Char.{Char, char, code}
use package.text.Mathlib.TextLemmas.{append_assoc}
use evoagent_os.Base.{
  ℕ, ◌≡◌, refl, ap, subst, ◌∙◌, arith, String, true, false, not, List, [], ◌∷◌, none, some, ltb,
  nat_eq, length, ◌==◌, and_true,
}
use evoagent_os.Base.Texts.{all_chars, le_text}
use evoagent_os.Base.Action.{Result, ok}
use evoagent_os.Base.Results.{bind_ok}
use evoagent_os.Realtime.Auth.{TokenError}
use evoagent_os.Realtime.Auth.Genuine.{signing_key_same}
use evoagent_os.Realtime.Auth.Json.{
  text, object, Members, canonical, canonical_members, insert_member, strict, strict_members,
  has_key, claim,
}
use evoagent_os.Realtime.Auth.Tokens.{
  Crypto, Segments, Window, cut, is_segment, url_char, split_token, join_token, bytes_eq, b64decode,
  check_signature, encode_object, encode_token, token_header, strict_json_object, is_token_header,
  read_payload, decode_token, check_payload, signing_key,
}

url_char-plain : (c : ℕ) → url_char c ≡ true → nat_eq c b'.' ≡ false
url_char-plain c h = ground arith

abbrev point : Char
point = char b'.' tt

-- The text behind a dot.
dot-append : (rest : String) → String.◌++◌ "." rest ≡ String.◌∷◌ point rest
dot-append rest = append.cons point String.[] rest ∙ ap (String.◌∷◌ point) (append.nil rest)

cut-dot : (rest : String) → cut (String.◌∷◌ point rest) ≡ some (String.[], rest)
unfolding cut
cut-dot rest = refl

-- A text with no dot in it is what stands in front of the first dot behind it.
cut-join :
    (a rest : String) → all_chars url_char a ≡ true → cut (join_token a "." rest) ≡ some (a, rest)
unfolding cut all_chars
cut-join String.[] rest h =
    ap cut (append.nil (String.◌++◌ "." rest) ∙ dot-append rest) ∙ cut-dot rest
cut-join (String.◌∷◌ c a) rest h =
    let (first, more) = and_true (url_char (code c)) (all_chars url_char a) h in
    let e = cut-join a rest more in
    rw (append.cons c a (String.◌++◌ "." rest), url_char-plain (code c) first, e)

cut-none : (a : String) → all_chars url_char a ≡ true → cut a ≡ none
unfolding cut all_chars
cut-none String.[] h = refl
cut-none (String.◌∷◌ c a) h =
    let (first, more) = and_true (url_char (code c)) (all_chars url_char a) h in
    rw (url_char-plain (code c) first, cut-none a more)

join_assoc :
    (a b c : String) → join_token (join_token a "." b) "." c ≡ join_token a "." (join_token b "." c)
join_assoc a b c =
    append_assoc a (String.◌++◌ "." b) (String.◌++◌ "." c)
    ∙ ap (String.◌++◌ a) (append_assoc "." b (String.◌++◌ "." c))

segment_parts : (s : String) → is_segment s ≡ true → all_chars url_char s ≡ true
segment_parts s h = (and_true (not (s == "")) (all_chars url_char s) h).1

-- Three segments, joined by dots, are split again.
split_token-join :
    (header payload signature : String)
    → is_segment header ≡ true
    → is_segment payload ≡ true
    → is_segment signature ≡ true
    → split_token (join_token (join_token header "." payload) "." signature)
      ≡ some (record { header = header; payload = payload; signature = signature })
unfolding split_token
split_token-join header payload signature h p s = rw (
  join_assoc header payload signature,
  cut-join header (join_token payload "." signature) (segment_parts header h),
  cut-join payload signature (segment_parts payload p),
  h,
  p,
  s,
)

-- What a base64 text has to do for the bytes that a token carries: it is a segment, and it is decoded again.
pub record Carries (crypto : Crypto) (bytes : List ℕ) : Type 0 where
  pub segment : is_segment (crypto.b64encode bytes) ≡ true
  pub decoded : crypto.b64decode (crypto.b64encode bytes) ≡ some bytes

-- What `json` has to do for an object that a token carries: it reads the text that it wrote.
abbrev pub Reads : Crypto → Members → Type 0
Reads crypto ms = crypto.parse (crypto.dumps ms) ≡ some (object ms)

bytes_eq_self : (bytes : List ℕ) → bytes_eq bytes bytes ≡ true
bytes_eq_self [] = refl
bytes_eq_self (b ∷ bs) = let rest = bytes_eq_self bs in ground arith

abbrev pub signed_input : Crypto → Members → String
signed_input crypto ms =
    join_token (encode_object crypto token_header) "." (encode_object crypto ms)

-- What is asked of the libraries for one token: its three segments are decoded again, its header and its
-- payload are read again, and its signature has 32 bytes.
pub record Travels (crypto : Crypto) (ms : Members) (key : String) : Type 0 where
  pub header : Carries crypto (crypto.dumps (canonical_members token_header))
  pub payload : Carries crypto (crypto.dumps (canonical_members ms))
  pub signature : Carries crypto (crypto.hmac key (signed_input crypto ms))
  pub header_read : Reads crypto (canonical_members token_header)
  pub payload_read : Reads crypto (canonical_members ms)
  pub digest_size : length (crypto.hmac key (signed_input crypto ms)) ≡ 32

module _ (crypto : Crypto) (ms : Members) (key : String) (travels : Travels crypto ms key) where
  abbrev sent : Segments
  sent = record {
    header = encode_object crypto token_header;
    payload = encode_object crypto ms;
    signature = crypto.b64encode (crypto.hmac key (signed_input crypto ms));
  }

  sent-signed : check_signature crypto key sent ≡ ok tt
  unfolding check_signature b64decode
  sent-signed = rw (
    travels.signature.decoded,
    travels.digest_size,
    bytes_eq_self (crypto.hmac key (signed_input crypto ms)),
  )

  header_accepted :
      strict_json_object crypto (crypto.dumps (canonical_members token_header))
      ≡ ok (canonical_members token_header)
  unfolding strict_json_object strict strict_members has_key canonical_members canonical
      insert_member le_text
  header_accepted = rw travels.header_read

  payload_accepted :
      strict_members (canonical_members ms) ≡ true
      → strict_json_object crypto (crypto.dumps (canonical_members ms)) ≡ ok (canonical_members ms)
  unfolding strict_json_object strict
  payload_accepted h = rw (travels.payload_read, h)

  header_known : is_token_header (canonical_members token_header) ≡ true
  unfolding canonical_members canonical insert_member le_text claim
  header_known = refl

  sent-read :
      strict_members (canonical_members ms) ≡ true
      → read_payload crypto sent ≡ ok (canonical_members ms)
  unfolding read_payload b64decode
  sent-read h =
      rw (travels.header.decoded, header_accepted, header_known, travels.payload.decoded)
        (payload_accepted h)

  -- What `_encode_token` makes of a payload, `_decode_token` checks as that payload with its keys sorted.
  pub decode_token-encode_token :
      (token audience kind : String) (expected : List String) (w : Window)
      → encode_token crypto ms key ≡ ok token
      → ltb 16_384 (String.len token) ≡ false
      → strict_members (canonical_members ms) ≡ true
      → decode_token crypto token key audience kind expected w
        ≡ check_payload audience kind expected w (canonical_members ms)
  unfolding encode_token decode_token
  decode_token-encode_token token audience kind expected w h short strict =
      let (k, known, h0) = bind_ok (signing_key key) _ token h in
      let same = signing_key_same key k known in
      let h1 =
        subst
          (λ x.
            ◌≡◌ {A = Result TokenError String}
              (ok (
                join_token (signed_input crypto ms) "."
                  (crypto.b64encode (crypto.hmac x (signed_input crypto ms)))))
              (ok token))
          same h0 in
      let made : join_token (signed_input crypto ms) "." sent.signature ≡ token = cc in
      let split =
        split_token-join sent.header sent.payload sent.signature travels.header.segment
          travels.payload.segment travels.signature.segment in
      let known' = subst (λ x. signing_key key ≡ ok x) same known in
      let split' = subst (λ x. split_token x ≡ some sent) made split in
      rw (known', short, split', sent-signed, sent-read strict)
