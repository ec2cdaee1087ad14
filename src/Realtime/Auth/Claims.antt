-- ===== src/Realtime/Auth/Claims.antt =====
-- auth.py: `_claim_string`, `_jti` and `_claim_set`.
use Prim.Native.String
use Prim.Native.Char.{code}
use evoagent_os.Base.{
  ℕ, suc, String, Bool, true, false, not, ◌&&◌, ◌||◌, List, [], ◌∷◌, leb, nat_eq, mem_text, ◌==◌,
  if◌then◌else◌,
}
use evoagent_os.Base.Texts.{all_chars, le_text}
use evoagent_os.Base.Action.{Result, ok, err}
use evoagent_os.Base.Results.{◌>>=◌, ◌>>◌, reject_if}
use evoagent_os.Realtime.Auth.{TokenError, jti_invalid}
use evoagent_os.Realtime.Auth.Json.{Json, Items, text, array, nil, cons}
use evoagent_os.Realtime.Auth.Tokens.{url_char}

abbrev pub alnum : ℕ → Bool
alnum c = (leb b'A' c && leb c b'Z') || (leb b'a' c && leb c b'z') || (leb b'0' c && leb c b'9')

abbrev pub claim_char : ℕ → Bool
claim_char c =
    alnum c
    || nat_eq c b'.'
    || nat_eq c b'_'
    || nat_eq c b':'
    || nat_eq c b'@'
    || nat_eq c b'/'
    || nat_eq c b'-'

abbrev pub hex_char : ℕ → Bool
hex_char c = (leb b'0' c && leb c b'9') || (leb b'a' c && leb c b'f')

-- `CLAIM_TOKEN_PATTERN`, `JTI_PATTERN` and `SHA256_PATTERN`, whose characters have one byte each.
unfoldable pub is_claim_token : String → Bool
is_claim_token String.[] = false
is_claim_token (String.◌∷◌ c s) = alnum (code c) && all_chars claim_char s && leb (String.len s) 127

unfoldable pub is_jti_token : String → Bool
is_jti_token s = all_chars url_char s && leb 16 (String.len s) && leb (String.len s) 128

unfoldable pub is_sha256 : String → Bool
is_sha256 s = all_chars hex_char s && nat_eq (String.len s) 64

-- `_claim_string`, with the error of the claim's name.
abbrev pub claim_string : TokenError → Json → Result TokenError String
claim_string e (text s) = if is_claim_token s then ok s else err e
claim_string e _ = err e

-- `_jti`.
abbrev pub jti_claim : Json → Result TokenError String
jti_claim (text s) = if is_jti_token s then ok s else err jti_invalid
jti_claim _ = err jti_invalid

unfoldable pub insert_text : String → List String → List String
insert_text x [] = x ∷ []
insert_text x (y ∷ ys) = let rest = insert_text x ys in if le_text x y then x ∷ y ∷ ys else y ∷ rest

-- `sorted`.
unfoldable pub sorted : List String → List String
sorted [] = []
sorted (x ∷ xs) = insert_text x (sorted xs)

abbrev pub texts_eq : List String → List String → Bool
texts_eq [] [] = true
texts_eq (a ∷ as') (b ∷ bs) = a == b && texts_eq as' bs
texts_eq _ _ = false

-- `len(parsed) == len(set(parsed))`.
abbrev pub unique_texts : List String → Bool
unique_texts [] = true
unique_texts (x ∷ xs) = not (mem_text x xs) && unique_texts xs

unfoldable pub claim_strings : TokenError → Items → Result TokenError (List String)
claim_strings e nil = ok []
claim_strings e (cons v more) = do s ← claim_string e v; rest ← claim_strings e more; ok (s ∷ rest)

abbrev pub count_items : Items → ℕ
count_items nil = 0
count_items (cons v more) = suc (count_items more)

-- `_claim_set`: the set stays the list that it is given as, which is sorted and has no repetition.
unfoldable pub claim_set : TokenError → TokenError → ℕ → Json → Result TokenError (List String)
claim_set invalid unsorted max_items (array items) = do
  reject_if (not (leb 1 (count_items items) && leb (count_items items) max_items)) invalid
  parsed ← claim_strings invalid items
  reject_if (not (unique_texts parsed && texts_eq parsed (sorted parsed))) unsorted
  ok parsed
claim_set invalid unsorted max_items _ = err invalid

abbrev pub text_items : List String → Items
text_items [] = nil
text_items (s ∷ more) = cons (text s) (text_items more)
