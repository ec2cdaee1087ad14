-- ===== src/Realtime/Auth/RoundTrip/Shapes.antt =====
-- auth.py: the claims that pass their checks, and their canonical texts.
use evoagent_os.Base.{
  ℕ, ◌+◌, ◌≡◌, refl, sym, ap, subst, inl, inr, String, true, not, ◌&&◌, List, [], ◌∷◌, leb, ◌==◌,
  eq_true, and_true, Bool-cases,
}
use evoagent_os.Base.Action.{ok}
use evoagent_os.Base.Results.{reject_if, bind_ok, reject_if_ok}
use evoagent_os.Realtime.Protocol.{pos}
use evoagent_os.Realtime.Auth.{TokenError}
use evoagent_os.Realtime.Auth.Genuine.{true_of}
use evoagent_os.Realtime.Auth.Json.{
  text, int, array, cons, Members, member, end, canonical, canonical_items, strict, strict_items,
}
use evoagent_os.Realtime.Auth.Claims.{
  claim_string, is_claim_token, jti_claim, is_jti_token, claim_strings, claim_set, count_items,
  unique_texts, texts_eq, sorted, text_items,
}

pub claim_string-same : (e : TokenError) (s t : String) → claim_string e (text s) ≡ ok t → t ≡ s
claim_string-same e s t h = elim (Bool-cases (is_claim_token s)) [
  | inl v ↦ cc (rw v at h)
  | inr v ↦ cc (rw v at h)
]

pub jti_claim-same : (s t : String) → jti_claim (text s) ≡ ok t → t ≡ s
jti_claim-same s t h = elim (Bool-cases (is_jti_token s)) [
  | inl v ↦ cc (rw v at h)
  | inr v ↦ cc (rw v at h)
]

texts_eq_same : (a b : List String) → texts_eq a b ≡ true → a ≡ b
texts_eq_same [] [] h = refl
texts_eq_same [] (y ∷ b) h = cc
texts_eq_same (x ∷ a) [] h = cc
texts_eq_same (x ∷ a) (y ∷ b) h =
    let (first, rest) = and_true (x == y) (texts_eq a b) h in
    let e = eq_true x y first in let es = texts_eq_same a b rest in cc

claim_strings-same :
    (e : TokenError) (xs ys : List String) → claim_strings e (text_items xs) ≡ ok ys → ys ≡ xs
unfolding claim_strings
claim_strings-same e [] ys h = cc
claim_strings-same e (x ∷ xs) ys h =
    let (s, first, h0) = bind_ok (claim_string e (text x)) _ ys h in
    let (rest, more, h1) = bind_ok (claim_strings e (text_items xs)) _ ys h0 in
    let a = claim_string-same e x s first in let b = claim_strings-same e xs rest more in cc

-- A set that passes is the list that it was given as, in its order.
pub claim_set-same :
    (invalid unsorted : TokenError) (max_items : ℕ) (xs ys : List String)
    → claim_set invalid unsorted max_items (array (text_items xs)) ≡ ok ys
    → (ys ≡ xs) × (sorted xs ≡ xs)
unfolding claim_set
claim_set-same invalid unsorted max_items xs ys h =
    let (u, size, h0) =
      bind_ok
        (reject_if
          (not (leb 1 (count_items (text_items xs)) && leb (count_items (text_items xs)) max_items))
          invalid)
        _ ys h in
    let (parsed, read, h1) = bind_ok (claim_strings invalid (text_items xs)) _ ys h0 in
    let (u', ordered, h2) =
      bind_ok (reject_if (not (unique_texts parsed && texts_eq parsed (sorted parsed))) unsorted) _
        ys h1 in
    let same = claim_strings-same invalid xs parsed read in
    let good = true_of _ (
      reject_if_ok (not (unique_texts parsed && texts_eq parsed (sorted parsed))) unsorted u'
        ordered) in
    let e =
      texts_eq_same parsed (sorted parsed)
        (and_true (unique_texts parsed) (texts_eq parsed (sorted parsed)) good).1 in
    let e' = subst (λ p. p ≡ sorted p) same e in (cc, sym e')

pub canonical-text_items : (xs : List String) → canonical_items (text_items xs) ≡ text_items xs
unfolding canonical_items canonical
canonical-text_items [] = refl
canonical-text_items (x ∷ xs) = ap (cons (text x)) (canonical-text_items xs)

pub strict-text_items : (xs : List String) → strict_items (text_items xs) ≡ true
unfolding strict_items strict
strict-text_items [] = refl
strict-text_items (x ∷ xs) = strict-text_items xs

-- The payload of a session token in the order of its keys.
abbrev pub in_order : String → String → ℕ → ℕ → String → List String → List String → Members
in_order subject audience now ttl_seconds jti persona_scope capabilities =
    member "aud" (text audience) (
      member "capabilities" (array (text_items capabilities)) (
        member "exp" (int (pos (now + ttl_seconds))) (
          member "iat" (int (pos now)) (
            member "jti" (text jti) (
              member "kind" (text "session") (
                member "persona_scope" (array (text_items persona_scope))
                  (member "sub" (text subject) end)))))))
