-- ===== src/Control/Idempotency.antt =====
-- apps/control-plane/src/evoagent_os/store.py: the first response under a key is the one that is given back.
use evoagent_os.Base.{
  ℕ, ◌≡◌, sym, ap, ◌∙◌, String, false, List, [], ◌∷◌, Option, none, some, ◌==◌, eq_self, inl, inr,
  Option-cases, Bool-cases,
}
use evoagent_os.Base.Rows.{find, find-append}
use evoagent_os.Base.Action.{ok}
use evoagent_os.Control.Store.{
  KeyRow, Store, is_key, response_of, idempotent_get, idempotent_put, insert_key,
}

-- A call of `idempotent_put`, and calls one after the other.
pub record Put : Type 0 where
  pub at : ℕ
  pub scope : String
  pub key : Option String
  pub response : String

unfoldable pub put_all : List Put → Store → Store
put_all [] s = s
put_all (p ∷ more) s = put_all more (idempotent_put p.at p.scope p.key p.response s).1

abbrev Has : String → String → String → Store → Type 0
Has scope key response s = response_of (find (is_key scope key) s.idempotency_keys) ≡ some response

find_single : (r : KeyRow) → find (is_key r.scope r.key) (r ∷ []) ≡ some r
unfolding find
find_single r = rw (eq_self r.scope, eq_self r.key)

module _ (scope key : String) (response : String) where
  insert_key-keeps :
      (r : KeyRow) (rows : List KeyRow)
      → response_of (find (is_key scope key) rows) ≡ some response
      → response_of (find (is_key scope key) (insert_key r rows)) ≡ some response
  unfolding insert_key
  insert_key-keeps r rows h = elim (Option-cases (find (is_key r.scope r.key) rows)) [
    | inl n ↦ elim (Option-cases (find (is_key scope key) rows)) [
      | inl absent ↦
          let h' : response_of none ≡ some response = ap response_of (sym absent) ∙ h in cc
      | inr (q, found) ↦
          let h' : response_of (some q) ≡ some response = ap response_of (sym found) ∙ h in
          rw (n, insert_key, find-append (is_key scope key) rows (r ∷ []), found) h'
    ]
    | inr (q, n) ↦ rw (n, insert_key) h
  ]

  put-keeps :
      (now : ℕ) (scope' : String) (key' : Option String) (response' : String) (s : Store)
      → Has scope key response s
      → Has scope key response (idempotent_put now scope' key' response' s).1
  unfolding idempotent_put
  put-keeps now scope' none response' s h = h
  put-keeps now scope' (some key') response' s h = elim (Bool-cases (key' == "")) [
    | inl e ↦ rw (e, idempotent_put) h
    | inr e ↦
        rw (e, idempotent_put)
          (insert_key-keeps
            (record { scope = scope'; key = key'; response = response'; created_at = now })
            s.idempotency_keys h)
  ]

  put_all-keeps :
      (puts : List Put) (s : Store)
      → Has scope key response s
      → Has scope key response (put_all puts s)
  unfolding put_all
  put_all-keeps [] s h = h
  put_all-keeps (p ∷ more) s h =
      put_all-keeps more (idempotent_put p.at p.scope p.key p.response s).1
        (put-keeps p.at p.scope p.key p.response s h)

insert_key-new :
    (r : KeyRow) (rows : List KeyRow)
    → response_of (find (is_key r.scope r.key) rows) ≡ none
    → response_of (find (is_key r.scope r.key) (insert_key r rows)) ≡ some r.response
unfolding insert_key
insert_key-new r rows h = elim (Option-cases (find (is_key r.scope r.key) rows)) [
  | inl n ↦
      rw (n, insert_key, find-append (is_key r.scope r.key) rows (r ∷ []), n)
        (ap response_of (find_single r))
  | inr (q, n) ↦ let h' : response_of (some q) ≡ none = ap response_of (sym n) ∙ h in cc
]

get-named :
    (scope key : String) (s : Store)
    → (key == "") ≡ false
    → (idempotent_get scope (some key) s).0
      ≡ ok (response_of (find (is_key scope key) s.idempotency_keys))
unfolding idempotent_get
get-named scope key s named = rw (named, idempotent_get)

put-named :
    (now : ℕ) (scope key response : String) (s : Store)
    → (key == "") ≡ false
    → (idempotent_put now scope (some key) response s).1.idempotency_keys
      ≡ insert_key
          (record { scope = scope; key = key; response = response; created_at = now })
          s.idempotency_keys
unfolding idempotent_put
put-named now scope key response s named = rw (named, idempotent_put)

-- A key that is not empty and has no response yet keeps the first one that is put under it: after any
-- further calls of `idempotent_put`, under any scopes and keys, `idempotent_get` gives that response.
pub idempotent_put-first :
    (now : ℕ) (scope key response : String) (puts : List Put) (s : Store)
    → (key == "") ≡ false
    → (idempotent_get scope (some key) s).0 ≡ ok none
    → (idempotent_get scope
        (some key)
        (put_all puts (idempotent_put now scope (some key) response s).1)).0
      ≡ ok (some response)
idempotent_put-first now scope key response puts s named fresh =
    let none_yet : response_of (find (is_key scope key) s.idempotency_keys) ≡ none =
      let e = get-named scope key s named in cc in
    let first : Has scope key response (idempotent_put now scope (some key) response s).1 =
      rw (put-named now scope key response s named) (
        insert_key-new (record { scope = scope; key = key; response = response; created_at = now })
          s.idempotency_keys none_yet) in
    get-named scope key (put_all puts (idempotent_put now scope (some key) response s).1) named
    ∙ ap ok (
        put_all-keeps scope key response puts (idempotent_put now scope (some key) response s).1
          first)
