-- ===== src/Realtime/Auth/Replay.antt =====
-- auth.py: `ReplayCache` over sequences of calls.
use evoagent_os.Base.{
  ℕ, ◌≤◌, ◌<◌, ◌≡◌, refl, sym, ap, subst, ◌∙◌, arith, inl, inr, String, Bool, true, false, List, [],
  ◌∷◌, ◌++◌, none, some, leb, length, length-append, eq_self, Bool-cases, Option-cases,
}
use evoagent_os.Base.Rows.{find, select, find-append}
use evoagent_os.Base.Action.{Result, ok, err}
use evoagent_os.Realtime.Auth.{
  TokenError, token_used, cache_full, ReplayCache, consume, purge, is_live, is_jti,
}

module _ {A : Type 0} (k q : A → Bool) where
  find-select :
      (rs : List A) (x : A) → find k rs ≡ some x → q x ≡ true → find k (select q rs) ≡ some x
  unfolding find select
  find-select [] x h live = cc
  find-select (r ∷ rs) x h live = elim (Bool-cases (k r)) [
    | inl e ↦
        let same : r ≡ x = cc (rw e at h) in
        let l : q r ≡ true = subst (λ y. q y ≡ true) (sym same) live in rw (l, e) (ap some same)
    | inr e ↦
        let rest = find-select rs x (rw e at h) live in
        elim (Bool-cases (q r)) [ inl l ↦ rw (l, e) rest | inr l ↦ rw l rest ]
  ]

  find-select-none : (rs : List A) → find k rs ≡ none → find k (select q rs) ≡ none
  unfolding find select
  find-select-none [] h = refl
  find-select-none (r ∷ rs) h = elim (Bool-cases (k r)) [
    | inl e ↦ cc (rw e at h)
    | inr e ↦
        let rest = find-select-none rs (rw e at h) in
        elim (Bool-cases (q r)) [ inl l ↦ rw (l, e) rest | inr l ↦ rw l rest ]
  ]

pub length-select_le : {A : Type 0} (q : A → Bool) (rs : List A) → length (select q rs) ≤ length rs
unfolding select
length-select_le q [] = omega arith
length-select_le q (r ∷ rs) = elim (Bool-cases (q r)) [
  | inl l ↦ rw l (omega (arith, length-select_le q rs))
  | inr l ↦ rw l (omega (arith, length-select_le q rs))
]

select_append :
    {A : Type 0} (q : A → Bool) (rs ts : List A) → select q (rs ++ ts) ≡ select q rs ++ select q ts
unfolding select
select_append q [] ts = refl
select_append q (r ∷ rs) ts = elim (Bool-cases (q r)) [
  | inl l ↦ rw l (ap (λ xs. r ∷ xs) (select_append q rs ts))
  | inr l ↦ rw l (select_append q rs ts)
]

-- What a call of `consume` does, from what it finds after the purge.
module _ (jti : String) (expires_at now : ℕ) (cache : ReplayCache) where
  abbrev pub left : List (String × ℕ)
  left = (purge now cache).entries

  abbrev pub added : ReplayCache
  added = record cache { entries = left ++ (jti, expires_at) ∷ [] }

  pub consume-used :
      (x : String × ℕ)
      → find (is_jti jti) left ≡ some x
      → consume jti expires_at now cache ≡ (err token_used, purge now cache)
  unfolding consume
  consume-used x h = rw h

  pub consume-full :
      find (is_jti jti) left ≡ none
      → leb cache.max_entries (length left) ≡ true
      → consume jti expires_at now cache ≡ (err cache_full, purge now cache)
  unfolding consume
  consume-full h full = rw (h, full)

  pub consume-added :
      find (is_jti jti) left ≡ none
      → leb cache.max_entries (length left) ≡ false
      → consume jti expires_at now cache ≡ (ok tt, added)
  unfolding consume
  consume-added h room = rw (h, room)

-- A call that returns found the jti free and room for it.
pub record IsTaken (jti : String) (expires_at now : ℕ) (cache : ReplayCache) : Type 0 where
  pub free : find (is_jti jti) (left jti expires_at now cache) ≡ none
  pub room : leb cache.max_entries (length (left jti expires_at now cache)) ≡ false
  pub result : consume jti expires_at now cache ≡ (ok tt, added jti expires_at now cache)

module _ (jti : String) (expires_at now : ℕ) (cache : ReplayCache) where
  pub consume-IsTaken :
      (consume jti expires_at now cache).0 ≡ ok tt → IsTaken jti expires_at now cache
  consume-IsTaken h = elim (Option-cases (find (is_jti jti) (left jti expires_at now cache))) [
    | inl free ↦
        elim (Bool-cases (leb cache.max_entries (length (left jti expires_at now cache)))) [
          | inl full ↦
              let e = consume-full jti expires_at now cache free full in
              let z : ◌≡◌ {A = Result TokenError Unit} (err cache_full) (ok tt) =
                ap (λ r. r.0) (sym e) ∙ h in
              cc
          | inr room ↦ record {
            free = free;
            room = room;
            result = consume-added jti expires_at now cache free room;
          }
        ]
    | inr (x, used) ↦
        let e = consume-used jti expires_at now cache x used in
        let z : ◌≡◌ {A = Result TokenError Unit} (err token_used) (ok tt) =
          ap (λ r. r.0) (sym e) ∙ h in
        cc
  ]

-- The cache holds a jti until a time.
abbrev pub Holds : String → ℕ → ReplayCache → Type 0
Holds jti expires_at cache = find (is_jti jti) cache.entries ≡ some (jti, expires_at)

find_single :
    (jti : String) (expires_at : ℕ)
    → find (is_jti jti) ((jti, expires_at) ∷ []) ≡ some (jti, expires_at)
unfolding find
find_single jti expires_at = rw (eq_self jti)

pub consume-Holds :
    (jti : String) (expires_at now : ℕ) (cache : ReplayCache)
    → (consume jti expires_at now cache).0 ≡ ok tt
    → Holds jti expires_at (consume jti expires_at now cache).1
consume-Holds jti expires_at now cache h =
    let taken = consume-IsTaken jti expires_at now cache h in
    rw
      (
        taken.result,
        find-append (is_jti jti) (left jti expires_at now cache) ((jti, expires_at) ∷ []),
        taken.free,
      )
      (find_single jti expires_at)

live_until : (n e : ℕ) → n ≤ e → leb n e ≡ true
live_until n e h = ground arith

purge-Holds :
    (jti : String) (expires_at now : ℕ) (cache : ReplayCache)
    → now ≤ expires_at
    → Holds jti expires_at cache
    → Holds jti expires_at (purge now cache)
purge-Holds jti expires_at now cache early h =
    find-select (is_jti jti) (is_live now) cache.entries (jti, expires_at) h
      (live_until now expires_at early)

-- Any call until then, of whatever jti, keeps it.
pub Holds-consume :
    (jti other : String) (expires_at e now : ℕ) (cache : ReplayCache)
    → now ≤ expires_at
    → Holds jti expires_at cache
    → Holds jti expires_at (consume other e now cache).1
Holds-consume jti other expires_at e now cache early h =
    let kept = purge-Holds jti expires_at now cache early h in
    elim (Option-cases (find (is_jti other) (left other e now cache))) [
      | inl free ↦ elim (Bool-cases (leb cache.max_entries (length (left other e now cache)))) [
        | inl full ↦ rw (consume-full other e now cache free full) kept
        | inr room ↦ rw (
          consume-added other e now cache free room,
          find-append (is_jti jti) (left other e now cache) ((other, e) ∷ []),
          kept,
        )
      ]
      | inr (x, used) ↦ rw (consume-used other e now cache x used) kept
    ]

pub Holds-refuses :
    (jti : String) (expires_at e now : ℕ) (cache : ReplayCache)
    → now ≤ expires_at
    → Holds jti expires_at cache
    → (consume jti e now cache).0 ≡ err token_used
Holds-refuses jti expires_at e now cache early h =
    rw (
      consume-used jti e now cache (jti, expires_at) (purge-Holds jti expires_at now cache early h))

-- A call of `consume`, and calls one after the other.
pub record Attempt : Type 0 where
  pub jti : String
  pub expires_at : ℕ
  pub at : ℕ

unfoldable pub attempts : List Attempt → ReplayCache → ReplayCache
attempts [] cache = cache
attempts (a ∷ more) cache = attempts more (consume a.jti a.expires_at a.at cache).1

abbrev pub AllUntil : ℕ → List Attempt → Type 0
AllUntil e [] = Unit
AllUntil e (a ∷ more) = (a.at ≤ e) × AllUntil e more

pub attempts-Holds :
    (jti : String) (expires_at : ℕ) (later : List Attempt) (cache : ReplayCache)
    → AllUntil expires_at later
    → Holds jti expires_at cache
    → Holds jti expires_at (attempts later cache)
unfolding attempts
attempts-Holds jti expires_at [] cache early h = h
attempts-Holds jti expires_at (a ∷ more) cache early h =
    attempts-Holds jti expires_at more (consume a.jti a.expires_at a.at cache).1 early.1
      (Holds-consume jti a.jti expires_at a.expires_at a.at cache early.0 h)

select_lapsed :
    (jti : String) (expires_at now : ℕ)
    → expires_at < now
    → select (is_live now) ((jti, expires_at) ∷ []) ≡ []
unfolding select
select_lapsed jti expires_at now late = ground arith

none-append :
    (k : String × ℕ → Bool) (rs : List (String × ℕ)) → find k rs ≡ none → find k (rs ++ []) ≡ none
unfolding find
none-append k rs h = rw (find-append k rs [], h)

room_left : (m n a : ℕ) → leb m a ≡ false → n ≤ a → leb m n ≡ false
room_left m n a h le = ground arith

-- The entries that are left of a cache with one more, once that one has lapsed.
lapsed_left :
    (jti : String) (expires_at now : ℕ) (held : List (String × ℕ))
    → expires_at < now
    → select (is_live now) (held ++ (jti, expires_at) ∷ []) ≡ select (is_live now) held ++ []
lapsed_left jti expires_at now held late =
    select_append (is_live now) held ((jti, expires_at) ∷ [])
    ∙ ap (λ r. select (is_live now) held ++ r) (select_lapsed jti expires_at now late)

-- Once the time of an entry has passed, its jti is taken again.
pub consume_again :
    (jti : String) (expires_at now e now' : ℕ) (cache : ReplayCache)
    → (consume jti expires_at now cache).0 ≡ ok tt
    → expires_at < now'
    → (consume jti e now' (consume jti expires_at now cache).1).0 ≡ ok tt
consume_again jti expires_at now e now' cache h late =
    let taken = consume-IsTaken jti expires_at now cache h in
    let held = left jti expires_at now cache in
    let rest = lapsed_left jti expires_at now' held late in
    let free : find (is_jti jti) (select (is_live now') (held ++ (jti, expires_at) ∷ [])) ≡ none =
      rw rest (
        none-append (is_jti jti) (select (is_live now') held)
          (find-select-none (is_jti jti) (is_live now') held taken.free)) in
    let fewer : length (select (is_live now') (held ++ (jti, expires_at) ∷ [])) ≤ length held =
      rw rest (
        omega (
          arith,
          length-append (select (is_live now') held) [],
          length-select_le (is_live now') held,
        )) in
    let room = room_left cache.max_entries _ (length held) taken.room fewer in
    rw taken.result
      (ap (λ r. r.0) (consume-added jti e now' (added jti expires_at now cache) free room))
