-- ===== src/Realtime/Auth/Capacity.antt =====
-- auth.py: how many entries a `ReplayCache` holds.
use evoagent_os.Base.{
  ℕ, zero, suc, ◌+◌, ◌≤◌, ◌≡◌, refl, ◌∙◌, arith, inl, inr, String, false, List, [], ◌∷◌, some, leb,
  length, length-append, Bool-cases, Option-cases,
}
use evoagent_os.Base.Rows.{find}
use evoagent_os.Realtime.Auth.{ReplayCache, replay_cache, consume, is_live, is_jti}
use evoagent_os.Realtime.Auth.Replay.{
  length-select_le, left, consume-used, consume-full, consume-added, Attempt, attempts,
}

-- The cache holds at most as many entries as it may.
abbrev pub IsBounded : ReplayCache → Type 0
IsBounded cache = length cache.entries ≤ cache.max_entries

no_room : (m n : ℕ) → leb m n ≡ false → n + 1 ≤ m
no_room m n h = ground arith

-- A call keeps the number of entries within the limit, and the limit as it is.
abbrev Keeps : ReplayCache → ReplayCache → Type 0
Keeps cache after = IsBounded after × (after.max_entries ≡ cache.max_entries)

consume-Keeps :
    (jti : String) (expires_at now : ℕ) (cache : ReplayCache)
    → IsBounded cache
    → Keeps cache (consume jti expires_at now cache).1
consume-Keeps jti expires_at now cache h =
    let held = left jti expires_at now cache in
    let fewer = length-select_le (is_live now) cache.entries in
    elim (Option-cases (find (is_jti jti) held)) [
      | inl free ↦ elim (Bool-cases (leb cache.max_entries (length held))) [
        | inl full ↦
            rw (consume-full jti expires_at now cache free full) (omega (arith, h, fewer), refl)
        | inr room ↦ rw (consume-added jti expires_at now cache free room) (
          omega (
            arith,
            length-append held ((jti, expires_at) ∷ []),
            no_room cache.max_entries (length held) room,
          ),
          refl,
        )
      ]
      | inr (x, used) ↦
          rw (consume-used jti expires_at now cache x used) (omega (arith, h, fewer), refl)
    ]

attempts-Keeps :
    (later : List Attempt) (cache : ReplayCache)
    → IsBounded cache
    → Keeps cache (attempts later cache)
unfolding attempts
attempts-Keeps [] cache h = (h, refl)
attempts-Keeps (a ∷ more) cache h =
    let (first, same) = consume-Keeps a.jti a.expires_at a.at cache h in
    let (rest, again) = attempts-Keeps more (consume a.jti a.expires_at a.at cache).1 first in
    (rest, again ∙ same)

replay_cache-empty :
    (n : ℕ) (cache : ReplayCache)
    → replay_cache n ≡ some cache
    → IsBounded cache × (cache.max_entries ≡ n)
unfolding replay_cache
replay_cache-empty zero cache h = cc
replay_cache-empty (suc n) cache h = elim (Bool-cases (leb (suc n) 1_000_000)) [
  | inl e ↦
      let new : ◌≡◌ {A = ReplayCache} (record { max_entries = suc n; entries = [] }) cache =
        cc (rw e at h) in
      rw (← new) (omega arith, refl)
  | inr e ↦ cc (rw e at h)
]

-- A cache made by `ReplayCache(n)` holds at most `n` entries after any calls of `consume`, whether they
-- return or raise.
pub attempts-IsBounded :
    (n : ℕ) (cache : ReplayCache) (calls : List Attempt)
    → replay_cache n ≡ some cache
    → length (attempts calls cache).entries ≤ n
attempts-IsBounded n cache calls made =
    let (new, size) = replay_cache-empty n cache made in
    let (bound, same) = attempts-Keeps calls cache new in omega (arith, bound, same, size)
