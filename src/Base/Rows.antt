-- ===== src/Base/Rows.antt =====
-- The tables of the SQLite stores: a table is the list of its rows, in the order of insertion.
use evoagent_os.Base.Tests.{if◌then◌else◌, Bool-cases}
use native.Mathlib.Omega.{arith}
use Prim.Native.Nat.{◌≤◌, ℕ, ◌+◌}
use mathlib.Core.Path.{◌≡◌, refl, sym, ap}
use mathlib.Core.Logic.{◌⊎◌, inl, inr}
use mathlib.Core.Bool.{Bool, true}
use mathlib.Core.Option
use mathlib.Core.Option.{Option, none, some}
use mathlib.Core.List.Memᴰ
use mathlib.Core.Path.{ap₂}
use evoagent_os.Base.Tests.{length}
use mathlib.Core.List.{map, List, [], ◌∷◌, ◌++◌, Memᴰ}

count_step :
    (b c : Bool) (m n k : ℕ)
    → m ≤ n + k
    → (if b then 1 else 0) + m ≤ (if c then 1 else 0) + n + (1 + k)
count_step b c m n k h = ground arith

le_if : (b : Bool) {m n : ℕ} → m ≤ n → 0 + m ≤ (if b then 1 else 0) + n
le_if b h = ground arith

module _ {ℓ} {A : Type ℓ} where
  -- SELECT * FROM table WHERE p
  unfoldable pub select : (A → Bool) → List A → List A
  select p [] = []
  select p (r ∷ rs) = let rest = select p rs in if p r then r ∷ rest else rest

  -- SELECT COUNT(*) FROM table WHERE p, and the row count of an update
  unfoldable pub count : (A → Bool) → List A → ℕ
  count p [] = 0
  count p (r ∷ rs) = (if p r then 1 else 0) + count p rs

  -- UPDATE table SET f WHERE p
  unfoldable pub update_where : (A → Bool) → (A → A) → List A → List A
  update_where p f [] = []
  update_where p f (r ∷ rs) = (if p r then f r else r) ∷ update_where p f rs

  -- fetchone() of SELECT * FROM table WHERE p
  unfoldable pub find : (A → Bool) → List A → Option A
  find p [] = none
  find p (r ∷ rs) = if p r then some r else find p rs

  unfoldable pub head? : List A → Option A
  head? [] = none
  head? (r ∷ rs) = some r

  -- What an update makes of a row.
  abbrev pub revised : (A → Bool) → (A → A) → A → A
  revised p f r = if p r then f r else r

  -- A selected row is a row of the table that passes the test.
  pub mem-select :
      (p : A → Bool) (rs : List A) {r : A} → Memᴰ r (select p rs) → Memᴰ r rs × (p r ≡ true)
  unfolding select
  mem-select p [] m = absurd (Memᴰ.not-nil m)
  mem-select p (x ∷ rs) m = elim (Bool-cases (p x)) [
    | inl e ↦ elim (Memᴰ.cases_cons (rw e at m)) [
      | inl here ↦ (Memᴰ.head here, rw here e)
      | inr there ↦ let (m', h) = mem-select p rs there in (Memᴰ.tail m', h)
    ]
    | inr e ↦ let (m', h) = mem-select p rs (rw e at m) in (Memᴰ.tail m', h)
  ]

  -- A row after an update is what the update makes of a row before it.
  pub mem-update :
      (p : A → Bool) (f : A → A) (rs : List A) {r : A}
      → Memᴰ r (update_where p f rs)
      → (q : A) × Memᴰ q rs × (r ≡ revised p f q)
  unfolding update_where
  mem-update p f [] m = absurd (Memᴰ.not-nil m)
  mem-update p f (x ∷ rs) m = elim (Memᴰ.cases_cons m) [
    | inl here ↦ (x, Memᴰ.head refl, here)
    | inr there ↦ let (q, mq, e) = mem-update p f rs there in (q, Memᴰ.tail mq, e)
  ]

  pub mem-update_of :
      (p : A → Bool) (f : A → A) (rs : List A) {q : A}
      → Memᴰ q rs
      → Memᴰ (revised p f q) (update_where p f rs)
  unfolding update_where
  mem-update_of p f [] m = absurd (Memᴰ.not-nil m)
  mem-update_of p f (x ∷ rs) (Memᴰ.head e) = Memᴰ.head (ap (revised p f) e)
  mem-update_of p f (x ∷ rs) (Memᴰ.tail m) = Memᴰ.tail (mem-update_of p f rs m)

  pub mem-select_of :
      (p : A → Bool) (rs : List A) {r : A} → Memᴰ r rs → p r ≡ true → Memᴰ r (select p rs)
  unfolding select
  mem-select_of p [] m h = absurd (Memᴰ.not-nil m)
  mem-select_of p (x ∷ rs) (Memᴰ.head e) h = rw (rw e at h) (Memᴰ.head e)
  mem-select_of p (x ∷ rs) (Memᴰ.tail m) h = elim (Bool-cases (p x)) [
    | inl e ↦ rw e (Memᴰ.tail (mem-select_of p rs m h))
    | inr e ↦ rw e (mem-select_of p rs m h)
  ]

  -- A search by a test that the update does not affect finds the updated row.
  pub find-update :
      (k p : A → Bool) (f : A → A) (rs : List A)
      → ((r : A) → Memᴰ r rs → k (revised p f r) ≡ k r)
      → find k (update_where p f rs) ≡ Option.map (revised p f) (find k rs)
  unfolding find update_where
  find-update k p f [] h = refl
  find-update k p f (x ∷ rs) h = elim (Bool-cases (k x)) [
    | inl e ↦ rw (h x (Memᴰ.head refl), e)
    | inr e ↦ rw (h x (Memᴰ.head refl), e) (find-update k p f rs (λ r m. h r (Memᴰ.tail m)))
  ]

  pub find-append :
      (k : A → Bool) (rs qs : List A)
      → find k (rs ++ qs) ≡ elim (find k rs) [ none ↦ find k qs | some r ↦ some r ]
  unfolding find
  find-append k [] qs = refl
  find-append k (x ∷ rs) qs = elim (Bool-cases (k x)) [
    | inl e ↦ rw e
    | inr e ↦ rw e (find-append k rs qs)
  ]

  -- What a search finds is a row of the table that passes the test.
  pub mem-find :
      (k : A → Bool) (rs : List A) {r : A} → find k rs ≡ some r → Memᴰ r rs × (k r ≡ true)
  unfolding find
  mem-find k [] h = cc
  mem-find k (x ∷ rs) {r} h = elim (Bool-cases (k x)) [
    | inl e ↦ let same : x ≡ r = cc (rw e at h) in (Memᴰ.head (sym same), rw (← same) e)
    | inr e ↦ let (m, g) = mem-find k rs (rw e at h) in (Memᴰ.tail m, g)
  ]

  pub mem_snoc : (rs : List A) {x r : A} → Memᴰ r (rs ++ x ∷ []) → Memᴰ r rs ⊎ (r ≡ x)
  mem_snoc [] m = elim (Memᴰ.cases_cons m) [
    | inl e ↦ inr e
    | inr there ↦ absurd (Memᴰ.not-nil there)
  ]
  mem_snoc (y ∷ rs) m = elim (Memᴰ.cases_cons m) [
    | inl e ↦ inl (Memᴰ.head e)
    | inr there ↦ elim (mem_snoc rs there) [ inl old ↦ inl (Memᴰ.tail old) | inr e ↦ inr e ]
  ]

  pub mem-head? : (rs : List A) (r : A) → head? rs ≡ some r → Memᴰ r rs
  unfolding head?
  mem-head? [] r h = cc
  mem-head? (x ∷ rs) r h = let same : r ≡ x = cc in Memᴰ.head same

  pub count_absent : (p : A → Bool) (rs : List A) → find p rs ≡ none → count p rs ≡ 0
  unfolding find count
  count_absent p [] h = refl
  count_absent p (r ∷ rs) h = elim (Bool-cases (p r)) [
    | inl hit ↦ cc (rw hit at h)
    | inr miss ↦ rw miss (omega (arith, count_absent p rs (rw miss at h)))
  ]

  -- Rows that a test counts after an update were counted before it, or were updated.
  pub count-update_le :
      (k p : A → Bool) (f : A → A) (rs : List A)
      → count k (update_where p f rs) ≤ count k rs + count p rs
  unfolding count update_where
  count-update_le k p f [] = omega arith
  count-update_le k p f (r ∷ rs) = elim (Bool-cases (p r)) [
    | inl hit ↦
        rw hit (count_step (k (f r)) (k r) _ (count k rs) (count p rs) (count-update_le k p f rs))
    | inr miss ↦ rw miss (omega (arith, count-update_le k p f rs))
  ]

  pub count_mono :
      (p q : A → Bool) (rs : List A) → ((r : A) → p r ≡ true → q r ≡ true) → count p rs ≤ count q rs
  unfolding count
  count_mono p q [] h = omega arith
  count_mono p q (r ∷ rs) h = elim (Bool-cases (p r)) [
    | inl hit ↦ rw (hit, h r hit) (omega (arith, count_mono p q rs h))
    | inr miss ↦ rw miss (le_if (q r) (count_mono p q rs h))
  ]

  pub map_same : (rs : List A) → map (λ r. r) rs ≡ rs
  map_same [] = refl
  map_same (r ∷ rs) = ap (◌∷◌ r) (map_same rs)

  pub map-update :
      (p : A → Bool) (f g : A → A) (rs : List A)
      → map g (update_where p f rs) ≡ map (λ r. g (revised p f r)) rs
  unfolding update_where
  map-update p f g [] = refl
  map-update p f g (r ∷ rs) = ap (◌∷◌ (g (revised p f r))) (map-update p f g rs)

  pub map_eq_update :
      (p : A → Bool) (f g : A → A) (rs : List A)
      → ((r : A) → Memᴰ r rs → g r ≡ revised p f r)
      → map g rs ≡ update_where p f rs
  unfolding update_where
  map_eq_update p f g [] h = refl
  map_eq_update p f g (r ∷ rs) h =
      ap₂ ◌∷◌ (h r (Memᴰ.head refl)) (map_eq_update p f g rs (λ q m. h q (Memᴰ.tail m)))

  pub length-select : (p : A → Bool) (rs : List A) → length (select p rs) ≡ count p rs
  unfolding select count
  length-select p [] = refl
  length-select p (r ∷ rs) = elim (Bool-cases (p r)) [
    | inl e ↦ rw e (omega (arith, length-select p rs))
    | inr e ↦ rw e (omega (arith, length-select p rs))
  ]
