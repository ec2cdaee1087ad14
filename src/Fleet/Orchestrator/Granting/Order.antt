-- ===== src/Fleet/Orchestrator/Granting/Order.antt =====
-- orchestrator.py, `claim`: the order in which it looks at the queued rows.
use mathlib.Core.List.{Memᴰ}
use mathlib.Core.List.Memᴰ
use evoagent_os.Base.{
  ℕ, ◌<◌, ◌≡◌, refl, sym, subst, ◌∙◌, arith, ◌⊎◌, inl, inr, Bool, true, false, ◌&&◌, ◌||◌, List, [],
  ◌∷◌, some, Bool-cases, ltb, nat_eq,
}
use evoagent_os.Base.Rows.{find}
use evoagent_os.Base.Texts.{le_text}
use evoagent_os.Base.Texts.Order.{le_text_refl, le_text_total, le_text_trans}
use evoagent_os.Fleet.Store.{Node}
use evoagent_os.Fleet.Orchestrator.Claim.{row_le, insert_row, order_rows}

mem-insert_row :
    (n : Node) (l : List Node) {r : Node} → Memᴰ r (insert_row n l) → (r ≡ n) ⊎ Memᴰ r l
unfolding insert_row
mem-insert_row n [] m = Memᴰ.cases_cons m
mem-insert_row n (x ∷ l) m = elim (Bool-cases (row_le n x)) [
  | inl before ↦ Memᴰ.cases_cons (rw before at m)
  | inr behind ↦ elim (Memᴰ.cases_cons (rw behind at m)) [
    | inl e ↦ inr (Memᴰ.head e)
    | inr there ↦ elim (mem-insert_row n l there) [ inl e ↦ inl e | inr old ↦ inr (Memᴰ.tail old) ]
  ]
]

pub mem-order_rows : (l : List Node) {r : Node} → Memᴰ r (order_rows l) → Memᴰ r l
unfolding order_rows
mem-order_rows [] m = m
mem-order_rows (x ∷ l) m = elim (mem-insert_row x (order_rows l) m) [
  | inl e ↦ Memᴰ.head e
  | inr old ↦ Memᴰ.tail (mem-order_rows l old)
]

mem_insert_row_self : (n : Node) (l : List Node) → Memᴰ n (insert_row n l)
unfolding insert_row
mem_insert_row_self n [] = Memᴰ.head refl
mem_insert_row_self n (x ∷ l) = elim (Bool-cases (row_le n x)) [
  | inl before ↦ rw before (Memᴰ.head refl)
  | inr behind ↦ rw behind (Memᴰ.tail (mem_insert_row_self n l))
]

mem_insert_row_of : (n : Node) (l : List Node) {r : Node} → Memᴰ r l → Memᴰ r (insert_row n l)
unfolding insert_row
mem_insert_row_of n [] m = Memᴰ.tail m
mem_insert_row_of n (x ∷ l) m = elim (Bool-cases (row_le n x)) [
  | inl before ↦ rw before (Memᴰ.tail m)
  | inr behind ↦ rw behind (elim (Memᴰ.cases_cons m) [
    | inl e ↦ Memᴰ.head e
    | inr there ↦ Memᴰ.tail (mem_insert_row_of n l there)
  ])
]

pub mem-order_rows_of : (l : List Node) {r : Node} → Memᴰ r l → Memᴰ r (order_rows l)
unfolding order_rows
mem-order_rows_of [] m = m
mem-order_rows_of (x ∷ l) m = elim (Memᴰ.cases_cons m) [
  | inl e ↦
      subst (λ y. Memᴰ y (insert_row x (order_rows l))) (sym e)
        (mem_insert_row_self x (order_rows l))
  | inr old ↦ mem_insert_row_of x (order_rows l) (mem-order_rows_of l old)
]

-- A row is not behind another by `created_at,node_id`: it is older, or as old and its node_id is
-- not behind the other's.
abbrev pub ComesFirst : Node → Node → Type 0
ComesFirst a b =
    (a.created_at < b.created_at)
    ⊎ ((a.created_at ≡ b.created_at) × (le_text a.node_id b.node_id ≡ true))

-- No row stands behind one that it comes before.
abbrev pub IsOrdered : List Node → Type 0
IsOrdered [] = Unit
IsOrdered (x ∷ l) = ((r : Node) → Memᴰ r l → ComesFirst x r) × IsOrdered l

ComesFirst-refl : (a : Node) → ComesFirst a a
ComesFirst-refl a = inr (refl, le_text_refl a.node_id)

ComesFirst-trans : (a b c : Node) → ComesFirst a b → ComesFirst b c → ComesFirst a c
ComesFirst-trans a b c (inl p) (inl q) = inl (omega arith)
ComesFirst-trans a b c (inl p) (inr (q, _)) = inl (omega arith)
ComesFirst-trans a b c (inr (p, _)) (inl q) = inl (omega arith)
ComesFirst-trans a b c (inr (p, i)) (inr (q, j)) =
    inr (p ∙ q, le_text_trans a.node_id b.node_id c.node_id i j)

-- What a comparison of two ages and, where they are the same, of two texts says.
before_cases :
    (a b : ℕ) (t : Bool) → (ltb a b || (nat_eq a b && t)) ≡ true → (a < b) ⊎ ((a ≡ b) × (t ≡ true))
before_cases a b t h = ground arith

behind_cases :
    (a b : ℕ) (t : Bool)
    → (ltb a b || (nat_eq a b && t)) ≡ false
    → (b < a) ⊎ ((b ≡ a) × (t ≡ false))
behind_cases a b t h = ground arith

row_le-ComesFirst : (a b : Node) → row_le a b ≡ true → ComesFirst a b
row_le-ComesFirst a b h = before_cases a.created_at b.created_at (le_text a.node_id b.node_id) h

row_gt-ComesFirst : (a b : Node) → row_le a b ≡ false → ComesFirst b a
row_gt-ComesFirst a b h =
    elim (behind_cases a.created_at b.created_at (le_text a.node_id b.node_id) h) [
      | inl younger ↦ inl younger
      | inr (same, above) ↦ inr (same, le_text_total a.node_id b.node_id above)
    ]

insert_row-IsOrdered : (n : Node) (l : List Node) → IsOrdered l → IsOrdered (insert_row n l)
unfolding insert_row
insert_row-IsOrdered n [] s = (λ r m. absurd (Memᴰ.not-nil m), tt)
insert_row-IsOrdered n (x ∷ l) s = elim (Bool-cases (row_le n x)) [
  | inl before ↦
      let first = row_le-ComesFirst n x before in
      rw before (
        λ r m. elim (Memᴰ.cases_cons m) [
          | inl e ↦ subst (ComesFirst n) (sym e) first
          | inr there ↦ ComesFirst-trans n x r first (s.0 r there)
        ],
        s,
      )
  | inr behind ↦ rw behind (
    λ r m. elim (mem-insert_row n l m) [
      | inl e ↦ subst (ComesFirst x) (sym e) (row_gt-ComesFirst n x behind)
      | inr there ↦ s.0 r there
    ],
    insert_row-IsOrdered n l s.1,
  )
]

pub order_rows-IsOrdered : (l : List Node) → IsOrdered (order_rows l)
unfolding order_rows
order_rows-IsOrdered [] = tt
order_rows-IsOrdered (x ∷ l) = insert_row-IsOrdered x (order_rows l) (order_rows-IsOrdered l)

-- The first row that passes a test comes before every row that does.
pub find-first :
    (p : Node → Bool) (l : List Node) (row q : Node)
    → IsOrdered l
    → find p l ≡ some row
    → Memᴰ q l
    → p q ≡ true
    → ComesFirst row q
unfolding find
find-first p [] row q s h m passes = cc
find-first p (x ∷ l) row q s h m passes = elim (Bool-cases (p x)) [
  | inl hit ↦
      let same : x ≡ row = cc (rw hit at h) in
      subst (λ y. ComesFirst y q) same
        (elim (Memᴰ.cases_cons m) [
          | inl e ↦ subst (ComesFirst x) (sym e) (ComesFirst-refl x)
          | inr there ↦ s.0 q there
        ])
  | inr miss ↦ elim (Memᴰ.cases_cons m) [
    | inl e ↦ cc (subst (λ y. p y ≡ true) e passes)
    | inr there ↦ find-first p l row q s.1 (rw miss at h) there passes
  ]
]
