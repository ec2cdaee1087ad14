-- ===== src/Base/Tests.antt =====
-- Boolean tests on native numbers and texts, and lists measured by native numbers.
use Prim.Native.Nat.{ℕ, suc, ◌+◌, compare, Ordering}
use Prim.Native.String.{String}
use mathlib.Core.Path.{◌≡◌, refl}
use mathlib.Core.Logic.{◌⊎◌, inl, inr}
use mathlib.Core.Bool.{Bool, true, false, ◌&&◌, ◌||◌}
use mathlib.Core.Option.{Option, none, some}
use mathlib.Core.List.{List, [], ◌∷◌, ◌++◌}
use native.Mathlib.Omega.{arith}
use text.Mathlib.Text.{◌==◌ as text_eq}
use text.Mathlib.TextEquality.{eq_iff}

infix 1 if◌then◌else◌
abbrev pub if◌then◌else◌ {ℓ} : {A : Type ℓ} → Bool → A → A → A
if true then x else _ = x
if false then _ else y = y

abbrev pub ltb : ℕ → ℕ → Bool
ltb a b = elim (compare a b) [ Ordering.lt ↦ true | _ ↦ false ]

abbrev pub leb : ℕ → ℕ → Bool
leb a b = elim (compare a b) [ Ordering.gt ↦ false | _ ↦ true ]

abbrev pub nat_eq : ℕ → ℕ → Bool
nat_eq a b = elim (compare a b) [ Ordering.eq ↦ true | _ ↦ false ]

-- Equality of texts.
infix 50 ◌==◌
abbrev pub ◌==◌ : String → String → Bool
a == b = text_eq a b

pub Bool-cases : (b : Bool) → (b ≡ true) ⊎ (b ≡ false)
Bool-cases true = inl refl
Bool-cases false = inr refl

pub Option-cases {ℓ} : {A : Type ℓ} (o : Option A) → (o ≡ none) ⊎ ((a : A) × (o ≡ some a))
Option-cases none = inl refl
Option-cases (some a) = inr (a, refl)

pub eq_true : (a b : String) → (a == b) ≡ true → a ≡ b
eq_true a b h = (eq_iff a b).0 h

pub eq_self : (a : String) → (a == a) ≡ true
eq_self a = (eq_iff a a).1 refl

pub and_true : (a b : Bool) → (a && b) ≡ true → (a ≡ true) × (b ≡ true)
and_true a b h = ground arith

-- `text in texts`.
abbrev pub mem_text : String → List String → Bool
mem_text a [] = false
mem_text a (x ∷ xs) = a == x || mem_text a xs

module _ {ℓ} {A : Type ℓ} where
  abbrev pub length : List A → ℕ
  length [] = 0
  length (x ∷ xs) = suc (length xs)

  -- `all(...)` and `any(...)` over a list.
  abbrev pub all : (A → Bool) → List A → Bool
  all p [] = true
  all p (x ∷ xs) = p x && all p xs

  pub length-append : (xs ys : List A) → length (xs ++ ys) ≡ length xs + length ys
  length-append [] ys = omega arith
  length-append (x ∷ xs) ys = omega (arith, length-append xs ys)

pub mem_text-cons :
    (a x : String) (xs : List String)
    → mem_text a (x ∷ xs) ≡ true
    → (a ≡ x) ⊎ (mem_text a xs ≡ true)
mem_text-cons a x xs h = elim (Bool-cases (a == x)) [
  | inl e ↦ inl (eq_true a x e)
  | inr e ↦ inr (rw e at h)
]

pub mem_text-cons_self : (a : String) (xs : List String) → mem_text a (a ∷ xs) ≡ true
mem_text-cons_self a xs = rw (eq_self a)

pub mem_text-cons_of :
    (a x : String) (xs : List String) → mem_text a xs ≡ true → mem_text a (x ∷ xs) ≡ true
mem_text-cons_of a x xs h = rw h (or_true (a == x))
  where
    or_true : (b : Bool) → (b || true) ≡ true
    or_true true = refl
    or_true false = refl

pub mem_text-head : (a b : String) (xs : List String) → a ≡ b → mem_text a (b ∷ xs) ≡ true
mem_text-head a b xs e = rw ((eq_iff a b).1 e)

pub mem_text-cons_only :
    (a b : String) (xs : List String) → mem_text a (b ∷ []) ≡ true → mem_text a (b ∷ xs) ≡ true
mem_text-cons_only a b xs h = elim (mem_text-cons a b [] h) [
  | inl e ↦ mem_text-head a b xs e
  | inr e ↦ cc
]

pub eq_sym : (a b : String) → (a == b) ≡ (b == a)
eq_sym a b = ground (arith, eq_iff a b, eq_iff b a)
