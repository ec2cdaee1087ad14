-- ===== src/Base/Texts/Order.antt =====
-- `le_text`, the order of texts by their code points: it is total and transitive.
use Prim.Native.String.{String}
use evoagent_os.Base.{◌≡◌, refl, arith, true, false, Bool-cases, inl, inr}
use evoagent_os.Base.Texts.{le_text}

pub le_text_refl : (a : String) → le_text a a ≡ true
unfolding le_text
le_text_refl String.[] = refl
le_text_refl (String.◌∷◌ c s) = let rest = le_text_refl s in ground arith

pub le_text_total : (a b : String) → le_text a b ≡ false → le_text b a ≡ true
unfolding le_text
le_text_total String.[] b h = cc
le_text_total (String.◌∷◌ c s) String.[] h = refl
le_text_total (String.◌∷◌ c s) (String.◌∷◌ d t) h = elim (Bool-cases (le_text s t)) [
  | inl below ↦ ground arith
  | inr above ↦ let back = le_text_total s t above in ground arith
]

pub le_text_trans : (a b c : String) → le_text a b ≡ true → le_text b c ≡ true → le_text a c ≡ true
unfolding le_text
le_text_trans String.[] b c h k = refl
le_text_trans (String.◌∷◌ x s) String.[] c h k = cc
le_text_trans (String.◌∷◌ x s) (String.◌∷◌ y t) String.[] h k = cc
le_text_trans (String.◌∷◌ x s) (String.◌∷◌ y t) (String.◌∷◌ z u) h k =
    elim (Bool-cases (le_text s t)) [
      | inl p ↦ elim (Bool-cases (le_text t u)) [
        | inl q ↦ let rest = le_text_trans s t u p q in ground arith
        | inr q ↦ ground arith
      ]
      | inr p ↦ ground arith
    ]
