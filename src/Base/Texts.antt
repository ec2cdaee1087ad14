-- ===== src/Base/Texts.antt =====
-- Functions of Python on texts.
pub mod Order
use Prim.Native.Char.{code}
use evoagent_os.Base.Tests.{ltb, leb, nat_eq, if◌then◌else◌, ◌==◌}
use Prim.Native.Nat.{ℕ}
use Prim.Native.String.{String}
use mathlib.Core.Bool.{Bool, true, false, ◌&&◌, ◌||◌}

-- `str.isspace` of a character.
unfoldable pub is_space : ℕ → Bool
is_space c =
    (leb 9 c && leb c 13)
    || (leb 28 c && leb c 32)
    || nat_eq c 133
    || nat_eq c 160
    || nat_eq c 5_760
    || (leb 8_192 c && leb c 8_202)
    || nat_eq c 8_232
    || nat_eq c 8_233
    || nat_eq c 8_239
    || nat_eq c 8_287
    || nat_eq c 12_288

unfoldable pub lstrip : String → String
lstrip String.[] = String.[]
lstrip (String.◌∷◌ c s) = let rest = lstrip s in if is_space (code c) then rest else String.◌∷◌ c s

unfoldable pub rstrip : String → String
rstrip String.[] = String.[]
rstrip (String.◌∷◌ c s) =
    let rest = rstrip s in if is_space (code c) && rest == "" then String.[] else String.◌∷◌ c rest

-- `text.strip()`.
abbrev pub strip : String → String
strip text = rstrip (lstrip text)

-- Every character of a text is in a class.
unfoldable pub all_chars : (ℕ → Bool) → String → Bool
all_chars p String.[] = true
all_chars p (String.◌∷◌ c s) = p (code c) && all_chars p s

-- Texts in the order of their code points.
unfoldable pub le_text : String → String → Bool
le_text String.[] b = true
le_text (String.◌∷◌ c s) String.[] = false
le_text (String.◌∷◌ c s) (String.◌∷◌ d t) =
    let rest = le_text s t in ltb (code c) (code d) || (nat_eq (code c) (code d) && rest)
