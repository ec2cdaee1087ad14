-- ===== src/Realtime/Chunking.antt =====
-- services/realtime/src/echoweave/chunking.py: `SemanticChunker`, which cuts a stream of text into
-- phrases to speak. A text is the list of its code points.
pub mod Visible
pub mod Settled
use evoagent_os.Base.{
  ◌≡◌, ℕ, zero, suc, ◌+◌, Bool, true, false, not, ◌&&◌, ◌||◌, List, [], ◌∷◌, ◌++◌, Option, none,
  some, length, ltb, leb, nat_eq, if◌then◌else◌,
}
use evoagent_os.Base.Texts.{is_space}
use evoagent_os.Base.Action.{Result, ok, err}

-- STRONG_ENDINGS: 。！？!?；; and the end of a line.
unfoldable pub is_strong : ℕ → Bool
is_strong c =
    nat_eq c 12_290
    || nat_eq c 65_281
    || nat_eq c 65_311
    || nat_eq c 33
    || nat_eq c 63
    || nat_eq c 65_307
    || nat_eq c 59
    || nat_eq c 10

-- SOFT_ENDINGS: ，,：:
unfoldable pub is_soft : ℕ → Bool
is_soft c = nat_eq c 65_292 || nat_eq c 44 || nat_eq c 65_306 || nat_eq c 58

-- `text[:n]` and `text[n:]`.
unfoldable pub take : ℕ → List ℕ → List ℕ
take zero text = []
take (suc n) [] = []
take (suc n) (c ∷ cs) = c ∷ take n cs

unfoldable pub drop : ℕ → List ℕ → List ℕ
drop zero text = text
drop (suc n) [] = []
drop (suc n) (c ∷ cs) = drop n cs

unfoldable pub lstrip : List ℕ → List ℕ
lstrip [] = []
lstrip (c ∷ cs) = let rest = lstrip cs in if is_space c then rest else c ∷ cs

abbrev pub is_empty : List ℕ → Bool
is_empty [] = true
is_empty (_ ∷ _) = false

unfoldable pub rstrip : List ℕ → List ℕ
rstrip [] = []
rstrip (c ∷ cs) = let rest = rstrip cs in if is_space c && is_empty rest then [] else c ∷ rest

abbrev pub strip : List ℕ → List ℕ
strip text = rstrip (lstrip text)

pub record SemanticChunker : Type 0 where
  pub min_chars : ℕ
  pub max_chars : ℕ
  pub buffer : List ℕ

pub data ChunkerError : Type 0 where
  min_not_positive max_below_min : ChunkerError

unfoldable pub semantic_chunker : ℕ → ℕ → Result ChunkerError SemanticChunker
semantic_chunker min_chars max_chars =
    if ltb min_chars 1
    then err min_not_positive
    else if ltb max_chars min_chars
    then err max_below_min
    else ok (record { min_chars = min_chars; max_chars = max_chars; buffer = [] })

-- The first strong ending, counted from `index`, that does not come too early.
unfoldable pub first_strong : ℕ → ℕ → List ℕ → Option ℕ
first_strong least index [] = none
first_strong least index (c ∷ cs) =
    let later = first_strong least (suc index) cs in
    if is_strong c && leb least index then some index else later

-- `candidates[-1]`, if there is one.
unfoldable pub last_soft : ℕ → List ℕ → Option ℕ
last_soft index [] = none
last_soft index (c ∷ cs) =
    let later = last_soft (suc index) cs in
    elim later [ some at ↦ some at | none ↦ if is_soft c || is_space c then some index else none ]

abbrev pub or_else : ℕ → Option ℕ → ℕ
or_else n none = n
or_else n (some m) = m

abbrev pub min : ℕ → ℕ → ℕ
min a b = if leb a b then a else b

unfoldable pub strong_split : ℕ → ℕ → List ℕ → Option ℕ
strong_split min_chars max_chars buffer =
    if leb min_chars (length buffer)
    then first_strong min_chars 1 (take (min (length buffer) max_chars) buffer)
    else none

unfoldable pub soft_split : ℕ → List ℕ → Option ℕ
soft_split max_chars buffer =
    if leb max_chars (length buffer)
    then some (or_else max_chars (last_soft 1 (take max_chars buffer)))
    else none

-- `_find_split`.
unfoldable pub find_split : ℕ → ℕ → List ℕ → Option ℕ
find_split min_chars max_chars buffer = elim (strong_split min_chars max_chars buffer) [
  | some at ↦ some at
  | none ↦ soft_split max_chars buffer
]

abbrev pub append_phrase : List ℕ → List (List ℕ) → List (List ℕ)
append_phrase [] ready = ready
append_phrase (c ∷ cs) ready = (c ∷ cs) ∷ ready

-- The loop of `push`, on fuel: its phrases, and the buffer that it leaves.
unfoldable pub drain : ℕ → ℕ → ℕ → List ℕ → List (List ℕ) × List ℕ
drain zero min_chars max_chars buffer = ([], buffer)
drain (suc fuel) min_chars max_chars [] = ([], [])
drain (suc fuel) min_chars max_chars (c ∷ cs) = elim (find_split min_chars max_chars (c ∷ cs)) [
  | none ↦ ([], c ∷ cs)
  | some at ↦
      let (ready, rest) = drain fuel min_chars max_chars (drop at (c ∷ cs)) in
      (append_phrase (strip (take at (c ∷ cs))) ready, rest)
]

pub drain-none :
    (fuel least most c : ℕ) (cs : List ℕ)
    → find_split least most (c ∷ cs) ≡ none
    → drain (suc fuel) least most (c ∷ cs) ≡ ([], c ∷ cs)
unfolding drain
drain-none fuel least most c cs n = rw (n, drain)

pub drain-some :
    (fuel least most c : ℕ) (cs : List ℕ) (at : ℕ)
    → find_split least most (c ∷ cs) ≡ some at
    → drain (suc fuel) least most (c ∷ cs) ≡ (
      append_phrase (strip (take at (c ∷ cs))) (drain fuel least most (drop at (c ∷ cs))).0,
      (drain fuel least most (drop at (c ∷ cs))).1,
    )
unfolding drain
drain-some fuel least most c cs at n = rw (n, drain)

-- Each turn of the loop takes a character or more, so the length of the buffer is fuel enough.
unfoldable pub push : List ℕ → SemanticChunker → List (List ℕ) × SemanticChunker
push [] c = ([], c)
push (d ∷ ds) c =
    let buffer = c.buffer ++ d ∷ ds in
    let (ready, rest) = drain (length buffer) c.min_chars c.max_chars buffer in
    (ready, record c { buffer = rest })

unfoldable pub flush : SemanticChunker → List ℕ × SemanticChunker
flush c = (strip c.buffer, record c { buffer = [] })
