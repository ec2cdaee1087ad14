-- ===== src/Realtime/Chunking/Settled.antt =====
-- chunking.py: the sizes of the phrases and of the buffer.
use evoagent_os.Base.{
  ℕ, zero, suc, ◌+◌, ◌≤◌, ◌<◌, ◌≡◌, refl, sym, subst, ◌∙◌, ◌&&◌, List, [], ◌∷◌, ◌++◌, none, some,
  length, Bool-cases, Option-cases, ◌⊎◌, inl, inr, arith, leb,
}
use evoagent_os.Base.Action.{ok}
use evoagent_os.Realtime.Chunking.{
  is_strong, take, drop, lstrip, rstrip, strip, first_strong, last_soft, min, strong_split,
  soft_split, SemanticChunker, semantic_chunker, find_split, append_phrase, drain, push, drain-none,
  drain-some,
}

first_strong_range :
    (least index : ℕ) (cs : List ℕ) (at : ℕ)
    → first_strong least index cs ≡ some at
    → (index ≤ at) × (at < index + length cs)
unfolding first_strong
first_strong_range least index [] at h = cc
first_strong_range least index (c ∷ cs) at h = elim (Bool-cases (is_strong c && leb least index)) [
  | inl s ↦ (let w = rw s at h in ground arith)
  | inr s ↦
      let w = rw s at h in
      let (low, high) = first_strong_range least (suc index) cs at w in ground arith
]

last_soft_range :
    (index : ℕ) (cs : List ℕ) (at : ℕ)
    → last_soft index cs ≡ some at
    → (index ≤ at) × (at < index + length cs)
unfolding last_soft
last_soft_range index [] at h = cc
last_soft_range index (c ∷ cs) at h = elim (Option-cases (last_soft (suc index) cs)) [
  | inl n ↦ (let w = rw n at h in ground arith)
  | inr (later, n) ↦
      let w = rw n at h in let (low, high) = last_soft_range (suc index) cs later n in ground arith
]

length-take : (n : ℕ) (a : List ℕ) → (length (take n a) ≤ n) × (length (take n a) ≤ length a)
unfolding take
length-take zero a = ground arith
length-take (suc n) [] = ground arith
length-take (suc n) (c ∷ cs) = let (p, q) = length-take n cs in ground arith

length-drop : (n : ℕ) (a : List ℕ) → n ≤ length a → length (drop n a) + n ≡ length a
unfolding drop
length-drop zero a h = omega arith
length-drop (suc n) [] h = omega arith
length-drop (suc n) (c ∷ cs) h = let e = length-drop n cs (omega arith) in omega (arith, e)

length-lstrip : (a : List ℕ) → length (lstrip a) ≤ length a
unfolding lstrip
length-lstrip [] = ground arith
length-lstrip (c ∷ cs) = let h = length-lstrip cs in ground arith

length-rstrip : (a : List ℕ) → length (rstrip a) ≤ length a
unfolding rstrip
length-rstrip [] = ground arith
length-rstrip (c ∷ cs) = let h = length-rstrip cs in ground arith

length-strip : (a : List ℕ) → length (strip a) ≤ length a
length-strip a = omega (arith, length-rstrip (lstrip a), length-lstrip a)

-- Where a phrase may end.
abbrev InRange : ℕ → List ℕ → ℕ → Type 0
InRange most buffer at = (1 ≤ at) × (at ≤ most) × (at ≤ length buffer)

min_le : (a b : ℕ) → min a b ≤ b
min_le a b = ground arith

strong_split-InRange :
    (least most : ℕ) (buffer : List ℕ) (at : ℕ)
    → strong_split least most buffer ≡ some at
    → InRange most buffer at
unfolding strong_split
strong_split-InRange least most buffer at h = elim (Bool-cases (leb least (length buffer))) [
  | inl l ↦
      let w = rw l at h in
      let (low, high) = first_strong_range least 1 (take (min (length buffer) most) buffer) at w in
      let (short, within) = length-take (min (length buffer) most) buffer in
      let m = min_le (length buffer) most in (low, omega arith, omega arith)
  | inr l ↦ (let w = rw l at h in cc)
]

soft_split-InRange :
    (most : ℕ) (buffer : List ℕ) (at : ℕ)
    → 1 ≤ most
    → soft_split most buffer ≡ some at
    → InRange most buffer at
unfolding soft_split
soft_split-InRange most buffer at m h = elim (Bool-cases (leb most (length buffer))) [
  | inl l ↦
      let enough : most ≤ length buffer = ground arith in
      elim (Option-cases (last_soft 1 (take most buffer))) [
        | inl n ↦ (let w = rw (l, n) at h in let e : most ≡ at = cc in ground arith)
        | inr (later, n) ↦
            let w = rw (l, n) at h in
            let e : later ≡ at = cc in
            let (low, high) = last_soft_range 1 (take most buffer) later n in
            let (short, within) = length-take most buffer in (omega arith, omega arith, omega arith)
      ]
  | inr l ↦ (let w = rw l at h in cc)
]

find_split-InRange :
    (least most : ℕ) (buffer : List ℕ) (at : ℕ)
    → 1 ≤ most
    → find_split least most buffer ≡ some at
    → InRange most buffer at
unfolding find_split
find_split-InRange least most buffer at m h = elim (Option-cases (strong_split least most buffer)) [
  | inl n ↦ soft_split-InRange most buffer at m (rw (n, find_split) at h)
  | inr (early, n) ↦ strong_split-InRange least most buffer at (n ∙ (rw (n, find_split) at h))
]

soft_split-none :
    (most : ℕ) (buffer : List ℕ) → soft_split most buffer ≡ none → length buffer < most
unfolding soft_split
soft_split-none most buffer h = ground arith

find_split-none :
    (least most : ℕ) (buffer : List ℕ) → find_split least most buffer ≡ none → length buffer < most
unfolding find_split
find_split-none least most buffer h = elim (Option-cases (strong_split least most buffer)) [
  | inl n ↦ soft_split-none most buffer (rw (n, find_split) at h)
  | inr (early, n) ↦ (let w = rw (n, find_split) at h in cc)
]

-- Phrases of a size to speak: some text, and no more than the limit.
abbrev pub Speakable : ℕ → List (List ℕ) → Type 0
Speakable most [] = Unit
Speakable most (t ∷ ts) = (1 ≤ length t) × (length t ≤ most) × Speakable most ts

Speakable-append_phrase :
    (most : ℕ) (t : List ℕ) (ready : List (List ℕ))
    → length t ≤ most
    → Speakable most ready
    → Speakable most (append_phrase t ready)
Speakable-append_phrase most [] ready h s = s
Speakable-append_phrase most (c ∷ cs) ready h s = (omega arith, h, s)

-- What the loop leaves when it ends by itself: phrases of a size to speak, and a short buffer that
-- has no further place to split.
record Settled (least most : ℕ) (ready : List (List ℕ)) (rest : List ℕ) : Type 0 where
  speakable : Speakable most ready
  ended : (rest ≡ []) ⊎ (find_split least most rest ≡ none)
  short : length rest < most

drain-Settled :
    (fuel least most : ℕ) (buffer : List ℕ)
    → 1 ≤ most
    → length buffer ≤ fuel
    → Settled least most (drain fuel least most buffer).0 (drain fuel least most buffer).1
unfolding drain
drain-Settled zero least most [] m enough = record {
  speakable = tt;
  ended = inl refl;
  short = omega arith;
}
drain-Settled zero least most (c ∷ cs) m enough = ground arith
drain-Settled (suc fuel) least most [] m enough = record {
  speakable = tt;
  ended = inl refl;
  short = omega arith;
}
drain-Settled (suc fuel) least most (c ∷ cs) m enough =
    elim (Option-cases (find_split least most (c ∷ cs))) [
      | inl n ↦
          subst (λ d. Settled least most d.0 d.1) (sym (drain-none fuel least most c cs n))
            (record {
              speakable = tt;
              ended = inr n;
              short = find_split-none least most (c ∷ cs) n;
            })
      | inr (at, n) ↦
          let (low, high, within) = find_split-InRange least most (c ∷ cs) at m n in
          let size = length-drop at (c ∷ cs) within in
          let s = drain-Settled fuel least most (drop at (c ∷ cs)) m (omega (arith, size)) in
          let phrase : length (strip (take at (c ∷ cs))) ≤ most =
            omega (arith, length-strip (take at (c ∷ cs)), (length-take at (c ∷ cs)).0) in
          subst (λ d. Settled least most d.0 d.1) (sym (drain-some fuel least most c cs at n))
            (record {
              speakable =
                  Speakable-append_phrase most (strip (take at (c ∷ cs))) _ phrase s.speakable;
              ended = s.ended;
              short = s.short;
            })
    ]

-- A chunker between two calls: sizes that its constructor accepts, and a short buffer that has no
-- place to split.
pub record IsReady (c : SemanticChunker) : Type 0 where
  pub positive : 1 ≤ c.min_chars
  pub ordered : c.min_chars ≤ c.max_chars
  pub unsplit : (c.buffer ≡ []) ⊎ (find_split c.min_chars c.max_chars c.buffer ≡ none)
  pub short : length c.buffer < c.max_chars

new_chunker : ℕ → ℕ → SemanticChunker
new_chunker least most = record { min_chars = least; max_chars = most; buffer = [] }

pub semantic_chunker-IsReady :
    (least most : ℕ) (c : SemanticChunker) → semantic_chunker least most ≡ ok c → IsReady c
unfolding semantic_chunker new_chunker
semantic_chunker-IsReady least most c h =
    let low : 1 ≤ least = ground arith in
    let high : least ≤ most = ground arith in
    let same : new_chunker least most ≡ c = ground arith in
    subst IsReady same
      (record { positive = low; ordered = high; unsplit = inl refl; short = omega arith })

-- A push on a ready chunker ends, with phrases that are not empty and not over the limit, and
-- leaves a ready chunker: the loop ran until the buffer had no further place to split.
pub push-IsReady :
    (delta : List ℕ) (c : SemanticChunker)
    → IsReady c
    → Speakable c.max_chars (push delta c).0 × IsReady (push delta c).1
unfolding push
push-IsReady [] c r = (tt, r)
push-IsReady (d ∷ ds) c r =
    let buffer = c.buffer ++ d ∷ ds in
    let s =
      drain-Settled (length buffer) c.min_chars c.max_chars buffer
        (omega (arith, r.positive, r.ordered)) (omega arith) in
    (
      s.speakable,
      record { positive = r.positive; ordered = r.ordered; unsplit = s.ended; short = s.short },
    )
