-- ===== src/Realtime/Chunking/Visible.antt =====
-- chunking.py: what of the text comes out.
use evoagent_os.Base.{
  ℕ, zero, suc, ◌≡◌, refl, sym, ap, ◌∙◌, true, List, [], ◌∷◌, ◌++◌, length, if◌then◌else◌,
  Bool-cases, Option-cases, inl, inr,
}
use evoagent_os.Base.Texts.{is_space}
use evoagent_os.Realtime.Chunking.{
  take, drop, lstrip, rstrip, strip, is_empty, SemanticChunker, find_split, append_phrase, drain,
  push, flush, drain-none, drain-some,
}

-- The characters that are not whitespace.
pub visible : List ℕ → List ℕ
visible [] = []
visible (c ∷ cs) = let rest = visible cs in if is_space c then rest else c ∷ rest

pub join : List (List ℕ) → List ℕ
join [] = []
join (t ∷ ts) = t ++ join ts

++-assoc : (a b c : List ℕ) → ((a ++ b) ++ c) ≡ (a ++ (b ++ c))
++-assoc [] b c = refl
++-assoc (x ∷ a) b c = ap (λ r. x ∷ r) (++-assoc a b c)

++_nil : (a : List ℕ) → (a ++ []) ≡ a
++_nil [] = refl
++_nil (x ∷ a) = ap (λ r. x ∷ r) (++_nil a)

visible-append : (a b : List ℕ) → visible (a ++ b) ≡ (visible a ++ visible b)
unfolding visible
visible-append [] b = refl
visible-append (c ∷ cs) b = elim (Bool-cases (is_space c)) [
  | inl s ↦ rw s (visible-append cs b)
  | inr s ↦ rw s (ap (λ r. c ∷ r) (visible-append cs b))
]

visible-lstrip : (a : List ℕ) → visible (lstrip a) ≡ visible a
unfolding visible lstrip
visible-lstrip [] = refl
visible-lstrip (c ∷ cs) = elim (Bool-cases (is_space c)) [
  | inl s ↦ rw s (visible-lstrip cs)
  | inr s ↦ rw (s, s)
]

visible_empty : (a : List ℕ) → is_empty a ≡ true → visible a ≡ []
unfolding visible
visible_empty [] e = refl
visible_empty (c ∷ cs) e = cc

visible-rstrip : (a : List ℕ) → visible (rstrip a) ≡ visible a
unfolding visible rstrip
visible-rstrip [] = refl
visible-rstrip (c ∷ cs) = elim (Bool-cases (is_space c)) [
  | inl s ↦ elim (Bool-cases (is_empty (rstrip cs))) [
    | inl e ↦ rw (s, e) (sym (visible_empty (rstrip cs) e) ∙ visible-rstrip cs)
    | inr e ↦ rw (s, e, s) (visible-rstrip cs)
  ]
  | inr s ↦ rw (s, s) (ap (λ r. c ∷ r) (visible-rstrip cs))
]

take-drop : (n : ℕ) (a : List ℕ) → (take n a ++ drop n a) ≡ a
unfolding take drop
take-drop zero a = refl
take-drop (suc n) [] = refl
take-drop (suc n) (c ∷ cs) = ap (λ r. c ∷ r) (take-drop n cs)

join-append_phrase :
    (t : List ℕ) (ready : List (List ℕ)) → join (append_phrase t ready) ≡ (t ++ join ready)
unfolding join
join-append_phrase [] ready = refl
join-append_phrase (c ∷ cs) ready = refl

visible-strip : (a : List ℕ) → visible (strip a) ≡ visible a
visible-strip a = visible-rstrip (lstrip a) ∙ visible-lstrip a

-- A split gives its phrase and keeps the rest.
visible-split :
    (at : ℕ) (buffer : List ℕ) (ready : List (List ℕ)) (rest : List ℕ)
    → visible (join ready ++ rest) ≡ visible (drop at buffer)
    → visible (join (append_phrase (strip (take at buffer)) ready) ++ rest) ≡ visible buffer
visible-split at buffer ready rest h =
    let phrase = strip (take at buffer) in
    ap (λ t. visible (t ++ rest)) (join-append_phrase phrase ready)
    ∙ ap visible (++-assoc phrase (join ready) rest)
    ∙ visible-append phrase (join ready ++ rest)
    ∙ ap (λ t. visible phrase ++ t) h
    ∙ ap (λ t. t ++ visible (drop at buffer)) (visible-strip (take at buffer))
    ∙ sym (visible-append (take at buffer) (drop at buffer))
    ∙ ap visible (take-drop at buffer)

visible-drain :
    (fuel least most : ℕ) (buffer : List ℕ)
    → visible (join (drain fuel least most buffer).0 ++ (drain fuel least most buffer).1)
      ≡ visible buffer
unfolding drain join
visible-drain zero least most buffer = refl
visible-drain (suc fuel) least most [] = refl
visible-drain (suc fuel) least most (c ∷ cs) =
    elim (Option-cases (find_split least most (c ∷ cs))) [
      | inl n ↦ ap (λ d. visible (join d.0 ++ d.1)) (drain-none fuel least most c cs n)
      | inr (at, n) ↦
          ap (λ d. visible (join d.0 ++ d.1)) (drain-some fuel least most c cs at n)
          ∙ visible-split at (c ∷ cs) (drain fuel least most (drop at (c ∷ cs))).0
              (drain fuel least most (drop at (c ∷ cs))).1
              (visible-drain fuel least most (drop at (c ∷ cs)))
    ]

visible-push :
    (delta : List ℕ) (c : SemanticChunker)
    → visible (join (push delta c).0 ++ (push delta c).1.buffer) ≡ visible (c.buffer ++ delta)
unfolding push join
visible-push [] c = ap visible (sym (++_nil c.buffer))
visible-push (d ∷ ds) c =
    visible-drain (length (c.buffer ++ d ∷ ds)) c.min_chars c.max_chars (c.buffer ++ d ∷ ds)

-- The phrases of a stream: a push for each delta, and a flush at its end.
pub phrases : List (List ℕ) → SemanticChunker → List (List ℕ)
unfolding push flush
phrases [] c = (flush c).0 ∷ []
phrases (d ∷ ds) c = let (ready, c') = push d c in ready ++ phrases ds c'

join-append : (a b : List (List ℕ)) → join (a ++ b) ≡ (join a ++ join b)
unfolding join
join-append [] b = refl
join-append (t ∷ ts) b = ap (λ r. t ++ r) (join-append ts b) ∙ sym (++-assoc t (join ts) (join b))

visible_swap : (a b d : List ℕ) → visible a ≡ visible b → visible (a ++ d) ≡ visible (b ++ d)
visible_swap a b d h = visible-append a d ∙ ap (λ t. t ++ visible d) h ∙ sym (visible-append b d)

-- Whatever its sizes, the chunker neither loses, repeats nor reorders a character that is not
-- whitespace: those of its phrases are those of the buffer and of the deltas, in order.
pub visible-phrases :
    (deltas : List (List ℕ)) (c : SemanticChunker)
    → visible (join (phrases deltas c)) ≡ visible (c.buffer ++ join deltas)
unfolding phrases join visible
visible-phrases [] c =
    visible-append (strip c.buffer) []
    ∙ ap (λ t. t ++ []) (visible-strip c.buffer)
    ∙ sym (visible-append c.buffer [])
visible-phrases (d ∷ ds) c =
    ap visible (join-append (push d c).0 (phrases ds (push d c).1))
    ∙ visible-append (join (push d c).0) (join (phrases ds (push d c).1))
    ∙ ap (λ t. visible (join (push d c).0) ++ t) (visible-phrases ds (push d c).1)
    ∙ sym (visible-append (join (push d c).0) ((push d c).1.buffer ++ join ds))
    ∙ ap visible (sym (++-assoc (join (push d c).0) (push d c).1.buffer (join ds)))
    ∙ visible_swap (join (push d c).0 ++ (push d c).1.buffer) (c.buffer ++ d) (join ds)
        (visible-push d c)
    ∙ ap visible (++-assoc c.buffer d (join ds))
