-- ===== src/Runtime/Evolution/Promotion.antt =====
-- evolution.py, `promote`: the prompt that is served before and after.
use mathlib.Core.Option
use evoagent_os.Base.{
  ℕ, ◌+◌, ◌<◌, ◌≡◌, refl, sym, ap, subst, arith, String, true, false, List, [], ◌∷◌, ◌++◌, none,
  some, Bool-cases, Option-cases, inl, inr,
}
use evoagent_os.Base.Rows.{select, update_where, find, find-append, find-update, revised, mem-find}
use evoagent_os.Base.Action.{ok, err, ◌>>=◌, ◌>>◌, modify, pure}
use evoagent_os.Runtime.Store.{PromptRow, CandidateRow, Store, Runtime, not_passed}
use evoagent_os.Runtime.Prompts.{
  is_active, is_version, has_candidate_id, is_passed, newest, active_prompt, prompt,
}
use evoagent_os.Runtime.Evolution.{
  max_version, retire, insert_prompt, promoted_row, mark_promoted, install, promote,
}

find_above : (ps : List PromptRow) (v : ℕ) → max_version ps < v → find (is_version v) ps ≡ none
unfolding max_version find
find_above [] v h = refl
find_above (p ∷ ps) v h =
    let rest = find_above ps v (ground arith) in
    let differ : is_version v p ≡ false = ground arith in rw (differ, rest)

max_version-retire :
    (ps : List PromptRow) → max_version (update_where is_active retire ps) ≡ max_version ps
unfolding max_version update_where
max_version-retire [] = refl
max_version-retire (p ∷ ps) = elim (Bool-cases (is_active p)) [
  | inl a ↦ rw (a, max_version-retire ps)
  | inr a ↦ rw (a, max_version-retire ps)
]

select-retire :
    (ps : List PromptRow) (p : PromptRow)
    → is_active p ≡ true
    → select is_active (update_where is_active retire ps ++ p ∷ []) ≡ p ∷ []
unfolding select update_where
select-retire [] p h = rw h
select-retire (q ∷ ps) p h = elim (Bool-cases (is_active q)) [
  | inl a ↦ rw a (select-retire ps p h)
  | inr a ↦ rw (a, a) (select-retire ps p h)
]

-- The tables after a promotion.
abbrev after : ℕ → ℕ → String → CandidateRow → Store → Store
after v stamp candidate_id c s = record s {
  prompts = update_where is_active retire s.prompts ++ promoted_row v stamp c ∷ [];
  candidates = update_where (has_candidate_id candidate_id) mark_promoted s.candidates;
}

insert_free :
    (p : PromptRow) (s : Store)
    → find (is_version p.version) s.prompts ≡ none
    → insert_prompt p s ≡ (ok tt, record s { prompts = s.prompts ++ p ∷ [] })
unfolding insert_prompt
insert_free p s h = rw (h, insert_prompt)

abbrev mark : String → Store → Store
mark candidate_id s = record s {
  candidates = update_where (has_candidate_id candidate_id) mark_promoted s.candidates;
}

-- The rest of an action after a part that returns.
bind_ok :
    {A B : Type 0} (m : Runtime A) (f : A → Runtime B) (s s' : Store) (a : A)
    → m s ≡ (ok a, s')
    → (m >>= f) s ≡ f a s'
bind_ok m f s s' a h = ap (λ r. elim r.0 [ ok x ↦ f x r.1 | err e ↦ (err e, r.1) ]) h

install-after :
    (v stamp : ℕ) (candidate_id : String) (c : CandidateRow) (s : Store)
    → max_version s.prompts < v
    → install v stamp candidate_id c s ≡ (ok v, after v stamp candidate_id c s)
unfolding install
install-after v stamp candidate_id c s h =
    let e = max_version-retire s.prompts in
    let free = find_above (update_where is_active retire s.prompts) v (omega (arith, e, h)) in
    let row = promoted_row v stamp c in
    let before : Store = record s { prompts = update_where is_active retire s.prompts } in
    bind_ok (insert_prompt row) (λ _. modify (mark candidate_id) >> pure v) before
      (record before { prompts = before.prompts ++ row ∷ [] }) tt (insert_free row before free)

promote-after :
    (stamp : ℕ) (candidate_id : String) (c : CandidateRow) (s : Store)
    → find (has_candidate_id candidate_id) s.candidates ≡ some c
    → is_passed c ≡ true
    → promote stamp candidate_id s
      ≡ (ok (max_version s.prompts + 1), after (max_version s.prompts + 1) stamp candidate_id c s)
unfolding promote
promote-after stamp candidate_id c s found pass =
    rw (found, pass, install-after (max_version s.prompts + 1) stamp candidate_id c s (omega arith))

served_after :
    (v stamp : ℕ) (candidate_id : String) (c : CandidateRow) (s : Store)
    → active_prompt (after v stamp candidate_id c s)
      ≡ (ok (v, c.prompt), after v stamp candidate_id c s)
unfolding active_prompt newest
served_after v stamp candidate_id c s = rw (select-retire s.prompts (promoted_row v stamp c) refl)

retired_version :
    (w : ℕ) (ps : List PromptRow)
    → find (is_version w) (update_where is_active retire ps)
      ≡ Option.map (revised is_active retire) (find (is_version w) ps)
retired_version w ps = find-update (is_version w) is_active retire ps (λ r m. ground arith)

kept_after :
    (v stamp : ℕ) (candidate_id : String) (c : CandidateRow) (s : Store) (w : ℕ) (text : String)
    → (prompt w s).0 ≡ ok text
    → (prompt w (after v stamp candidate_id c s)).0 ≡ ok text
unfolding prompt
kept_after v stamp candidate_id c s w text h = elim (Option-cases (find (is_version w) s.prompts)) [
  | inl n ↦ cc (rw (n, prompt) at h)
  | inr (p, n) ↦
      let same : p.prompt ≡ text = cc (rw (n, prompt) at h) in
      let e : find (is_version w) (update_where is_active retire s.prompts)
          ≡ some (revised is_active retire p) =
        rw (retired_version w s.prompts, n) in
      let e' : find (is_version w) (after v stamp candidate_id c s).prompts
          ≡ some (revised is_active retire p) =
        rw (
          find-append (is_version w) (update_where is_active retire s.prompts)
              (promoted_row v stamp c ∷ []),
          e,
        ) in
      rw (e', prompt)
        (elim (Bool-cases (is_active p)) [ inl a ↦ rw (a, same) | inr a ↦ rw (a, same) ])
]

spent_after :
    (v stamp : ℕ) (candidate_id : String) (c : CandidateRow) (s : Store) (stamp' : ℕ)
    → find (has_candidate_id candidate_id) s.candidates ≡ some c
    → promote stamp' candidate_id (after v stamp candidate_id c s)
      ≡ (err not_passed, after v stamp candidate_id c s)
unfolding promote
spent_after v stamp candidate_id c s stamp' found =
    let hit = (mem-find (has_candidate_id candidate_id) s.candidates found).1 in
    let e =
      find-update (has_candidate_id candidate_id) (has_candidate_id candidate_id) mark_promoted
        s.candidates (λ r m. ground arith) in
    rw (e, found, hit)

-- A promotion of a candidate under the new version `v`: the version was free; its prompt is the one
-- that is active, alone, and is served; each earlier version still has its text; and a further
-- promotion of the candidate in that state is refused and changes nothing. Another evaluation, which is
-- not modelled, may let the candidate pass again.
pub record IsPromoted (candidate_id : String) (c : CandidateRow) (s : Store) (v : ℕ) (s' : Store)
    : Type 0 where
  pub fresh : find (is_version v) s.prompts ≡ none
  pub alone : (p : PromptRow) × (select is_active s'.prompts ≡ p ∷ []) × (p.version ≡ v)
  pub served : active_prompt s' ≡ (ok (v, c.prompt), s')
  pub kept : (w : ℕ) (text : String) → (prompt w s).0 ≡ ok text → (prompt w s').0 ≡ ok text
  pub spent : (stamp : ℕ) → promote stamp candidate_id s' ≡ (err not_passed, s')

-- A candidate that has passed is promoted, whatever the tables hold: the call returns a version that was
-- free; the candidate's prompt is the active one, alone, and is served; each earlier version still has
-- its text; and a further promotion of the candidate in the state after the call is refused and changes
-- nothing.
pub promote-IsPromoted :
    (stamp : ℕ) (candidate_id : String) (c : CandidateRow) (s : Store)
    → find (has_candidate_id candidate_id) s.candidates ≡ some c
    → is_passed c ≡ true
    → (v : ℕ) × ((promote stamp candidate_id s).0 ≡ ok v)
      × IsPromoted candidate_id c s v (promote stamp candidate_id s).1
promote-IsPromoted stamp candidate_id c s found pass =
    let v = max_version s.prompts + 1 in
    let e = promote-after stamp candidate_id c s found pass in
    (
      v,
      ap (λ r. r.0) e,
      subst (λ r. IsPromoted candidate_id c s v r.1) (sym e)
          (record {
            fresh = find_above s.prompts v (omega arith);
            alone = (
              promoted_row v stamp c,
              select-retire s.prompts (promoted_row v stamp c) refl,
              refl,
            );
            served = served_after v stamp candidate_id c s;
            kept = kept_after v stamp candidate_id c s;
            spent = λ stamp'. spent_after v stamp candidate_id c s stamp' found;
          }),
    )
