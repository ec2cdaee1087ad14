-- ===== src/Runtime/Agent/Endings.antt =====
-- runtime.py: how `_execute`, `run_once` and `submit` leave a run.
use evoagent_os.Base.{
  ℕ, ◌≡◌, refl, sym, subst, ◌⊎◌, inl, inr, String, [], ◌∷◌, none, some, eq_self, eq_true,
}
use evoagent_os.Base.Rows.{find, select, find-append, mem-find}
use evoagent_os.Base.Action.{Result, ok, err, ◌>>=◌, pure}
use evoagent_os.Base.Action.Triple.{Outcome, Triple, Triple-pure, Triple-modify, Triple-bind}
use evoagent_os.Runtime.Store.{
  running, failed, Role, run_accepted, RunError, RunRow, PromptRow, Store, Runtime, is_run,
}
use evoagent_os.Runtime.Records.{
  update_run, event, new_run, insert_run, new_id, create_run, ensure_session, add_message, get_run,
}
use evoagent_os.Runtime.Prompts.{is_active, newest, active_prompt}
use evoagent_os.Runtime.Agent.{
  AgentRuntime, Envelope, Turn, accepted_as, accept, session_of, messages_of, drive_from, fail_run,
  execute_run, catch, turn_of, run_view, run_once,
}
use evoagent_os.Runtime.Agent.Runs.{KeepsRuns, HasStatus, Exists, Ended, update_run-find}
use evoagent_os.Runtime.Agent.Turns.{messages_of-Exists, drive_from-Ended, fail_run-Failed}

-- A run that is over, or waits for an approval that is pending.
abbrev pub Settled : String → Store → Type 0
Settled run_id s = Ended run_id s ⊎ HasStatus run_id (λ x. x ≡ failed) s

module _ {R : RunError → Store → Type 0} {Q : Store → Type 0} {R' : RunError → Store → Type 0} where
  caught :
      (r : Result RunError (Unit {0})) (s s' : Store) (handler : RunError → Runtime Unit)
      → Outcome (λ _. Q) R r s'
      → ((e : RunError) → Triple (R e) (handler e) (λ _. Q) R')
      → Outcome (λ _. Q) R' (catch (λ _. (r, s')) handler s).0 (catch (λ _. (r, s')) handler s).1
  caught (ok u) s s' handler h k = h
  caught (err e) s s' handler h k = (k e).at s' h

  Triple-catch :
      {P : Store → Type 0} (m : Runtime Unit) (handler : RunError → Runtime Unit)
      → Triple P m (λ _. Q) R
      → ((e : RunError) → Triple (R e) (handler e) (λ _. Q) R')
      → Triple P (catch m handler) (λ _. Q) R'
  Triple-catch m handler hm k = record {
    at = λ s h. let (r, s') = m s in caught r s s' handler (hm.at s h) k;
  }

weaken :
    {A : Type 0} {P : Store → Type 0} {Q Q' : A → Store → Type 0} {R R' : RunError → Store → Type 0}
    (m : Runtime A)
    → Triple P m Q R
    → ((a : A) (s : Store) → Q a s → Q' a s)
    → ((e : RunError) (s : Store) → R e s → R' e s)
    → Triple P m Q' R'
weaken {A} {P} {Q} {Q'} {R} {R'} m h f g = record { at = λ s p. change (m s).0 (m s).1 (h.at s p) }
  where
    change : (r : Result RunError A) (s : Store) → Outcome Q R r s → Outcome Q' R' r s
    change (ok a) s x = f a s x
    change (err e) s x = g e s x

module _ (agent : AgentRuntime) (t : Turn) (keeps : KeepsRuns agent.tools) where
  driven-Settled :
      (prompt query : String)
      → Triple
          (Exists t.run_id)
          (catch
            (messages_of agent t.session_id prompt query >>= drive_from agent t)
            (fail_run agent.outside.now t))
          (λ _. Settled t.run_id)
          (λ _ _. ⊥)
  driven-Settled prompt query =
      Triple-catch {R = λ _. Exists t.run_id} _ _
        (Triple-bind (λ _. Exists t.run_id) _ _ (messages_of-Exists agent t keeps prompt query)
          (λ ms. weaken _ (drive_from-Ended agent t keeps ms) (λ _ s x. inl x) (λ _ s x. x)))
        (λ e. weaken _ (fail_run-Failed agent t keeps e) (λ _ s x. inr x) (λ _ s x. x))

  execute_run-Triple :
      (prompt query : String)
      → Triple
          (Exists t.run_id)
          (execute_run agent t prompt query)
          (λ _. Settled t.run_id)
          (λ _ _. ⊥)
  unfolding execute_run event update_run
  execute_run-Triple prompt query = record {
    at = λ s h.
        let (r, found) = h in
        let (r', found', status) =
          update_run-find agent.outside.now t.run_id running (λ q. q) s r (λ q. refl) found in
        (driven-Settled prompt query).at _ (r', found');
  }

-- A prompt is served, and the next identifier is free for a run.
record CanAccept (agent : AgentRuntime) (p : PromptRow) (s : Store) : Type 0 where
  served : newest (select is_active s.prompts) ≡ some p
  free : find (is_run (agent.outside.identifier s.drawn)) s.runs ≡ none

find_single : (r : RunRow) → find (is_run r.run_id) (r ∷ []) ≡ some r
unfolding find
find_single r = rw (eq_self r.run_id)

insert_run-Exists :
    (r : RunRow)
    → Triple
        (λ s. find (is_run r.run_id) s.runs ≡ none)
        (insert_run r)
        (λ _. Exists r.run_id)
        (λ _ _. ⊥)
unfolding insert_run
insert_run-Exists r = record {
  at = λ s h.
      rw (h, insert_run) (r, rw (find-append (is_run r.run_id) s.runs (r ∷ []), h) (find_single r));
}

module _ (agent : AgentRuntime) (p : PromptRow) where
  create_run-Exists :
      (session_id text : String) (version : ℕ)
      → Triple
          (CanAccept agent p)
          (create_run agent.outside.identifier agent.outside.now session_id text version)
          Exists
          (λ _ _. ⊥)
  unfolding create_run new_id
  create_run-Exists session_id text version =
      Triple-bind (λ id s. find (is_run id) s.runs ≡ none) (new_id agent.outside.identifier) _
        (record { at = λ s h. h.free })
        (λ id.
          Triple-bind (λ _. Exists id) _ _
            (insert_run-Exists (new_run agent.outside.now id session_id text version))
            (λ _. Triple-pure id (λ s h. h)))

  active_prompt-CanAccept :
      Triple (CanAccept agent p) active_prompt (λ _. CanAccept agent p) (λ _ _. ⊥)
  unfolding active_prompt
  active_prompt-CanAccept = record { at = λ s h. rw (h.served, active_prompt) h }

  noted :
      (run_id session_id text channel : String) (version : ℕ) (text' : String)
      → Triple
          (Exists run_id)
          (add_message agent.outside.now session_id Role.user text none none >>= λ _.
            event agent.outside.now (run_accepted channel) run_id session_id >>= λ _.
            pure (accepted_as run_id session_id version text'))
          (λ a. Exists a.run_id)
          (λ _ _. ⊥)
  unfolding add_message event
  noted run_id session_id text channel version text' = record { at = λ s h. h }

  accept-Exists :
      (e : Envelope) → Triple (CanAccept agent p) (accept agent e) (λ a. Exists a.run_id) (λ _ _. ⊥)
  unfolding accept ensure_session
  accept-Exists e =
      Triple-bind (λ _. CanAccept agent p)
        (ensure_session agent.outside.now (session_of agent e) e.channel e.peer_id) _
        (Triple-modify _ (λ s h. record { served = h.served; free = h.free }))
        (λ _.
          Triple-bind (λ _. CanAccept agent p) active_prompt _ active_prompt-CanAccept
            (λ served.
              Triple-bind Exists _ _ (create_run-Exists (session_of agent e) e.text served.0)
                (λ run_id. noted run_id (session_of agent e) e.text e.channel served.0 served.1)))

Settled-Exists : (run_id : String) (s : Store) → Settled run_id s → Exists run_id s
Settled-Exists run_id s (inl (inl (r, found, _))) = (r, found)
Settled-Exists run_id s (inl (inr ((r, found, _), _))) = (r, found)
Settled-Exists run_id s (inr (r, found, _)) = (r, found)

-- The row that a call returns is the run's, which is over or waits.
abbrev pub ReturnsSettled : RunRow → Store → Type 0
ReturnsSettled r s = (find (is_run r.run_id) s.runs ≡ some r) × Settled r.run_id s

run_view-Settled :
    (run_id : String) → Triple (Settled run_id) (run_view run_id) ReturnsSettled (λ _ _. ⊥)
unfolding run_view get_run
run_view-Settled run_id = record {
  at = λ s h.
      let (r, found) = Settled-Exists run_id s h in
      let own : r.run_id ≡ run_id =
        eq_true r.run_id run_id (mem-find (is_run run_id) s.runs found).1 in
      rw (found, run_view)
        (
          subst (λ x. find (is_run x) s.runs ≡ some r) (sym own) found,
          subst (λ x. Settled x s) (sym own) h,
        );
}

run_once-Triple :
    (agent : AgentRuntime) (e : Envelope) (p : PromptRow)
    → KeepsRuns agent.tools
    → Triple (CanAccept agent p) (run_once agent e) ReturnsSettled (λ _ _. ⊥)
unfolding run_once
run_once-Triple agent e p keeps =
    Triple-bind (λ a. Exists a.run_id) (accept agent e) _ (accept-Exists agent p e)
      (λ a.
        Triple-bind (λ _. Settled a.run_id) _ _
          (execute_run-Triple agent (turn_of a) keeps a.prompt e.text)
          (λ _. run_view-Settled a.run_id))

returned :
    (o : Result RunError RunRow) (s : Store)
    → Outcome ReturnsSettled (λ _ _. ⊥) o s
    → (r : RunRow) × (o ≡ ok r) × ReturnsSettled r s
returned (ok r) s h = (r, refl, h)
returned (err e) s h = absurd h

-- A request is answered: with an active prompt, a free identifier for the run, and tools that leave
-- the tables of runs and approvals alone, `run_once` does not raise, whatever the provider and the
-- tools do. The run that it returns has completed, has failed, or waits for an approval of its own
-- that is pending; it is not left accepted or running.
pub run_once-Settled :
    (agent : AgentRuntime) (e : Envelope) (p : PromptRow) (s : Store)
    → KeepsRuns agent.tools
    → newest (select is_active s.prompts) ≡ some p
    → find (is_run (agent.outside.identifier s.drawn)) s.runs ≡ none
    → (r : RunRow) × ((run_once agent e s).0 ≡ ok r) × ReturnsSettled r (run_once agent e s).1
run_once-Settled agent e p s keeps served free =
    returned (run_once agent e s).0 (run_once agent e s).1
      ((run_once-Triple agent e p keeps).at s (record { served = served; free = free }))
