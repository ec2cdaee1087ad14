-- ===== src/Runtime/Agent/Runs.antt =====
-- runtime.py: the row of a run through `_execute` and `_drive`.
use evoagent_os.Base.{
  ℕ, ◌≡◌, refl, arith, ◌⊎◌, inl, inr, String, true, List, [], ◌∷◌, ◌++◌, none, some, eq_self,
  Option-cases,
}
use evoagent_os.Base.Rows.{find, find-update, mem-find, find-append}
use evoagent_os.Base.Action.{Result, ok, err}
use evoagent_os.Base.Action.Triple.{Outcome, Triple, Triple-bind}
use evoagent_os.Runtime.Store.{
  RunStatus, awaiting_approval, completed, RunError, Usage, RunRow, ApprovalRow, EventKind, Store,
  Runtime, is_run, is_approval, is_pending,
}
use evoagent_os.Runtime.Records.{ToolCall, update_run, event, insert_approval}
use evoagent_os.Runtime.Tools.{ToolContext, Tool, ToolRegistry, is_tool, get_tool, execute_call}
use evoagent_os.Runtime.Agent.{Turn, finish_run}

-- What the service needs of its tools: that they leave the tables of runs and approvals alone.
pub record KeepsRuns (registry : ToolRegistry) : Type 0 where
  pub runs :
      (name : String) (tool : Tool) (arguments : List (String × String)) (context : ToolContext)
      (s : Store)
      → find (is_tool name) registry.tools ≡ some tool
      → (tool.handler arguments context s).1.runs ≡ s.runs
  pub approvals :
      (name : String) (tool : Tool) (arguments : List (String × String)) (context : ToolContext)
      (s : Store)
      → find (is_tool name) registry.tools ≡ some tool
      → (tool.handler arguments context s).1.approvals ≡ s.approvals

-- The run has a row with a status that satisfies `P`.
abbrev pub HasStatus : String → (RunStatus → Type 0) → Store → Type 0
HasStatus run_id P s = (r : RunRow) × (find (is_run run_id) s.runs ≡ some r) × P r.status

abbrev pub Exists : String → Store → Type 0
Exists run_id s = (r : RunRow) × (find (is_run run_id) s.runs ≡ some r)

-- An approval of the run waits for its decision.
abbrev pub Waits : String → Store → Type 0
Waits run_id s =
    (approval_id : String) × (a : ApprovalRow) × (find (is_approval approval_id) s.approvals
      ≡ some a)
    × (is_pending a ≡ true)
    × (a.run_id ≡ run_id)

-- The run has completed, or waits for an approval that is pending.
abbrev pub Ended : String → Store → Type 0
Ended run_id s =
    HasStatus run_id (λ st. st ≡ completed) s
    ⊎ (HasStatus run_id (λ st. st ≡ awaiting_approval) s × Waits run_id s)

pub update_run-find :
    (now : ℕ) (run_id : String) (st : RunStatus) (change : RunRow → RunRow) (s : Store) (r : RunRow)
    → ((q : RunRow) → (change q).run_id ≡ q.run_id)
    → find (is_run run_id) s.runs ≡ some r
    → HasStatus run_id (λ x. x ≡ st) (update_run now run_id st change s).1
unfolding update_run
update_run-find now run_id st change s r same found =
    let f = λ (q : RunRow). record (change q) { status = st; updated_at = now } in
    let e = find-update (is_run run_id) (is_run run_id) f s.runs (λ q m. ground (arith, same q)) in
    let hit = (mem-find (is_run run_id) s.runs found).1 in (f r, rw (e, found, hit), refl)

pub both :
    {A : Type 0} (P : Store → Type 0) (r : Result RunError A) (s : Store)
    → P s
    → Outcome (λ _. P) (λ _. P) r s
both P (ok a) s h = h
both P (err e) s h = h

-- Actions that leave the runs alone, and those that leave the approvals alone too.
pub Exists-keeping :
    {A : Type 0} (run_id : String) (m : Runtime A)
    → ((s : Store) → (m s).1.runs ≡ s.runs)
    → Triple (Exists run_id) m (λ _. Exists run_id) (λ _. Exists run_id)
Exists-keeping run_id m same = record {
  at = λ s h. both (Exists run_id) (m s).0 (m s).1 (rw (same s) h);
}

pub get_tool-state :
    (registry : ToolRegistry) (name : String) (s : Store) → (get_tool registry name s).1 ≡ s
unfolding get_tool
get_tool-state registry name s = elim (Option-cases (find (is_tool name) registry.tools)) [
  | inl n ↦ rw (n, get_tool)
  | inr (tool, n) ↦ rw (n, get_tool)
]

pub execute_call-runs :
    (registry : ToolRegistry) (call : ToolCall) (context : ToolContext) (s : Store)
    → KeepsRuns registry
    → (execute_call registry call context s).1.runs ≡ s.runs
unfolding execute_call get_tool
execute_call-runs registry call context s keeps =
    elim (Option-cases (find (is_tool call.name) registry.tools)) [
      | inl n ↦ rw (n, execute_call)
      | inr (tool, n) ↦ rw (n, execute_call) (keeps.runs call.name tool call.arguments context s n)
    ]

pub Exists-update :
    (now : ℕ) (run_id : String) (st : RunStatus) (change : RunRow → RunRow)
    → ((q : RunRow) → (change q).run_id ≡ q.run_id)
    → Triple
        (Exists run_id)
        (update_run now run_id st change)
        (λ _. HasStatus run_id (λ x. x ≡ st))
        (λ _. Exists run_id)
unfolding update_run
Exists-update now run_id st change same = record {
  at = λ s h. let (r, found) = h in update_run-find now run_id st change s r same found;
}

pub HasStatus-event :
    (P : RunStatus → Type 0) (now : ℕ) (kind : EventKind) (run_id id session_id : String)
    → Triple
        (HasStatus id P)
        (event now kind run_id session_id)
        (λ _. HasStatus id P)
        (λ _. Exists id)
unfolding event
HasStatus-event P now kind run_id id session_id = record { at = λ s h. h }

pub finish_run-Ended :
    (now : ℕ) (t : Turn) (text : String) (usage : Usage)
    → Triple
        (Exists t.run_id)
        (finish_run now t text usage)
        (λ _. HasStatus t.run_id (λ x. x ≡ completed))
        (λ _. Exists t.run_id)
unfolding finish_run
finish_run-Ended now t text usage =
    Triple-bind (λ _. HasStatus t.run_id (λ x. x ≡ completed)) _ _
      (Exists-update now t.run_id completed
        (λ r. record r { output_text = some text; usage = some usage }) (λ q. refl))
      (λ _. HasStatus-event (λ x. x ≡ completed) now _ t.run_id t.run_id t.session_id)

find_single : (a : ApprovalRow) → find (is_approval a.approval_id) (a ∷ []) ≡ some a
unfolding find
find_single a = rw (eq_self a.approval_id)

find_new :
    (a : ApprovalRow) (rows : List ApprovalRow)
    → find (is_approval a.approval_id) rows ≡ none
    → find (is_approval a.approval_id) (rows ++ a ∷ []) ≡ some a
find_new a rows n = rw (find-append (is_approval a.approval_id) rows (a ∷ []), n) (find_single a)

pub insert_approval-Waits :
    (run_id : String) (a : ApprovalRow)
    → is_pending a ≡ true
    → a.run_id ≡ run_id
    → Triple
        (Exists run_id)
        (insert_approval a)
        (λ _ s. Exists run_id s × Waits run_id s)
        (λ _. Exists run_id)
unfolding insert_approval
insert_approval-Waits run_id a wait own = record {
  at = λ s h. elim (Option-cases (find (is_approval a.approval_id) s.approvals)) [
    | inl n ↦ rw (n, insert_approval) (h, (a.approval_id, a, find_new a s.approvals n, wait, own))
    | inr (b, n) ↦ rw (n, insert_approval) h
  ];
}

abbrev pub Awaiting : String → Store → Type 0
Awaiting run_id s = HasStatus run_id (λ x. x ≡ awaiting_approval) s × Waits run_id s

pub Awaiting-update :
    (now : ℕ) (run_id : String)
    → Triple
        (λ s. Exists run_id s × Waits run_id s)
        (update_run now run_id awaiting_approval (λ r. r))
        (λ _. Awaiting run_id)
        (λ _. Exists run_id)
unfolding update_run
Awaiting-update now run_id = record {
  at = λ s h.
      let ((r, found), waits) = h in
      (update_run-find now run_id awaiting_approval (λ q. q) s r (λ q. refl) found, waits);
}

pub Awaiting-event :
    (now : ℕ) (kind : EventKind) (run_id session_id : String)
    → Triple
        (Awaiting run_id)
        (event now kind run_id session_id)
        (λ _. Awaiting run_id)
        (λ _. Exists run_id)
unfolding event
Awaiting-event now kind run_id session_id = record { at = λ s h. h }
