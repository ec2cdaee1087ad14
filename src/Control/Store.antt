-- ===== src/Control/Store.antt =====
-- apps/control-plane/src/evoagent_os/store.py: `ControlStore`, its agents, links of runs, events and
-- idempotency keys. A JSON column is the value that it holds, and a free JSON object is a text.
use evoagent_os.Base.{
  ℕ, ◌+◌, String, Bool, ◌&&◌, List, [], ◌∷◌, ◌++◌, Option, none, some, ◌==◌, if◌then◌else◌,
}
use evoagent_os.Base.Rows.{find}
use evoagent_os.Base.Action.{Action, ok, err, pure, gets, modify, or_raise, ◌>>=◌, ◌>>◌}

pub data ControlError : Type 0 where
  workspace_not_found integrity_error agent_not_listed : ControlError

pub record WorkspaceRow : Type 0 where
  pub workspace_id : String
  pub tenant_id : String
  pub name : String
  pub slug : String
  pub description : String
  pub created_at : ℕ

pub record AgentRow : Type 0 where
  pub agent_id : String
  pub workspace_id : String
  pub name : String
  pub role : String
  pub description : String
  pub model : String
  pub capabilities : List String
  pub tools : List String
  pub skills : List String
  pub system_prompt : String
  pub metadata : String
  pub status : String
  pub created_at : ℕ
  pub updated_at : ℕ

pub record RunLink : Type 0 where
  pub run_id : String
  pub workspace_id : String
  pub agent_id : String
  pub objective : String
  pub created_at : ℕ

pub record ControlEvent : Type 0 where
  pub seq : ℕ
  pub event_id : String
  pub kind : String
  pub workspace_id : Option String
  pub run_id : Option String
  pub workflow_id : Option String
  pub payload : List (String × String)
  pub created_at : ℕ

pub record KeyRow : Type 0 where
  pub scope : String
  pub key : String
  pub response : String
  pub created_at : ℕ

-- `seq` is the last number that AUTOINCREMENT gave.
pub record Store : Type 0 where
  pub workspaces : List WorkspaceRow
  pub agents : List AgentRow
  pub run_links : List RunLink
  pub events : List ControlEvent
  pub seq : ℕ
  pub idempotency_keys : List KeyRow

abbrev pub Control : Type 0 → Type 0
Control A = Action Store ControlError A

abbrev pub is_workspace : String → WorkspaceRow → Bool
is_workspace workspace_id w = w.workspace_id == workspace_id

abbrev pub is_agent : String → AgentRow → Bool
is_agent agent_id a = a.agent_id == agent_id

-- `event`, under the unique identifier of the event.
unfoldable pub event :
    String
    → ℕ
    → String
    → List (String × String)
    → Option String
    → Option String
    → Option String
    → Control ℕ
event event_id now kind payload workspace_id run_id workflow_id s =
    elim (find (λ e. e.event_id == event_id) s.events) [
      | some _ ↦ (err integrity_error, s)
      | none ↦ (
        ok (s.seq + 1),
        record s {
          seq = s.seq + 1;
          events =
              s.events
              ++ record {
                seq = s.seq + 1;
                event_id = event_id;
                kind = kind;
                workspace_id = workspace_id;
                run_id = run_id;
                workflow_id = workflow_id;
                payload = payload;
                created_at = now;
              }
                ∷ [];
        },
      )
    ]

-- The payload of `create_agent`.
pub record AgentSpec : Type 0 where
  pub workspace_id : String
  pub name : String
  pub role : String
  pub description : String
  pub model : String
  pub capabilities : List String
  pub tools : List String
  pub skills : List String
  pub system_prompt : String
  pub metadata : String

abbrev pub new_agent : String → ℕ → AgentSpec → AgentRow
new_agent agent_id now p = record {
  agent_id = agent_id;
  workspace_id = p.workspace_id;
  name = p.name;
  role = p.role;
  description = p.description;
  model = p.model;
  capabilities = p.capabilities;
  tools = p.tools;
  skills = p.skills;
  system_prompt = p.system_prompt;
  metadata = p.metadata;
  status = "ready";
  created_at = now;
  updated_at = now;
}

unfoldable pub insert_agent : AgentRow → Control Unit
insert_agent a s = elim (find (is_agent a.agent_id) s.agents) [
  | some _ ↦ (err integrity_error, s)
  | none ↦ (ok tt, record s { agents = s.agents ++ a ∷ [] })
]

-- `create_agent`, with the identifiers of the agent and of its event.
unfoldable pub create_agent : String → String → ℕ → AgentSpec → Control AgentRow
create_agent agent_id event_id now p = do
  workspace ← gets (λ s. find (is_workspace p.workspace_id) s.workspaces)
  _ ← or_raise workspace_not_found workspace
  insert_agent (new_agent agent_id now p)
  _ ←
      event event_id now "agent.created"
        (("agent_id", agent_id) ∷ ("name", p.name) ∷ ("role", p.role) ∷ []) (some p.workspace_id)
        none none
  row ← gets (λ s. find (λ a. a.workspace_id == p.workspace_id && is_agent agent_id a) s.agents)
  or_raise agent_not_listed row

-- INSERT OR REPLACE: the row of the run is taken out, and the new one put in.
unfoldable pub replace_link : RunLink → List RunLink → List RunLink
replace_link l [] = l ∷ []
replace_link l (m ∷ more) =
    let rest = replace_link l more in if m.run_id == l.run_id then rest else m ∷ rest

unfoldable pub link_run : ℕ → String → String → String → String → Control Unit
link_run now run_id workspace_id agent_id objective = modify λ s. record s {
  run_links =
      replace_link
        (record {
          run_id = run_id;
          workspace_id = workspace_id;
          agent_id = agent_id;
          objective = objective;
          created_at = now;
        })
        s.run_links;
}

abbrev pub is_key : String → String → KeyRow → Bool
is_key scope key r = r.scope == scope && r.key == key

abbrev pub response_of : Option KeyRow → Option String
response_of none = none
response_of (some r) = some r.response

-- `idempotent_get`: an absent key and the empty one have no response.
unfoldable pub idempotent_get : String → Option String → Control (Option String)
idempotent_get scope none = pure none
idempotent_get scope (some key) =
    if key == ""
    then pure none
    else gets (λ s. response_of (find (is_key scope key) s.idempotency_keys))

unfoldable pub insert_key : KeyRow → List KeyRow → List KeyRow
insert_key r rows = elim (find (is_key r.scope r.key) rows) [
  | some _ ↦ rows
  | none ↦ rows ++ r ∷ []
]

-- `idempotent_put`: INSERT OR IGNORE.
unfoldable pub idempotent_put : ℕ → String → Option String → String → Control Unit
idempotent_put now scope none response = pure tt
idempotent_put now scope (some key) response =
    if key == ""
    then pure tt
    else modify (λ s. record s {
      idempotency_keys =
          insert_key (record { scope = scope; key = key; response = response; created_at = now })
            s.idempotency_keys;
    })
