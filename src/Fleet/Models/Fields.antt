-- ===== src/Fleet/Models/Fields.antt =====
-- models.py: the records, and the constraints that their fields declare.
use evoagent_os.Base.{ℕ, String, Bool, ◌&&◌, ◌||◌, List, [], ◌∷◌, leb, nat_eq, length, all}
use Prim.Native.Char.{code}

pub data NodeStatus : Type 0 where
  blocked queued awaiting_approval leased completed failed : NodeStatus

pub record Budget : Type 0 where
  pub tokens : ℕ
  pub cost_usd : ℕ
  pub seconds : ℕ

pub record NodeSpec : Type 0 where
  pub id : String
  pub objective : String
  pub depends_on : List String
  pub capabilities : List String
  pub input : String
  pub budget : Budget
  pub approval_required : Bool
  pub max_attempts : ℕ

pub record WorkflowSpec : Type 0 where
  pub name : String
  pub nodes : List NodeSpec
  pub metadata : String

pub record WorkerRegistration : Type 0 where
  pub worker_id : String
  pub capabilities : List String
  pub pool : String
  pub max_concurrency : ℕ
  pub metadata : String

pub record Completion : Type 0 where
  pub output : String
  pub artifacts : List (String × String)
  pub tokens_used : ℕ
  pub cost_usd : ℕ
  pub duration_seconds : ℕ
  pub quality : ℕ

-- A millionth is the unit of the floats, so this is 1.0.
abbrev pub one : ℕ
one = 1_000_000

-- The code points of a text.
abbrev pub codes : String → List ℕ
codes String.[] = []
codes (String.◌∷◌ c s) = code c ∷ codes s

-- The character class `[A-Za-z0-9_-]` of a node's id.
id_char : ℕ → Bool
id_char c =
    (leb b'A' c && leb c b'Z')
    || (leb b'a' c && leb c b'z')
    || (leb b'0' c && leb c b'9')
    || nat_eq c b'_'
    || nat_eq c b'-'

-- `min_length` and `max_length`.
sized : ℕ → ℕ → String → Bool
sized lo hi s = leb lo (length (codes s)) && leb (length (codes s)) hi

unfoldable pub node_fields : NodeSpec → Bool
unfolding id_char sized
node_fields n =
    all id_char (codes n.id)
    && sized 1 64 n.id
    && sized 1 20000 n.objective
    && leb 1 n.budget.seconds
    && leb 1 n.max_attempts
    && leb n.max_attempts 10

unfoldable pub workflow_fields : WorkflowSpec → Bool
unfolding node_fields
workflow_fields w =
    sized 1 120 w.name
    && leb 1 (length w.nodes)
    && leb (length w.nodes) 500
    && all node_fields w.nodes

unfoldable pub completion_fields : Completion → Bool
completion_fields c = leb c.quality one
