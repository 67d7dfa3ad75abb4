-- ===== src/Memory.antt =====
-- eyle/runtime/memory_graph.py: the memory graph, which keeps what the agent has learned. The database
-- is its tables, each the list of its rows. Left out are the payloads of the events, the full-text index
-- and the snapshots of a recall. An instant is a number; an empty text in a column that may be null is
-- `none`.
pub mod Clean
pub mod Tables
pub mod Anchors
pub mod Ops
pub mod NodeOps
pub mod CloseOps
pub mod TaskOps
pub mod LinkOps
pub mod Changes
pub mod Holds
pub mod Lookup
pub mod Kept
pub mod Begins
pub mod Creates
pub mod Revises
pub mod Closes
pub mod LinkMoves
pub mod Life
pub mod Guarded
pub mod Sound
pub mod Ties
pub mod NodeTies
pub mod LinkTies
pub mod Linked
pub mod Conflict
pub mod LaterEdge
mod Tests
mod ConflictTests
use eyle.Value.{Value, Fields}
use eyle.Base.{ℕ, Bool, true, false, List, Option, String, some, none}

pub data NodeStatus : Type 0 where
  current archived superseded : NodeStatus

pub data EdgeStatus : Type 0 where
  linked retired : EdgeStatus

pub data TaskState : Type 0 where
  active blocked resolved cancelled : TaskState

pub data EntityType : Type 0 where
  node edge task : EntityType

-- Associative cues; a key that is absent is an empty list.
pub record Recall : Type 0 where
  pub aliases : List String
  pub concepts : List String
  pub cues : List String

-- The five epistemic columns are one dict.
pub record Node : Type 0 where
  pub id : String
  pub scope : String
  pub domain : String
  pub context_key : Option String
  pub kind : String
  pub content : String
  pub retention : String
  pub epistemic : Fields
  pub recall : Recall
  pub last_evidenced_at : Option ℕ
  pub status : NodeStatus
  pub revision : ℕ
  pub created_at : ℕ
  pub updated_at : ℕ

pub record Edge : Type 0 where
  pub id : String
  pub source : String
  pub label : String
  pub target : String
  pub epistemic : Fields
  pub last_evidenced_at : Option ℕ
  pub status : EdgeStatus
  pub revision : ℕ
  pub created_at : ℕ
  pub updated_at : ℕ

pub record Task : Type 0 where
  pub task_id : String
  pub state : TaskState
  pub state_revision : ℕ
  pub created_execution_id : Option String
  pub last_execution_id : Option String
  pub created_at : ℕ
  pub updated_at : ℕ
  pub resolved_at : Option ℕ

pub record Anchor : Type 0 where
  pub id : String
  pub entity_type : EntityType
  pub entity_id : String
  pub anchor_kind : String
  pub source_entity_type : Option String
  pub source_revision : Option ℕ
  pub source_capability : Option String
  pub locator : Fields
  pub source_version : Option String
  pub content_hash : Option String
  pub freshness_token : Option String
  pub freshness_arguments : Value
  pub source_ref : Option String
  pub entity_revision : ℕ
  pub created_at : ℕ

pub record Event : Type 0 where
  pub changeset_id : String
  pub entity_type : EntityType
  pub entity_id : String
  pub action : String
  pub revision : ℕ
  pub created_at : ℕ

pub record Changeset : Type 0 where
  pub id : String
  pub execution_id : Option String
  pub turn : Option ℕ
  pub created_at : ℕ

pub record Graph : Type 0 where
  pub nodes : List Node
  pub tags : List (String × String)
  pub edges : List Edge
  pub anchors : List Anchor
  pub changesets : List Changeset
  pub events : List Event
  pub tasks : List Task

-- A result, or the code of the error that is raised.
pub data Try (A : Type 0) : Type 0 where
  done : A → Try A
  raised : String → Try A

infixl 1 ◌>>=◌
unfoldable pub ◌>>=◌ : {A B : Type 0} → Try A → (A → Try B) → Try B
raised code >>= next = raised code
done a >>= next = next a

-- Raises unless the test holds.
unfoldable pub demand : Bool → String → Try Unit
demand true code = done tt
demand false code = raised code

unfoldable pub the : {A : Type 0} → Option A → String → Try A
the none code = raised code
the (some a) code = done a
