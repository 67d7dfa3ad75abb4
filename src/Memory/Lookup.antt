-- ===== src/Memory/Lookup.antt =====
-- eyle/runtime/memory_graph.py: the node and the task of an id, and the life that each may lead.
use Prim.Native.String.{String}
use eyle.Base.Table.{find}
use eyle.Memory.{Node, Task, Graph, active}
use eyle.Memory.Tables.{has_node_id, has_task_id}
use eyle.Memory.Ops.{is_over, is_current, is_terminal, same_state}
use eyle.Base.{
  Option, none, some, Bool, ◌≡◌, true, false, not, is_none, str_eq, ◌+◌, subst, Bool-cases, inl,
  inr, eq_iff,
}

abbrev pub node_of : String → Graph → Option Node
node_of id g = find (has_node_id id) g.nodes

abbrev pub task_of : String → Graph → Option Task
task_of id g = find (has_task_id id) g.tasks

abbrev pub node_id : Node → String
node_id n = n.id

abbrev pub task_key : Task → String
task_key t = t.task_id

abbrev pub is_task : Node → Bool
is_task n = str_eq n.kind "task"

-- The nodes and the tasks of two graphs are the same.
abbrev pub SameCore : Graph → Graph → Type 0
SameCore g h = (h.nodes ≡ g.nodes) × (h.tasks ≡ g.tasks)

-- A task that has begun.
abbrev pub Begun : Task → Type 0
Begun t = (t.state ≡ active) × (t.state_revision ≡ 1) × (t.resolved_at ≡ none)

-- What one operation may do to the node and the task of an id.
pub data Step : Option Node → Option Task → Option Node → Option Task → Type 0 where
  kept : {o : Option Node} {u : Option Task} → Step o u o u
  created :
      {u : Option Task} (n : Node)
      → is_current n.status ≡ true
      → n.revision ≡ 1
      → is_task n ≡ false
      → Step none u (some n) u
  created_task :
      (n : Node) (t : Task)
      → is_current n.status ≡ true
      → n.revision ≡ 1
      → is_task n ≡ true
      → Begun t
      → Step none none (some n) (some t)
  revised :
      {u : Option Task} (n m : Node)
      → is_current n.status ≡ true
      → is_current m.status ≡ true
      → m.revision ≡ n.revision + 1
      → is_task m ≡ not (is_none u)
      → Step (some n) u (some m) u
  became_task :
      (n m : Node) (t : Task)
      → is_current n.status ≡ true
      → is_current m.status ≡ true
      → m.revision ≡ n.revision + 1
      → is_task m ≡ true
      → Begun t
      → Step (some n) none (some m) (some t)
  closed :
      {u : Option Task} (n m : Node)
      → is_current n.status ≡ true
      → is_current m.status ≡ false
      → m.revision ≡ n.revision + 1
      → (m.kind ≡ n.kind) × (m.content ≡ n.content)
      → is_over u ≡ true
      → Step (some n) u (some m) u
  moved :
      {n : Node} (t s : Task)
      → is_current n.status ≡ true
      → same_state t.state s.state ≡ false
      → s.state_revision ≡ t.state_revision + 1
      → is_none s.resolved_at ≡ not (is_terminal s.state)
      → Step (some n) (some t) (some n) (some s)

-- Each node, with its task, takes a step.
abbrev pub Moves : Graph → Graph → Type 0
Moves g h = (i : String) → Step (node_of i g) (task_of i g) (node_of i h) (task_of i h)

pub SameCore-Moves : (g h : Graph) → SameCore g h → Moves g h
SameCore-Moves g h (nodes, tasks) i = rw (nodes, tasks) kept

-- A step of one id, where the others stay.
pub only-Moves :
    (id : String) (g h : Graph)
    → Step (node_of id g) (task_of id g) (node_of id h) (task_of id h)
    → ((i : String)
        → str_eq id i ≡ false
        → (node_of i h ≡ node_of i g) × (task_of i h ≡ task_of i g))
    → Moves g h
only-Moves id g h here elsewhere i = elim (Bool-cases (str_eq id i)) [
  | inl e ↦
      subst (λ j. Step (node_of j g) (task_of j g) (node_of j h) (task_of j h)) ((eq_iff id i).0 e)
        here
  | inr e ↦ rw ((elsewhere i e).0, (elsewhere i e).1) kept
]
