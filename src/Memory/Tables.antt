-- ===== src/Memory/Tables.antt =====
-- eyle/runtime/memory_graph.py: the look-ups and the statements on the tables. A duplicate id is an
-- IntegrityError, which ends as MEMORY_GRAPH_ID_CONFLICT.
use eyle.Base.Chars.{lower}
use Prim.Native.String.{String}
use eyle.Base.Table.{find, update, delete}
use eyle.Value.{Value, num, neg}
use eyle.Memory.{Node, Edge, Task, Anchor, Event, Graph, Try, done, raised, ◌>>=◌, demand, the}
use eyle.Base.{
  Option, some, List, [], ◌∷◌, ◌++◌, Bool, if◌then◌else◌, is_none, ℕ, any, str_eq, ◌==◌, ◌&&◌, not,
}

abbrev pub has_node_id : String → Node → Bool
has_node_id id n = str_eq n.id id

abbrev pub has_edge_id : String → Edge → Bool
has_edge_id id e = str_eq e.id id

abbrev pub has_task_id : String → Task → Bool
has_task_id id t = str_eq t.task_id id

abbrev pub has_anchor_id : String → Anchor → Bool
has_anchor_id id a = str_eq a.id id

unfoldable pub node_row : String → Graph → Try Node
node_row id g = the (find (has_node_id id) g.nodes) "MEMORY_NODE_NOT_FOUND"

unfoldable pub edge_row : String → Graph → Try Edge
edge_row id g = the (find (has_edge_id id) g.edges) "MEMORY_EDGE_NOT_FOUND"

unfoldable pub task_row : String → Graph → Try Task
task_row id g = the (find (has_task_id id) g.tasks) "MEMORY_TASK_NOT_FOUND"

-- `_expect_revision`, of the revision of the row. An integer below 0 is no revision of a row.
unfoldable pub expect_revision : ℕ → Option Value → Try Unit
expect_revision revision (some (num n)) = demand (revision == n) "MEMORY_CONFLICT"
expect_revision revision (some (neg n)) = raised "MEMORY_CONFLICT"
expect_revision revision _ = raised "MEMORY_EXPECTED_REVISION_REQUIRED"

unfoldable pub insert_node : Node → Graph → Try Graph
insert_node n g = do
  _ ← demand (is_none (find (has_node_id n.id) g.nodes)) "MEMORY_GRAPH_ID_CONFLICT"
  done (record g { nodes = g.nodes ++ n ∷ [] })

unfoldable pub insert_edge : Edge → Graph → Try Graph
insert_edge e g = do
  _ ← demand (is_none (find (has_edge_id e.id) g.edges)) "MEMORY_GRAPH_ID_CONFLICT"
  done (record g { edges = g.edges ++ e ∷ [] })

unfoldable pub insert_task : Task → Graph → Try Graph
insert_task t g = do
  _ ← demand (is_none (find (has_task_id t.task_id) g.tasks)) "MEMORY_GRAPH_ID_CONFLICT"
  done (record g { tasks = g.tasks ++ t ∷ [] })

unfoldable pub insert_anchor : Anchor → Graph → Try Graph
insert_anchor a g = do
  _ ← demand (is_none (find (has_anchor_id a.id) g.anchors)) "MEMORY_GRAPH_ID_CONFLICT"
  done (record g { anchors = g.anchors ++ a ∷ [] })

unfoldable pub set_node : String → (Node → Node) → Graph → Graph
set_node id f g = record g { nodes = update (has_node_id id) f g.nodes }

unfoldable pub set_edge : String → (Edge → Edge) → Graph → Graph
set_edge id f g = record g { edges = update (has_edge_id id) f g.edges }

unfoldable pub set_task : String → (Task → Task) → Graph → Graph
set_task id f g = record g { tasks = update (has_task_id id) f g.tasks }

-- `_event`
unfoldable pub log_event : Event → Graph → Graph
log_event e g = record g { events = g.events ++ e ∷ [] }

-- A tag of the node, in any case of its ASCII letters (COLLATE NOCASE).
unfoldable pub is_tag : String → String → String × String → Bool
unfolding lower
is_tag id tag (node, t) = str_eq node id && str_eq (lower t) (lower tag)

-- INSERT OR IGNORE
unfoldable pub insert_tags : String → List String → Graph → Graph
unfolding is_tag
insert_tags id [] g = g
insert_tags id (tag ∷ ts) g =
    insert_tags id ts
      (if any (is_tag id tag) g.tags then g else record g { tags = g.tags ++ (id, tag) ∷ [] })

-- INSERT
unfoldable pub insert_new_tags : String → List String → Graph → Try Graph
unfolding is_tag
insert_new_tags id [] g = done g
insert_new_tags id (tag ∷ ts) g = do
  _ ← demand (not (any (is_tag id tag) g.tags)) "MEMORY_GRAPH_ID_CONFLICT"
  insert_new_tags id ts (record g { tags = g.tags ++ (id, tag) ∷ [] })

unfoldable pub delete_tags : String → List String → Graph → Graph
unfolding is_tag
delete_tags id [] g = g
delete_tags id (tag ∷ ts) g = delete_tags id ts (record g { tags = delete (is_tag id tag) g.tags })
