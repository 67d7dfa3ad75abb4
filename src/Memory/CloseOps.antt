-- ===== src/Memory/CloseOps.antt =====
-- eyle/runtime/memory_graph.py: the operations of `apply_graph_operations` that close a node.
use Prim.Native.String.{String, ◌++◌ as ◌<>◌}
use eyle.Base.Table.{find}
use eyle.Value.{Fields, obj, lookup, end, field, text, float, one_float}
use eyle.Memory.{Edge, NodeStatus, archived, superseded}
use eyle.Memory.{node, edge, Node, linked}
use eyle.Memory.{Try, done, ◌>>=◌, demand}
use eyle.Memory.Tables.{has_task_id, node_row, expect_revision, insert_edge}
use eyle.Memory.Tables.{set_node}
use eyle.Memory.Anchors.{Work}
use eyle.Base.{none, some, ◌+◌}
use eyle.Memory.Ops.{Delta, is_over, op_clean, noted, reported, is_current}

module _ (d : Delta) (op : Fields) where
  -- A node that is closed, after its checks.
  unfoldable pub closed_row : String → Work → Try Node
  unfolding node_row expect_revision is_current is_over lookup
  closed_row id w = do
    row ← node_row id w.graph
    _ ← expect_revision row.revision (lookup "expected_revision" op)
    _ ← demand (is_current row.status) "MEMORY_NODE_NOT_CURRENT"
    _ ← demand (is_over (find (has_task_id id) w.graph.tasks)) "MEMORY_TASK_MUST_BE_TERMINAL"
    done row

  unfoldable pub close : NodeStatus → Node → Node
  close status row = record row { status = status; revision = row.revision + 1; updated_at = d.now }

  unfoldable pub archive_node : Work → Try Work
  unfolding op_clean closed_row close set_node noted reported
  archive_node w = do
    id ← op_clean d op "id" "NODE_ID" (some 120)
    row ← closed_row id w
    let revision = row.revision + 1
    let next = record w { graph = set_node id (close archived) w.graph }
    done (
        reported d op node id "archive_node" revision
          (noted d op node id "archive_node" revision next))

  -- The relation of a node to the one that supersedes it.
  unfoldable pub succession : String → String → String → Edge
  succession rel_id id replacement = record {
    id = rel_id;
    source = id;
    label = "superseded_by";
    target = replacement;
    epistemic = lifecycle;
    last_evidenced_at = none;
    status = linked;
    revision = 1;
    created_at = d.now;
    updated_at = d.now;
  }
    where
      lifecycle : Fields
      lifecycle = field "nature" (text "lifecycle_relation") (
          field "confidence" (float one_float) (
            field "volatility" (text "low")
              (field "temporal" (obj end) (field "context" (obj end) end))))

  unfoldable pub supersede_node : Work → Try Work
  unfolding op_clean closed_row close succession set_node node_row insert_edge noted reported
  supersede_node w = do
    id ← op_clean d op "id" "NODE_ID" (some 120)
    row ← closed_row id w
    let revision = row.revision + 1
    let closed = set_node id (close superseded) w.graph
    replacement ← op_clean d op "replacement" "REPLACEMENT" (some 120)
    _ ← node_row replacement closed
    let rel_id = "rel-" <> d.fresh w.drawn
    g ← insert_edge (succession rel_id id replacement) closed
    let related =
        noted d op edge rel_id "create_edge" 1 (record w { graph = g; drawn = w.drawn + 1 })
    done (
        reported d op node id "supersede_node" revision
          (noted d op node id "supersede_node" revision related))
