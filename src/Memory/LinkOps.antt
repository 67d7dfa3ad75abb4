-- ===== src/Memory/LinkOps.antt =====
-- eyle/runtime/memory_graph.py: the operations of `apply_graph_operations` on relations.
use Prim.Native.String.{String}
use eyle.Base.Text.{strip, size}
use eyle.Value.{Value, Fields, obj, null, lookup, end, field, text, truthy}
use eyle.Memory.{EdgeStatus, linked, retired, edge, Edge}
use eyle.Memory.{Try, done, ◌>>=◌, demand}
use eyle.Memory.Clean.{is_id, clean_epistemic}
use eyle.Memory.Tables.{node_row, edge_row, expect_revision, insert_edge, set_edge}
use eyle.Memory.Anchors.{Work}
use eyle.Memory.Ops.{Delta, op_text, op_clean, id_or_new, evidenced, noted, reported, op_anchors}
use eyle.Base.{Option, none, some, Bool, if◌then◌else◌, ◌+◌, str_eq, true, false, leb}

unfoldable pub is_linked : EdgeStatus → Bool
is_linked linked = true
is_linked retired = false

-- `op.get("epistemic") or {"nature": "relation"}`
unfoldable pub relation_epistemic : Option Value → Value
unfolding truthy
relation_epistemic none = obj (field "nature" (text "relation") end)
relation_epistemic (some v) = if truthy v then v else obj (field "nature" (text "relation") end)

-- `op.get("epistemic")`, or that of the row.
unfoldable pub kept_epistemic : Edge → Option Value → Value
kept_epistemic row none = obj row.epistemic
kept_epistemic row (some null) = obj row.epistemic
kept_epistemic row (some v) = v

module _ (d : Delta) (op : Fields) where
  -- The row of a new relation.
  unfoldable pub new_edge : String → Try Edge
  unfolding is_id op_clean relation_epistemic clean_epistemic evidenced lookup
  new_edge id = do
    _ ← demand (is_id "rel-" id) "MEMORY_EDGE_ID_INVALID"
    source ← op_clean d op "source" "SOURCE" (some 120)
    target ← op_clean d op "target" "TARGET" (some 120)
    label ← op_clean d op "label" "RELATION" (some 120)
    epistemic ← clean_epistemic (relation_epistemic (lookup "epistemic" op))
    done (record {
      id = id;
      source = source;
      label = label;
      target = target;
      epistemic = epistemic;
      last_evidenced_at = evidenced (lookup "anchors" op) d.now none;
      status = linked;
      revision = 1;
      created_at = d.now;
      updated_at = d.now;
    })

  unfoldable pub create_edge : Work → Try Work
  unfolding id_or_new new_edge node_row insert_edge op_anchors noted reported
  create_edge w₀ = do
    let (id, w) = id_or_new d op "rel-" w₀
    e ← new_edge id
    _ ← node_row e.source w.graph
    _ ← node_row e.target w.graph
    g ← insert_edge e w.graph
    anchored ← op_anchors d op edge id 1 (record w { graph = g })
    done (reported d op edge id "create_edge" 1 (noted d op edge id "create_edge" 1 anchored))

  -- The row of a relation that may be written, by its revision and its status.
  unfoldable pub open_edge : String → Work → Try Edge
  unfolding edge_row expect_revision is_linked lookup
  open_edge id w = do
    row ← edge_row id w.graph
    _ ← expect_revision row.revision (lookup "expected_revision" op)
    _ ← demand (is_linked row.status) "MEMORY_EDGE_NOT_CURRENT"
    done row

  unfoldable pub relabel : String → Fields → Edge → Edge
  unfolding evidenced lookup
  relabel label epistemic row = record row {
    label = label;
    epistemic = epistemic;
    last_evidenced_at = evidenced (lookup "anchors" op) d.now row.last_evidenced_at;
    revision = row.revision + 1;
    updated_at = d.now;
  }

  unfoldable pub update_edge : Work → Try Work
  unfolding op_clean open_edge op_text strip size kept_epistemic clean_epistemic relabel set_edge
      op_anchors noted reported lookup
  update_edge w = do
    id ← op_clean d op "id" "EDGE_ID" (some 120)
    row ← open_edge id w
    let given = strip (op_text d op "label")
    let label = if str_eq given "" then row.label else given
    _ ← demand (leb (size label) 120) "MEMORY_RELATION_TOO_LARGE"
    epistemic ← clean_epistemic (kept_epistemic row (lookup "epistemic" op))
    let revision = row.revision + 1
    let g = set_edge id (relabel label epistemic) w.graph
    anchored ← op_anchors d op edge id revision (record w { graph = g })
    done (
        reported d op edge id "update_edge" revision
          (noted d op edge id "update_edge" revision anchored))

  unfoldable pub retire : Edge → Edge
  retire row = record row { status = retired; revision = row.revision + 1; updated_at = d.now }

  unfoldable pub retire_edge : Work → Try Work
  unfolding op_clean open_edge retire set_edge noted reported
  retire_edge w = do
    id ← op_clean d op "id" "EDGE_ID" (some 120)
    row ← open_edge id w
    let revision = row.revision + 1
    let next = record w { graph = set_edge id retire w.graph }
    done (
        reported d op edge id "retire_edge" revision
          (noted d op edge id "retire_edge" revision next))
