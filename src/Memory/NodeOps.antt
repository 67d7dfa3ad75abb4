-- ===== src/Memory/NodeOps.antt =====
-- eyle/runtime/memory_graph.py: the operations of `apply_graph_operations` that write the content of a node.
use Prim.Native.String.{String}
use eyle.Base.Dict.{member}
use eyle.Base.Text.{strip, size}
use eyle.Base.Chars.{lower}
use eyle.Base.Table.{find}
use eyle.Value.{Value, Fields, obj, null, lookup}
use eyle.Epistemic.{normalize_domain, normalize_context_key, ContextKey, no_key, key, too_large}
use eyle.Memory.{current}
use eyle.Memory.{node, Node}
use eyle.Memory.{Try, done, raised, ◌>>=◌, demand, the}
use eyle.Memory.Clean.{is_id, clean_tags, clean_recall_metadata}
use eyle.Memory.Clean.{merge_recall_metadata, clean_epistemic}
use eyle.Memory.Tables.{has_task_id, node_row, expect_revision, insert_node, insert_new_tags}
use eyle.Memory.Tables.{set_node, insert_tags, delete_tags}
use eyle.Memory.Anchors.{Work}
use eyle.Base.{
  Option, none, some, List, [], ◌∷◌, Bool, if◌then◌else◌, str_eq, or_else, ◌+◌, leb, not, ◌&&◌,
  is_none, ◌||◌,
}
use eyle.Memory.Ops.{
  Delta, op_text, op_clean, id_or_new, noted, reported, op_anchors, begin_if, is_current, evidenced,
  value_of,
}

unfoldable pub context_of : ContextKey → Try (Option String)
context_of no_key = done none
context_of (key s) = done (some s)
context_of too_large = raised "MEMORY_CONTEXT_KEY_TOO_LARGE"

abbrev pub the_retentions : List String
the_retentions = "temporary" ∷ "persistent" ∷ []

module _ (d : Delta) (op : Fields) where
  -- The row of a new node, and its tags.
  unfoldable pub new_node : String → Try (Node × List String)
  unfolding op_clean normalize_domain normalize_context_key context_of value_of clean_epistemic
      op_text strip lower member clean_tags clean_recall_metadata evidenced lookup
  new_node id = do
    _ ← demand (is_id "mem-" id) "MEMORY_NODE_ID_INVALID"
    scope ← op_clean d op "scope" "SCOPE" (some 160)
    kind ← op_clean d op "kind" "KIND" (some 96)
    let is_task = str_eq kind "task"
    domain ←
        the
          (normalize_domain lower d.repr (value_of (lookup "domain" op))
            (if is_task then "task" else "knowledge"))
          "MEMORY_DOMAIN_INVALID"
    context_key ← context_of (normalize_context_key d.repr (value_of (lookup "context_key" op)))
    content ← op_clean d op "content" "CONTENT" none
    epistemic ← clean_epistemic (value_of (lookup "epistemic" op))
    let given = op_text d op "retention"
    let retention = lower (strip (if str_eq given "" then "persistent" else given))
    _ ← demand (member retention the_retentions) "MEMORY_RETENTION_INVALID"
    tags ← clean_tags d.casefold d.repr (lookup "tags" op)
    recall ← clean_recall_metadata d.casefold (lookup "recall" op)
    let row : Node = record {
      id = id;
      scope = scope;
      domain = if is_task then "task" else domain;
      context_key = if is_task then some (or_else context_key id) else context_key;
      kind = kind;
      content = content;
      retention = retention;
      epistemic = epistemic;
      recall = recall;
      last_evidenced_at = evidenced (lookup "anchors" op) d.now none;
      status = current;
      revision = 1;
      created_at = d.now;
      updated_at = d.now;
    }
    done (row, tags)

  unfoldable pub create_node : Work → Try Work
  unfolding id_or_new new_node insert_node insert_new_tags op_anchors begin_if noted reported
  create_node w₀ = do
    let (id, w) = id_or_new d op "mem-" w₀
    (n, tags) ← new_node id
    g ← insert_node n w.graph
    tagged ← insert_new_tags id tags g
    anchored ← op_anchors d op node id 1 (record w { graph = tagged })
    begun ← begin_if d op (str_eq n.kind "task") id anchored
    done (reported d op node id "create_node" 1 (noted d op node id "create_node" 1 begun))

  -- The fields that an update writes, from the row.
  unfoldable pub revised : Node → Bool → Try Node
  unfolding op_text strip lower member size clean_epistemic value_of merge_recall_metadata evidenced
      lookup
  revised row existing_task = do
    let given_content = strip (op_text d op "content")
    let given_kind = strip (op_text d op "kind")
    let kind = if str_eq given_kind "" then row.kind else given_kind
    _ ← demand (leb (size kind) 96) "MEMORY_KIND_TOO_LARGE"
    _ ← demand (not existing_task || str_eq kind "task") "MEMORY_TASK_KIND_IMMUTABLE"
    let given = op_text d op "retention"
    let retention = lower (strip (if str_eq given "" then row.retention else given))
    epistemic ← clean_epistemic (revised_epistemic row (lookup "epistemic" op))
    recall ←
        merge_recall_metadata d.casefold row.recall (lookup "recall" op) (lookup "add_recall" op)
          (lookup "remove_recall" op)
    _ ← demand (member retention the_retentions) "MEMORY_RETENTION_INVALID"
    let next : Node = record row {
      kind = kind;
      content = if str_eq given_content "" then row.content else given_content;
      retention = retention;
      epistemic = epistemic;
      recall = recall;
      last_evidenced_at = evidenced (lookup "anchors" op) d.now row.last_evidenced_at;
      revision = row.revision + 1;
      updated_at = d.now;
    }
    done next
    where
      revised_epistemic : Node → Option Value → Value
      revised_epistemic row none = obj row.epistemic
      revised_epistemic row (some null) = obj row.epistemic
      revised_epistemic row (some v) = v

  unfoldable pub update_node : Work → Try Work
  unfolding op_clean lookup node_row expect_revision is_current revised set_node clean_tags
      insert_tags delete_tags op_anchors begin_if noted reported
  update_node w = do
    id ← op_clean d op "id" "NODE_ID" (some 120)
    row ← node_row id w.graph
    _ ← expect_revision row.revision (lookup "expected_revision" op)
    _ ← demand (is_current row.status) "MEMORY_NODE_NOT_CURRENT"
    let existing_task = not (is_none (find (has_task_id id) w.graph.tasks))
    next ← revised row existing_task
    add_tags ← clean_tags d.casefold d.repr (lookup "add_tags" op)
    remove_tags ← clean_tags d.casefold d.repr (lookup "remove_tags" op)
    let tagged =
        delete_tags id remove_tags (insert_tags id add_tags (set_node id (λ _. next) w.graph))
    anchored ← op_anchors d op node id next.revision (record w { graph = tagged })
    begun ← begin_if d op (str_eq next.kind "task" && not existing_task) id anchored
    done (
        reported d op node id "update_node" next.revision
          (noted d op node id "update_node" next.revision begun))
