-- ===== src/Memory/Tests.antt =====
-- eyle/runtime/memory_graph.py: deltas on concrete graphs, for the tests and the witnesses.
use mathlib.Core.Path.{refl}
use eyle.Value.{Fields, Items, nil, cons, obj, num, text, end, field}
use eyle.Epistemic.{normalize_fields, text_or, short_text, confidence_of}
use eyle.Memory.{current, archived, active, resolved, node, done, raised}
use eyle.Memory.{◌>>=◌, demand, the, Node, Task, Graph, Recall}
use eyle.Memory.Ops.{Delta, is_over, is_terminal, is_current}
use eyle.Memory.NodeOps.{create_node}
use eyle.Memory.TaskOps.{set_task_status}
use eyle.Memory.CloseOps.{archive_node, supersede_node, succession}
use eyle.Memory.Changes.{apply_graph_operations}
use eyle.Memory.Lookup.{node_of, task_of}
use eyle.Memory.Life.{Life, apply_graph_operations-Life}
use eyle.Memory.Guarded.{
  apply_graph_operations-closed, apply_graph_operations-LaterNode, apply_graph_operations-LaterTask,
  LaterNode, LaterTask,
}
use eyle.Memory.Ties.{edge_of}
use eyle.Memory.Linked.{Anchored, apply_graph_operations-Anchored}
use eyle.Memory.Sound.{Sound, apply_graph_operations-Sound, Fits, Timed}
use eyle.Base.{none, some, [], ◌∷◌, ◌≡◌, ℕ}

abbrev pub delta : Delta
delta = record {
  repr = λ _. "";
  casefold = λ s. s;
  fresh = λ n. "0";
  now = 7;
  changeset_id = "mcs-1";
  execution_id = some "exec";
}

abbrev no_recall : Recall
no_recall = record { aliases = []; concepts = []; cues = [] }

abbrev pub old : Node
old = record {
  id = "mem-1";
  scope = "s";
  domain = "task";
  context_key = some "mem-1";
  kind = "task";
  content = "c";
  retention = "persistent";
  epistemic = end;
  recall = no_recall;
  last_evidenced_at = none;
  status = archived;
  revision = 2;
  created_at = 1;
  updated_at = 1;
}

abbrev pub ended : Task
ended = record {
  task_id = "mem-1";
  state = resolved;
  state_revision = 3;
  created_execution_id = none;
  last_execution_id = none;
  created_at = 1;
  updated_at = 1;
  resolved_at = some 1;
}

abbrev graph : Graph
graph = record {
  nodes = old ∷ [];
  tags = [];
  edges = [];
  anchors = [];
  changesets = [];
  events = [];
  tasks = ended ∷ [];
}

-- A node is created, and archived.
abbrev create : Fields
create = field "op" (text "create_node") (
    field "id" (text "mem-2") (
      field "scope" (text "s") (
        field "kind" (text "fact")
          (field "content" (text "c") (field "epistemic" (obj nature) end)))))
  where
    nature : Fields
    nature = field "nature" (text "observed") end

abbrev archive : ℕ → Fields
archive revision =
    field "op" (text "archive_node")
      (field "id" (text "mem-2") (field "expected_revision" (num revision) end))

abbrev both : ℕ → Items
both revision = cons (obj create) (cons (obj (archive revision)) nil)

after_both :
    (apply_graph_operations delta none (both 1) graph).0
    ≡ done (
        record { entity_type = node; id = "mem-2"; revision = 1; action = "create_node" }
        ∷ record { entity_type = node; id = "mem-2"; revision = 2; action = "archive_node" }
        ∷ [])
unfolding apply_graph_operations ◌>>=◌ demand the create_node archive_node normalize_fields text_or
    short_text confidence_of
after_both = refl

stale : (apply_graph_operations delta none (both 2) graph) ≡ (raised "MEMORY_CONFLICT", graph)
unfolding apply_graph_operations ◌>>=◌ demand the create_node archive_node normalize_fields text_or
    short_text confidence_of
stale = refl

abbrev next : Graph
next = (apply_graph_operations delta none (both 1) graph).1

apply_graph_operations-Life_example :
    Life
      (node_of "mem-2" graph)
      (task_of "mem-2" graph)
      (node_of "mem-2" next)
      (task_of "mem-2" next)
apply_graph_operations-Life_example = apply_graph_operations-Life delta none (both 1) graph "mem-2"

apply_graph_operations-closed_example :
    (node_of "mem-1" next ≡ node_of "mem-1" graph) × (task_of "mem-1" next ≡ task_of "mem-1" graph)
unfolding is_current
apply_graph_operations-closed_example =
    apply_graph_operations-closed delta none (both 1) graph "mem-1" old refl refl

-- A task is resolved, and its node archived.
abbrev pub running : Graph
running = record graph {
  nodes = record old { status = current; revision = 1 } ∷ [];
  tasks = record ended { state = active; state_revision = 2; resolved_at = none } ∷ [];
}

abbrev pub resolve : Fields
resolve = field "op" (text "set_task_status") (
    field "id" (text "mem-1")
      (field "expected_state_revision" (num 2) (field "state" (text "resolved") end)))

abbrev pub put_away : ℕ → Fields
put_away revision =
    field "op" (text "archive_node")
      (field "id" (text "mem-1") (field "expected_revision" (num revision) end))

abbrev pub finish : ℕ → Items
finish revision = cons (obj resolve) (cons (obj (put_away revision)) nil)

abbrev finished : Graph
finished = (apply_graph_operations delta none (finish 1) running).1

finished_rows :
    (finished.nodes ≡ record old { updated_at = 7 } ∷ [])
    × (finished.tasks
        ≡ record ended { last_execution_id = some "exec"; updated_at = 7; resolved_at = some 7 }
          ∷ [])
unfolding apply_graph_operations ◌>>=◌ demand the set_task_status archive_node
finished_rows = (refl, refl)

apply_graph_operations-LaterNode_example :
    LaterNode (record old { status = current; revision = 1 }) (node_of "mem-1" finished)
apply_graph_operations-LaterNode_example =
    apply_graph_operations-LaterNode delta none (finish 1) running "mem-1"
      (record old { status = current; revision = 1 }) refl

apply_graph_operations-LaterTask_example :
    LaterTask
      (record ended { state = active; state_revision = 2; resolved_at = none })
      (task_of "mem-1" finished)
apply_graph_operations-LaterTask_example =
    apply_graph_operations-LaterTask delta none (finish 1) running "mem-1"
      (record ended { state = active; state_revision = 2; resolved_at = none }) refl

running-Sound : Sound (node_of "mem-1" running) (task_of "mem-1" running)
unfolding Fits Timed is_over is_terminal is_current
running-Sound = ((refl, refl), refl)

apply_graph_operations-Sound_example : Sound (node_of "mem-1" finished) (task_of "mem-1" finished)
apply_graph_operations-Sound_example =
    apply_graph_operations-Sound delta none (finish 1) running "mem-1" running-Sound

-- A node is superseded, which ties it to another.
abbrev replace : Items
replace = cons (obj create) (cons (obj succeed) nil)
  where
    succeed : Fields
    succeed = field "op" (text "supersede_node") (
        field "id" (text "mem-2")
          (field "expected_revision" (num 1) (field "replacement" (text "mem-1") end)))

abbrev replaced : Graph
replaced = (apply_graph_operations delta none replace graph).1

replaced_edges : replaced.edges ≡ succession delta end "rel-0" "mem-2" "mem-1" ∷ []
unfolding apply_graph_operations ◌>>=◌ demand the create_node supersede_node normalize_fields
    text_or short_text confidence_of
replaced_edges = refl

none-Anchored : Anchored (edge_of "rel-0" graph) graph.nodes
unfolding Anchored
none-Anchored = tt

apply_graph_operations-Anchored_example : Anchored (edge_of "rel-0" replaced) replaced.nodes
apply_graph_operations-Anchored_example =
    apply_graph_operations-Anchored delta none replace graph "rel-0" none-Anchored
