-- ===== src/Memory/Changes.antt =====
-- eyle/runtime/memory_graph.py: `apply_graph_operations`, one delta as one transaction of the database:
-- an error rolls all of it back.
use eyle.Base.Text.{strip}
use eyle.Value.{Fields, Items, nil, cons, obj}
use eyle.Memory.{Graph, Try, done, raised, ◌>>=◌}
use eyle.Memory.Anchors.{Work, Affected}
use eyle.Memory.Ops.{Delta, op_text}
use eyle.Memory.NodeOps.{create_node, update_node}
use eyle.Memory.CloseOps.{archive_node, supersede_node}
use eyle.Memory.TaskOps.{set_task_status}
use eyle.Memory.LinkOps.{create_edge, update_edge, retire_edge}
use eyle.Base.{Option, List, [], ◌∷◌, if◌then◌else◌, ℕ, str_eq, ◌++◌}

module _ (d : Delta) where
  -- The body of the loop.
  unfoldable pub apply_one : Fields → Work → Try Work
  unfolding op_text strip create_node update_node archive_node supersede_node set_task_status
      create_edge update_edge retire_edge
  apply_one op w =
      let kind = strip (op_text d op "op") in
      if str_eq kind "create_node"
      then create_node d op w
      else if str_eq kind "update_node"
      then update_node d op w
      else if str_eq kind "archive_node"
      then archive_node d op w
      else if str_eq kind "supersede_node"
      then supersede_node d op w
      else if str_eq kind "set_task_status"
      then set_task_status d op w
      else if str_eq kind "create_edge"
      then create_edge d op w
      else if str_eq kind "update_edge"
      then update_edge d op w
      else if str_eq kind "retire_edge"
      then retire_edge d op w
      else raised "MEMORY_GRAPH_OPERATION_INVALID"

  unfoldable pub apply_all : List Fields → Work → Try Work
  unfolding apply_one
  apply_all [] w = done w
  apply_all (op ∷ ops) w = do next ← apply_one op w; apply_all ops next

-- The operations that are dicts.
unfoldable pub ops_of : Items → List Fields
ops_of nil = []
ops_of (cons (obj op) rest) = op ∷ ops_of rest
ops_of (cons v rest) = ops_of rest

unfoldable pub open_changeset : Delta → Option ℕ → Graph → Graph
open_changeset d turn g = record g {
  changesets =
      g.changesets
      ++ record {
        id = d.changeset_id;
        execution_id = d.execution_id;
        turn = turn;
        created_at = d.now;
      }
        ∷ [];
}

-- The rows affected, or the error, and the graph that is left.
unfoldable pub committed : Graph → Try Work → Try (List Affected) × Graph
committed g (raised code) = (raised code, g)
committed g (done w) = (done w.affected, w.graph)

unfoldable pub apply_ops : Delta → Option ℕ → List Fields → Graph → Try (List Affected) × Graph
unfolding apply_all open_changeset committed
apply_ops d turn [] g = (done [], g)
apply_ops d turn (op ∷ ops) g =
    committed g (
      apply_all d (op ∷ ops) (record { graph = open_changeset d turn g; drawn = 0; affected = [] }))

unfoldable pub apply_graph_operations :
    Delta → Option ℕ → Items → Graph → Try (List Affected) × Graph
unfolding apply_ops ops_of
apply_graph_operations d turn operations g = apply_ops d turn (ops_of operations) g
