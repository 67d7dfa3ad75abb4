-- ===== src/Memory/TaskOps.antt =====
-- eyle/runtime/memory_graph.py: the operation of `apply_graph_operations` on tasks.
use Prim.Native.String.{String}
use eyle.Base.Text.{strip}
use eyle.Base.Chars.{lower}
use eyle.Value.{Value, Fields, num, lookup}
use eyle.Memory.{TaskState, active, blocked, resolved}
use eyle.Memory.{cancelled, task, Task}
use eyle.Memory.{Try, done, ◌>>=◌, demand, the}
use eyle.Memory.Tables.{node_row, task_row}
use eyle.Memory.Tables.{set_task}
use eyle.Memory.Anchors.{Work}
use eyle.Base.{Option, none, some, Bool, if◌then◌else◌, str_eq, ℕ, ◌+◌, false, leb, ◌&&◌, ◌==◌}
use eyle.Memory.Ops.{Delta, op_text, op_clean, noted, reported, is_current, is_terminal, same_state}

module _ (d : Delta) (op : Fields) where
  unfoldable pub state_of : String → Option TaskState
  state_of s =
      if str_eq s "active"
      then some active
      else if str_eq s "blocked"
      then some blocked
      else if str_eq s "resolved"
      then some resolved
      else if str_eq s "cancelled"
      then some cancelled
      else none

  unfoldable pub in_state : TaskState → Task → Task
  unfolding is_terminal
  in_state state t = record t {
    state = state;
    state_revision = t.state_revision + 1;
    last_execution_id = d.execution_id;
    updated_at = d.now;
    resolved_at = if is_terminal state then some d.now else none;
  }

  -- The integer of at least 1 that is the revision of the state.
  unfoldable pub is_state_revision : ℕ → Option Value → Bool
  is_state_revision revision (some (num n)) = leb 1 n && revision == n
  is_state_revision revision _ = false

  unfoldable pub set_task_status : Work → Try Work
  unfolding op_clean node_row task_row is_current is_state_revision op_text strip lower state_of
      same_state in_state set_task noted reported lookup
  set_task_status w = do
    id ← op_clean d op "id" "TASK_ID" (some 120)
    row ← node_row id w.graph
    _ ← demand (is_current row.status && str_eq row.kind "task") "MEMORY_TASK_NODE_INVALID"
    t ← task_row id w.graph
    let expected = is_state_revision t.state_revision (lookup "expected_state_revision" op)
    _ ← demand expected "MEMORY_TASK_STATE_REVISION_CONFLICT"
    state ← the (state_of (lower (strip (op_text d op "state")))) "MEMORY_TASK_STATE_INVALID"
    let revision = t.state_revision + 1
    let next = record w { graph = set_task id (in_state state) w.graph }
    let after =
        reported d op task id "set_task_status" revision
          (noted d op task id "set_task_status" revision next)
    done (if same_state t.state state then w else after)
