-- ===== src/Memory/Ops.antt =====
-- eyle/runtime/memory_graph.py: what the operations of `apply_graph_operations` share. `repr` and
-- `casefold` stand for the methods of `str`, `fresh` for the identifiers that are drawn.
use Prim.Native.String.{String, ◌++◌ as ◌<>◌}
use eyle.Value.{Value, Fields, null, lookup, truthy}
use eyle.Memory.{NodeStatus, current, TaskState, active, blocked, resolved, Task}
use eyle.Memory.{cancelled, EntityType, task}
use eyle.Memory.{Try, done, ◌>>=◌, the}
use eyle.Memory.Clean.{text_of, clean_text, iterate}
use eyle.Memory.Tables.{insert_task, log_event}
use eyle.Memory.Anchors.{Work, insert_anchors}
use eyle.Base.{Option, none, some, [], ◌∷◌, Bool, if◌then◌else◌, str_eq, ℕ, true, ◌++◌, ◌+◌, false}

-- What is the same for all operations of a delta.
pub record Delta : Type 0 where
  pub repr : Value → String
  pub casefold : String → String
  pub fresh : ℕ → String
  pub now : ℕ
  pub changeset_id : String
  pub execution_id : Option String

unfoldable pub same_state : TaskState → TaskState → Bool
same_state active active = true
same_state blocked blocked = true
same_state resolved resolved = true
same_state cancelled cancelled = true
same_state _ _ = false

unfoldable pub is_terminal : TaskState → Bool
is_terminal resolved = true
is_terminal cancelled = true
is_terminal _ = false

-- No task, or one that has ended.
unfoldable pub is_over : Option Task → Bool
unfolding is_terminal
is_over none = true
is_over (some t) = is_terminal t.state

unfoldable pub is_current : NodeStatus → Bool
is_current current = true
is_current _ = false

-- `now if op.get("anchors") else old`
unfoldable pub evidenced : Option Value → ℕ → Option ℕ → Option ℕ
unfolding truthy
evidenced none now old = old
evidenced (some v) now old = if truthy v then some now else old

unfoldable pub value_of : Option Value → Value
value_of none = null
value_of (some v) = v

module _ (d : Delta) (op : Fields) where
  -- `str(op.get(k) or "")`
  unfoldable pub op_text : String → String
  unfolding text_of lookup
  op_text k = text_of d.repr (lookup k op)

  unfoldable pub op_clean : String → String → Option ℕ → Try String
  unfolding clean_text lookup
  op_clean k code maximum = clean_text d.repr (lookup k op) code maximum

  -- `str(op.get("id") or _new_id(prefix))`
  unfoldable pub id_or_new : String → Work → String × Work
  unfolding op_text
  id_or_new prefix w =
      if str_eq (op_text "id") ""
      then (prefix <> d.fresh w.drawn, record w { drawn = w.drawn + 1 })
      else (op_text "id", w)

  -- An event, and a row of `affected`.
  unfoldable pub noted : EntityType → String → String → ℕ → Work → Work
  unfolding log_event
  noted type id action revision w = record w {
    graph =
        log_event
          (record {
            changeset_id = d.changeset_id;
            entity_type = type;
            entity_id = id;
            action = action;
            revision = revision;
            created_at = d.now;
          })
          w.graph;
  }

  unfoldable pub reported : EntityType → String → String → ℕ → Work → Work
  reported type id action revision w = record w {
    affected =
        w.affected
        ++ record { entity_type = type; id = id; revision = revision; action = action } ∷ [];
  }

  unfoldable pub op_anchors : EntityType → String → ℕ → Work → Try Work
  unfolding iterate insert_anchors lookup
  op_anchors type id revision w = do
    anchors ← the (iterate (lookup "anchors" op)) "TypeError"
    insert_anchors d.repr d.fresh d.now type id revision anchors w

  -- The row of a task that begins.
  unfoldable pub begin_task : String → Work → Try Work
  unfolding insert_task noted
  begin_task id w = do
    g ←
        insert_task
          (record {
            task_id = id;
            state = active;
            state_revision = 1;
            created_execution_id = d.execution_id;
            last_execution_id = d.execution_id;
            created_at = d.now;
            updated_at = d.now;
            resolved_at = none;
          })
          w.graph
    done (noted task id "create_task_state" 1 (record w { graph = g }))

  unfoldable pub begin_if : Bool → String → Work → Try Work
  unfolding begin_task
  begin_if true id w = begin_task id w
  begin_if false id w = done w
