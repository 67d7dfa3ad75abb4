-- ===== src/Binding.antt =====
-- eyle/core/memory.py: the task that a session is bound to. `repr` stands for `str` of a value that is no text;
-- the storage is the graph, if there is one.
use mathlib.Core.Path.{refl}
use Prim.Native.Char.{Char, code}
use Prim.Native.String.{String, [] as empty, ◌∷◌ as ◌▸◌}
use eyle.Base.Dict.{Dict, get}
use eyle.Base.Text.{strip}
use eyle.Base.Table.{find}
use eyle.Value.{Value, Fields, null, obj, lookup, has_key, keys_within}
use eyle.Memory.{
  Node, Task, TaskState, active, blocked, resolved, cancelled, Graph, Try, done, raised, ◌>>=◌,
  demand, the,
}
use eyle.Memory.Clean.{text_of}
use eyle.Memory.Tables.{has_node_id, has_task_id, node_row}
use eyle.Base.{
  Option, none, some, List, [], ◌∷◌, Bool, true, false, not, ◌&&◌, if◌then◌else◌, str_eq, ◌==◌,
  is_none,
}
pub mod Bound
mod Tests

-- The reply: nothing asked, an error, no task any more, or a task; with `changed`.
pub data Reply : Type 0 where
  unasked : Reply
  rejected : String → Reply
  unbound : Bool → Reply
  bound : String → Bool → Reply

-- What follows an "@".
unfoldable pub alias_of : String → Option String
alias_of empty = none
alias_of (c ▸ s) = if code c == b'@' then some s else none

-- `_resolve_ref`
unfoldable pub resolve_ref : Dict String → String → Try String
unfolding alias_of strip get
resolve_ref aliases ref = elim (alias_of (strip ref)) [
  | none ↦ done (strip ref)
  | some key ↦ the (get key aliases) "MEMORY_ALIAS_UNKNOWN"
]

unfoldable pub is_open : TaskState → Bool
is_open active = true
is_open blocked = true
is_open _ = false

-- The task of a record whose kind and domain are "task".
unfoldable pub task_record : Node → Graph → Option Task
task_record n g =
    if str_eq n.kind "task" && str_eq n.domain "task" then find (has_task_id n.id) g.tasks else none

-- The id that a binding to this reference gives.
unfoldable pub target : Dict String → Option Graph → String → Try String
unfolding resolve_ref node_row task_record is_open
target aliases storage ref = do
  _ ← demand (not (str_eq ref "")) "TASK_BINDING_INVALID"
  id ← resolve_ref aliases ref
  g ← the storage "MEMORY_CONTEXT_UNAVAILABLE"
  n ← node_row id g
  t ← the (task_record n g) "TASK_BINDING_TARGET_INVALID"
  _ ← demand (is_open t.state) "TASK_BINDING_TARGET_TERMINAL"
  done id

unfoldable pub is_bound_to : String → Option String → Bool
is_bound_to id none = false
is_bound_to id (some previous) = str_eq previous id

-- The session's `active_task_id` after the reply.
unfoldable pub bind_to : Option String → Try String → Reply × Option String
unfolding is_bound_to
bind_to session (raised code) = (rejected code, session)
bind_to session (done id) = (bound id (not (is_bound_to id session)), some id)

unfoldable pub rejection : Option String → Reply × Option String
rejection session = (rejected "TASK_BINDING_INVALID", session)

-- The actions "unbind" and "bind".
unfoldable pub unbind : Fields → Option String → Reply × Option String
unfolding keys_within rejection
unbind d session =
    if keys_within ("action" ∷ []) d
    then (unbound (not (is_none session)), none)
    else rejection session

module _ (repr : Value → String) (aliases : Dict String) (storage : Option Graph) where
  unfoldable pub bind : Fields → Option String → Reply × Option String
  unfolding keys_within has_key lookup text_of strip target bind_to rejection
  bind d session =
      if keys_within ("action" ∷ "ref" ∷ []) d && has_key "ref" d
      then bind_to session (target aliases storage (strip (text_of repr (lookup "ref" d))))
      else rejection session

  unfoldable pub act : Fields → Option String → Reply × Option String
  unfolding text_of strip lookup unbind bind rejection
  act d session =
      let action = strip (text_of repr (lookup "action" d)) in
      if str_eq action "unbind"
      then unbind d session
      else if str_eq action "bind"
      then bind d session
      else rejection session

  unfoldable pub apply_task_binding : Option Value → Option String → Reply × Option String
  unfolding act rejection
  apply_task_binding none session = (unasked, session)
  apply_task_binding (some null) session = (unasked, session)
  apply_task_binding (some (obj d)) session = act d session
  apply_task_binding (some v) session = rejection session
