-- ===== src/Binding/Tests.antt =====
-- eyle/core/memory.py: bindings on a concrete graph.
use mathlib.Core.Path.{refl}
use eyle.Base.Dict.{member}
use eyle.Value.{Fields, obj, text, end, field}
use eyle.Memory.{current, blocked, Node, Task, Graph, ◌>>=◌, demand, the}
use eyle.Memory.Ops.{is_current, is_over, is_terminal}
use eyle.Memory.Lookup.{node_of, task_of}
use eyle.Memory.Sound.{Sound, Fits, Timed}
use eyle.Binding.{apply_task_binding, bound, rejected}
use eyle.Binding.Bound.{Agrees, apply_task_binding-Agrees, apply_task_binding-current}
use eyle.Base.{none, some, [], ◌∷◌, ◌≡◌, true}

abbrev work : Node
work = record {
  id = "mem-1";
  scope = "s";
  domain = "task";
  context_key = some "mem-1";
  kind = "task";
  content = "c";
  retention = "persistent";
  epistemic = end;
  recall = record { aliases = []; concepts = []; cues = [] };
  last_evidenced_at = none;
  status = current;
  revision = 1;
  created_at = 1;
  updated_at = 1;
}

abbrev stuck : Task
stuck = record {
  task_id = "mem-1";
  state = blocked;
  state_revision = 2;
  created_execution_id = none;
  last_execution_id = none;
  created_at = 1;
  updated_at = 1;
  resolved_at = none;
}

abbrev graph : Graph
graph = record {
  nodes = work ∷ [];
  tags = [];
  edges = [];
  anchors = [];
  changesets = [];
  events = [];
  tasks = stuck ∷ [];
}

abbrev bind_new : Fields
bind_new = field "action" (text "bind") (field "ref" (text "@new") end)

bind_alias :
    apply_task_binding (λ v. "") (("new", "mem-1") ∷ []) (some graph) (some (obj bind_new)) none
    ≡ (bound "mem-1" true, some "mem-1")
unfolding apply_task_binding ◌>>=◌ demand the member
bind_alias = refl

bind_unknown :
    apply_task_binding (λ v. "") [] (some graph) (some (obj bind_new)) none
    ≡ (rejected "MEMORY_ALIAS_UNKNOWN", none)
unfolding apply_task_binding ◌>>=◌ demand the member
bind_unknown = refl

bound_reply :
    (apply_task_binding (λ v. "") (("new", "mem-1") ∷ []) (some graph) (some (obj bind_new)) none).0
    ≡ bound "mem-1" true
unfolding apply_task_binding ◌>>=◌ demand the member
bound_reply = refl

graph-Sound : Sound (node_of "mem-1" graph) (task_of "mem-1" graph)
unfolding Fits Timed is_over is_terminal is_current
graph-Sound = ((refl, refl), refl)

apply_task_binding-Agrees_example : Agrees (some graph) none (bound "mem-1" true) (some "mem-1")
unfolding apply_task_binding ◌>>=◌ demand the member
apply_task_binding-Agrees_example =
    apply_task_binding-Agrees (λ v. "") (("new", "mem-1") ∷ []) (some graph) (some (obj bind_new))
      none

apply_task_binding-current_example :
    (n : Node) × (node_of "mem-1" graph ≡ some n) × (is_current n.status ≡ true)
apply_task_binding-current_example =
    apply_task_binding-current (λ v. "") (("new", "mem-1") ∷ []) graph (some (obj bind_new)) none
      "mem-1" true bound_reply graph-Sound
