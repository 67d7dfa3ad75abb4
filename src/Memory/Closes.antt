-- ===== src/Memory/Closes.antt =====
-- eyle/runtime/memory_graph.py: archive_node, supersede_node and set_task_status, by what they do to the
-- nodes and the tasks.
use mathlib.Core.Path.{refl}
use Prim.Native.String.{String}
use eyle.Base.Keyed.{find_here, find_elsewhere}
use eyle.Value.{Fields}
use eyle.Memory.{NodeStatus, archived, superseded, Node, Task, TaskState, Graph}
use eyle.Memory.Tables.{set_node, set_task, node_row, task_row, log_event}
use eyle.Memory.Anchors.{Work}
use eyle.Memory.Ops.{Delta, noted, reported, is_current, is_terminal, is_over, same_state}
use eyle.Memory.CloseOps.{closed_row, close, archive_node, supersede_node}
use eyle.Memory.TaskOps.{in_state, set_task_status}
use eyle.Memory.Holds.{Holds, Holds-bind, Holds-after, Holds-demand, Holds-the, Holds-done}
use eyle.Memory.Lookup.{
  node_id, task_key, SameCore, node_of, task_of, Moves, only-Moves, SameCore-Moves, closed, moved,
  is_task,
}
use eyle.Memory.Kept.{insert_edge-SameCore}
use eyle.Base.{
  not, is_none, ◌&&◌, arith, none, some, Bool, ◌≡◌, true, false, inl, inr, if◌then◌else◌,
  Bool-cases,
}

-- A row that may be closed.
abbrev pub MayClose : String → Graph → Node → Type 0
MayClose id g row =
    (node_of id g ≡ some row) × (is_current row.status ≡ true) × (is_over (task_of id g) ≡ true)

-- The time of the end is there exactly at an end.
ends_at : {A : Type 0} (b : Bool) (a : A) → is_none (if b then some a else none) ≡ not b
ends_at true a = refl
ends_at false a = refl

module _ (d : Delta) (op : Fields) where
  pub closed_row-MayClose :
      (id : String) (w : Work) → Holds (MayClose id w.graph) (closed_row d op id w)
  unfolding closed_row node_row
  closed_row-MayClose id w = Holds-the (MayClose id w.graph) (node_of id w.graph) _ _ λ row there.
      Holds-bind (MayClose id w.graph) _ _ λ _ _.
        Holds-demand (MayClose id w.graph) (is_current row.status) _ _ λ is_open.
          Holds-demand (MayClose id w.graph) (is_over (task_of id w.graph)) _ _
            λ over. Holds-done (MayClose id w.graph) _ (there, is_open, over)

  closing-Moves :
      (id : String) (status : NodeStatus) (row : Node) (g k : Graph)
      → is_current status ≡ false
      → MayClose id g row
      → SameCore (set_node id (close d op status) g) k
      → Moves g k
  unfolding set_node close
  closing-Moves id status row g k ended (there, is_open, over) (nodes, tasks) =
      let shut : Node → Node = close d op status in
      let here : node_of id k ≡ some (shut row) =
        rw nodes (find_here node_id id shut g.nodes row (λ r e. e) there) in
      only-Moves id g k
        (rw (there, here, tasks) (closed row (shut row) is_open ended refl (refl, refl) over))
        (λ i e. (rw nodes (find_elsewhere node_id id i shut g.nodes (λ r e. e) e), rw tasks refl))

  pub archive_node-Moves :
      (w : Work) → Holds (λ (v : Work). Moves w.graph v.graph) (archive_node d op w)
  unfolding archive_node reported noted log_event is_current
  archive_node-Moves w =
      let end : Work → Type 0 = λ v. Moves w.graph v.graph in
      Holds-bind end _ _ λ id _.
        Holds-after (MayClose id w.graph) end _ _ (closed_row-MayClose id w) λ row may.
          let shut : Graph = set_node id (close d op archived) w.graph in
          Holds-done end _ (closing-Moves id archived row w.graph shut refl may (refl, refl))

  pub supersede_node-Moves :
      (w : Work) → Holds (λ (v : Work). Moves w.graph v.graph) (supersede_node d op w)
  unfolding supersede_node reported noted log_event is_current
  supersede_node-Moves w =
      let end : Work → Type 0 = λ v. Moves w.graph v.graph in
      Holds-bind end _ _ λ id _.
        Holds-after (MayClose id w.graph) end _ _ (closed_row-MayClose id w) λ row may.
          Holds-bind end _ _ λ replacement _. Holds-bind end _ _ λ _ _.
            let shut : Graph = set_node id (close d op superseded) w.graph in
            Holds-after (SameCore shut) end _ _ (insert_edge-SameCore _ shut)
              λ g same. Holds-done end _ (closing-Moves id superseded row w.graph g refl may same)

  moving-Moves :
      (id : String) (state : TaskState) (row : Node) (t : Task) (g k : Graph)
      → node_of id g ≡ some row
      → task_of id g ≡ some t
      → is_current row.status ≡ true
      → same_state t.state state ≡ false
      → SameCore (set_task id (in_state d op state) g) k
      → Moves g k
  unfolding set_task in_state
  moving-Moves id state row t g k there task_there is_open differs (nodes, tasks) =
      let change : Task → Task = in_state d op state in
      let here : task_of id k ≡ some (change t) =
        rw tasks (find_here task_key id change g.tasks t (λ r e. e) task_there) in
      only-Moves id g k
        (rw (there, task_there, here, nodes, there)
          (moved t (change t) is_open differs refl (ends_at (is_terminal state) d.now)))
        (λ i e.
          (rw nodes refl, rw tasks (find_elsewhere task_key id i change g.tasks (λ r e. e) e)))

  pub set_task_status-Moves :
      (w : Work) → Holds (λ (v : Work). Moves w.graph v.graph) (set_task_status d op w)
  unfolding set_task_status reported noted log_event node_row task_row
  set_task_status-Moves w =
      let end : Work → Type 0 = λ v. Moves w.graph v.graph in
      Holds-bind end _ _ λ id _. Holds-the end (node_of id w.graph) _ _ λ row there.
        Holds-demand end (is_current row.status && is_task row) _ _ λ is_open.
          Holds-the end (task_of id w.graph) _ _ λ t task_there. Holds-demand end _ _ _ λ _.
            Holds-bind end _ _ λ state _.
              let next : Graph = set_task id (in_state d op state) w.graph in
              let still : is_current row.status ≡ true = ground arith in
              Holds-done end _ (elim (Bool-cases (same_state t.state state)) [
                | inl e ↦ rw e (SameCore-Moves w.graph w.graph (refl, refl))
                | inr e ↦
                    rw e (
                      moving-Moves id state row t w.graph next there task_there still e
                        (refl, refl))
              ])
