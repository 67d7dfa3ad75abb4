-- ===== src/Memory/Life.antt =====
-- eyle/runtime/memory_graph.py: `apply_graph_operations`, as steps of each node and its task.
use Prim.Native.String.{String}
use eyle.Value.{Fields, Items}
use eyle.Memory.{Node, Task, Graph, Try, done, raised}
use eyle.Memory.Anchors.{Work}
use eyle.Memory.Ops.{Delta}
use eyle.Memory.Changes.{
  apply_one, apply_all, apply_ops, apply_graph_operations, ops_of, open_changeset, committed,
}
use eyle.Memory.Holds.{Holds, Holds-if, Holds-map, Holds-after, Holds-done, Holds-raised}
use eyle.Memory.Lookup.{node_of, task_of, Step, Moves}
use eyle.Memory.Creates.{create_node-Moves}
use eyle.Memory.Revises.{update_node-Moves}
use eyle.Memory.Closes.{archive_node-Moves, supersede_node-Moves, set_task_status-Moves}
use eyle.Memory.LinkMoves.{create_edge-Moves, update_edge-Moves, retire_edge-Moves}
use eyle.Base.{Option, List, [], ◌∷◌, ℕ}

-- Any number of steps.
pub data Life : Option Node → Option Task → Option Node → Option Task → Type 0 where
  rest : {o : Option Node} {u : Option Task} → Life o u o u
  after : {o p q : Option Node} {u v w : Option Task} → Step o u p v → Life p v q w → Life o u q w

abbrev Lives : Graph → Graph → Type 0
Lives g h = (i : String) → Life (node_of i g) (task_of i g) (node_of i h) (task_of i h)

pub apply_one-Moves :
    (d : Delta) (op : Fields) (w : Work)
    → Holds (λ (v : Work). Moves w.graph v.graph) (apply_one d op w)
unfolding apply_one
apply_one-Moves d op w =
    let end : Work → Type 0 = λ v. Moves w.graph v.graph in
    Holds-if end _ _ _ (create_node-Moves d op w) (
      Holds-if end _ _ _ (update_node-Moves d op w) (
        Holds-if end _ _ _ (archive_node-Moves d op w) (
          Holds-if end _ _ _ (supersede_node-Moves d op w) (
            Holds-if end _ _ _ (set_task_status-Moves d op w) (
              Holds-if end _ _ _ (create_edge-Moves d op w) (
                Holds-if end _ _ _ (update_edge-Moves d op w)
                  (Holds-if end _ _ _ (retire_edge-Moves d op w) (Holds-raised end _))))))))

apply_all-Lives :
    (d : Delta) (ops : List Fields) (w : Work)
    → Holds (λ (v : Work). Lives w.graph v.graph) (apply_all d ops w)
unfolding apply_all
apply_all-Lives d [] w = Holds-done (λ (v : Work). Lives w.graph v.graph) w (λ i. rest)
apply_all-Lives d (op ∷ ops) w =
    Holds-after (λ (v : Work). Moves w.graph v.graph) (λ (v : Work). Lives w.graph v.graph) _ _
      (apply_one-Moves d op w)
      λ v moves.
        Holds-map (λ (u : Work). Lives v.graph u.graph) (λ (u : Work). Lives w.graph u.graph) _
          (λ u lives i. after (moves i) (lives i)) (apply_all-Lives d ops v)

committed-Lives :
    (g : Graph) (r : Try Work) → Holds (λ (v : Work). Lives g v.graph) r → Lives g (committed g r).1
unfolding committed Holds
committed-Lives g (raised code) h = λ i. rest
committed-Lives g (done w) h = h

apply_ops-Lives :
    (d : Delta) (turn : Option ℕ) (ops : List Fields) (g : Graph)
    → Lives g (apply_ops d turn ops g).1
unfolding apply_ops open_changeset
apply_ops-Lives d turn [] g = λ i. rest
apply_ops-Lives d turn (op ∷ ops) g = committed-Lives g _ (apply_all-Lives d (op ∷ ops) _)

-- A delta takes each node, with its task, through steps of its life: it is created current and at revision
-- 1, revised while it is current, one revision a time, and closed once, with its content kept and its
-- task ended; a task begins active with its node or when the node becomes one, and moves between
-- states while the node is current.
pub apply_graph_operations-Life :
    (d : Delta) (turn : Option ℕ) (operations : Items) (g : Graph) (id : String)
    → Life
        (node_of id g)
        (task_of id g)
        (node_of id (apply_graph_operations d turn operations g).1)
        (task_of id (apply_graph_operations d turn operations g).1)
unfolding apply_graph_operations
apply_graph_operations-Life d turn operations g id = apply_ops-Lives d turn (ops_of operations) g id
