-- ===== src/Memory/Linked.antt =====
-- eyle/runtime/memory_graph.py: `apply_graph_operations`, by what it does to the relations.
use mathlib.Core.Path.{refl}
use Prim.Native.String.{String}
use eyle.Value.{Fields, Items}
use eyle.Memory.{Node, Task, Edge, Graph, Try, done, raised}
use eyle.Memory.Anchors.{Work}
use eyle.Memory.Ops.{Delta}
use eyle.Memory.Changes.{
  apply_one, apply_all, apply_ops, apply_graph_operations, ops_of, open_changeset, committed,
}
use eyle.Memory.Holds.{
  Holds, Holds-if, Holds-after, Holds-both, Holds-map, Holds-done, Holds-raised,
}
use eyle.Memory.Lookup.{
  Step, kept, created, created_task, revised, became_task, closed, moved, Moves,
}
use eyle.Memory.Life.{apply_one-Moves}
use eyle.Memory.NodeTies.{
  create_node-Ties, update_node-Ties, archive_node-Ties, supersede_node-Ties, set_task_status-Ties,
}
use eyle.Memory.LinkTies.{create_edge-Ties, update_edge-Ties, retire_edge-Ties}
use eyle.Memory.Ties.{Ties, Tie, same_edge, tied, rewritten, HasEnds, edge_of}
use eyle.Base.{Option, none, some, List, [], ◌∷◌, ℕ, ◌≡◌, true, not, is_none}

pub apply_one-Ties :
    (d : Delta) (op : Fields) (w : Work)
    → Holds (λ (v : Work). Ties w.graph v.graph) (apply_one d op w)
unfolding apply_one
apply_one-Ties d op w =
    let end : Work → Type 0 = λ v. Ties w.graph v.graph in
    Holds-if end _ _ _ (create_node-Ties d op w) (
      Holds-if end _ _ _ (update_node-Ties d op w) (
        Holds-if end _ _ _ (archive_node-Ties d op w) (
          Holds-if end _ _ _ (supersede_node-Ties d op w) (
            Holds-if end _ _ _ (set_task_status-Ties d op w) (
              Holds-if end _ _ _ (create_edge-Ties d op w) (
                Holds-if end _ _ _ (update_edge-Ties d op w)
                  (Holds-if end _ _ _ (retire_edge-Ties d op w) (Holds-raised end _))))))))

-- A node that is there stays there.
step_exists :
    (o p : Option Node) (u v : Option Task)
    → Step o u p v
    → not (is_none o) ≡ true
    → not (is_none p) ≡ true
step_exists o p u v kept h = h
step_exists o p u v (created n a b c) h = refl
step_exists o p u v (created_task n t a b c f) h = refl
step_exists o p u v (revised n m a b c f) h = refl
step_exists o p u v (became_task n m t a b c f i) h = refl
step_exists o p u v (closed n m a b c f i) h = refl
step_exists o p u v (moved t s a b c f) h = refl

Moves-HasEnds : (e : Edge) (g h : Graph) → Moves g h → HasEnds e g.nodes → HasEnds e h.nodes
Moves-HasEnds e g h moves (source, target) =
    (step_exists _ _ _ _ (moves e.source) source, step_exists _ _ _ _ (moves e.target) target)

-- The relation, if there is one, has both ends.
unfoldable pub Anchored : Option Edge → List Node → Type 0
Anchored none nodes = Unit
Anchored (some e) nodes = HasEnds e nodes

Moves-Anchored :
    (o : Option Edge) (g h : Graph) → Moves g h → Anchored o g.nodes → Anchored o h.nodes
unfolding Anchored
Moves-Anchored none g h moves a = tt
Moves-Anchored (some e) g h moves a = Moves-HasEnds e g h moves a

Tie-Anchored :
    (o p : Option Edge) (h : Graph) → Tie h.nodes o p → Anchored o h.nodes → Anchored p h.nodes
unfolding Anchored
Tie-Anchored o p h same_edge a = a
Tie-Anchored o p h (tied e b c ends) a = ends
Tie-Anchored o p h (rewritten e f b c (source, target)) a = rw (source, target) a

module _ (id : String) where
  abbrev Keeps : Graph → Graph → Type 0
  Keeps g h = Anchored (edge_of id g) g.nodes → Anchored (edge_of id h) h.nodes

  apply_all-Keeps :
      (d : Delta) (ops : List Fields) (w : Work)
      → Holds (λ (v : Work). Keeps w.graph v.graph) (apply_all d ops w)
  unfolding apply_all
  apply_all-Keeps d [] w = Holds-done (λ (v : Work). Keeps w.graph v.graph) w (λ a. a)
  apply_all-Keeps d (op ∷ ops) w =
      Holds-after (λ (v : Work). Moves w.graph v.graph × Ties w.graph v.graph)
        (λ (v : Work). Keeps w.graph v.graph) _ _
        (Holds-both (λ (v : Work). Moves w.graph v.graph) (λ (v : Work). Ties w.graph v.graph) _
          (apply_one-Moves d op w) (apply_one-Ties d op w))
        λ v (moves, ties).
          let step : Keeps w.graph v.graph = λ a.
            Tie-Anchored (edge_of id w.graph) (edge_of id v.graph) v.graph (ties id)
              (Moves-Anchored (edge_of id w.graph) w.graph v.graph moves a) in
          Holds-map (λ (u : Work). Keeps v.graph u.graph) (λ (u : Work). Keeps w.graph u.graph) _
            (λ u later a. later (step a)) (apply_all-Keeps d ops v)

  committed-Keeps :
      (g : Graph) (r : Try Work)
      → Holds (λ (v : Work). Keeps g v.graph) r
      → Keeps g (committed g r).1
  unfolding committed Holds
  committed-Keeps g (raised code) h = λ a. a
  committed-Keeps g (done w) h = h

  apply_ops-Keeps :
      (d : Delta) (turn : Option ℕ) (ops : List Fields) (g : Graph)
      → Keeps g (apply_ops d turn ops g).1
  unfolding apply_ops open_changeset
  apply_ops-Keeps d turn [] g = λ a. a
  apply_ops-Keeps d turn (op ∷ ops) g =
      let start : Work = record { graph = open_changeset d turn g; drawn = 0; affected = [] } in
      committed-Keeps g (apply_all d (op ∷ ops) start) (apply_all-Keeps d (op ∷ ops) start)

-- If the relation of an id, where there is one, goes from a node to a node, then so it does after a delta.
pub apply_graph_operations-Anchored :
    (d : Delta) (turn : Option ℕ) (operations : Items) (g : Graph) (id : String)
    → Anchored (edge_of id g) g.nodes
    → Anchored
        (edge_of id (apply_graph_operations d turn operations g).1)
        (apply_graph_operations d turn operations g).1.nodes
unfolding apply_graph_operations
apply_graph_operations-Anchored d turn operations g id =
    apply_ops-Keeps id d turn (ops_of operations) g
