-- ===== src/Memory/NodeTies.antt =====
-- eyle/runtime/memory_graph.py: what the operations on nodes and tasks do to the relations.
use mathlib.Core.Path.{refl}
use Prim.Native.String.{String, ◌++◌ as ◌<>◌}
use eyle.Base.Keyed.{find_here}
use eyle.Value.{Fields}
use eyle.Memory.{superseded, archived, node, Node, Edge, Task, Graph}
use eyle.Memory.Tables.{
  set_node, set_task, node_row, insert_node, insert_task, insert_tags, delete_tags, log_event,
}
use eyle.Memory.Anchors.{Work}
use eyle.Memory.Ops.{Delta, id_or_new, noted, reported, begin_task, begin_if, same_state}
use eyle.Memory.NodeOps.{create_node, update_node}
use eyle.Memory.CloseOps.{close, succession, archive_node, supersede_node}
use eyle.Memory.TaskOps.{set_task_status}
use eyle.Memory.LinkOps.{is_linked}
use eyle.Memory.Holds.{Holds, Holds-bind, Holds-after, Holds-demand, Holds-the, Holds-done}
use eyle.Memory.Lookup.{node_id, node_of}
use eyle.Memory.Kept.{
  SameRows, insert_new_tags-SameRows, insert_tags-SameRows, delete_tags-SameRows,
  op_anchors-SameWork, SameWork,
}
use eyle.Memory.Creates.{id_or_new-graph}
use eyle.Memory.Closes.{MayClose, closed_row-MayClose}
use eyle.Memory.Ties.{Ties, same_edges-Ties, inserted-Ties, insert_edge-EdgeInserted, EdgeInserted}
use eyle.Base.{Bool, Bool-cases, inl, inr, ◌≡◌, true, false, ◌∙◌, ap, some}

abbrev SameEdges : Graph → Graph → Type 0
SameEdges g h = h.edges ≡ g.edges

insert_node-SameEdges : (n : Node) (g : Graph) → Holds (SameEdges g) (insert_node n g)
unfolding insert_node
insert_node-SameEdges n g =
    Holds-demand (SameEdges g) _ _ _ λ absent. Holds-done (SameEdges g) _ refl

insert_task-SameEdges : (t : Task) (g : Graph) → Holds (SameEdges g) (insert_task t g)
unfolding insert_task
insert_task-SameEdges t g =
    Holds-demand (SameEdges g) _ _ _ λ absent. Holds-done (SameEdges g) _ refl

module _ (d : Delta) (op : Fields) where
  begin_if-SameEdges :
      (b : Bool) (id : String) (w : Work)
      → Holds (λ (v : Work). SameEdges w.graph v.graph) (begin_if d op b id w)
  unfolding begin_if begin_task noted log_event
  begin_if-SameEdges true id w =
      Holds-after (SameEdges w.graph) (λ (v : Work). SameEdges w.graph v.graph) _ _
        (insert_task-SameEdges _ w.graph)
        λ g same. Holds-done (λ (v : Work). SameEdges w.graph v.graph) _ same
  begin_if-SameEdges false id w = Holds-done (λ (v : Work). SameEdges w.graph v.graph) w refl

  pub create_node-Ties :
      (w : Work) → Holds (λ (v : Work). Ties w.graph v.graph) (create_node d op w)
  unfolding create_node reported noted log_event
  create_node-Ties w =
      let id : String = (id_or_new d op "mem-" w).0 in
      let start : Graph = (id_or_new d op "mem-" w).1.graph in
      let end : Work → Type 0 = λ v. Ties w.graph v.graph in
      Holds-bind end _ _ λ (n, tags) new.
        Holds-after (SameEdges start) end _ _ (insert_node-SameEdges n start) λ g inserted.
          Holds-after (SameRows g) end _ _ (insert_new_tags-SameRows id tags g) λ g' tags_same.
            let tagged : Work = record (id_or_new d op "mem-" w).1 { graph = g' } in
            Holds-after (SameWork tagged) end _ _ (op_anchors-SameWork d op node id 1 tagged)
              λ anchored same.
                Holds-after (λ (v : Work). SameEdges anchored.graph v.graph) end _ _
                  (begin_if-SameEdges _ id anchored)
                  λ begun begins. Holds-done end _ (
                    same_edges-Ties w.graph begun.graph (
                      begins
                      ∙ same.2
                      ∙ tags_same.2
                      ∙ inserted
                      ∙ ap (λ (g : Graph). g.edges) (id_or_new-graph d op "mem-" w)))

  pub update_node-Ties :
      (w : Work) → Holds (λ (v : Work). Ties w.graph v.graph) (update_node d op w)
  unfolding update_node reported noted log_event set_node
  update_node-Ties w =
      let end : Work → Type 0 = λ v. Ties w.graph v.graph in
      Holds-bind end _ _ λ id _. Holds-bind end _ _ λ row _. Holds-bind end _ _ λ _ _.
        Holds-demand end _ _ _ λ _. Holds-bind end _ _ λ next _. Holds-bind end _ _ λ add _.
          Holds-bind end _ _ λ remove _.
            let written : Graph = set_node id (λ _. next) w.graph in
            let more : Graph = insert_tags id add written in
            let tagged : Work = record w { graph = delete_tags id remove more } in
            Holds-after (SameWork tagged) end _ _
              (op_anchors-SameWork d op node id next.revision tagged)
              λ anchored same.
                Holds-after (λ (v : Work). SameEdges anchored.graph v.graph) end _ _
                  (begin_if-SameEdges _ id anchored)
                  λ begun begins. Holds-done end _ (
                    same_edges-Ties w.graph begun.graph (
                      begins
                      ∙ same.2
                      ∙ (delete_tags-SameRows id remove more).2
                      ∙ (insert_tags-SameRows id add written).2))

  pub archive_node-Ties :
      (w : Work) → Holds (λ (v : Work). Ties w.graph v.graph) (archive_node d op w)
  unfolding archive_node reported noted log_event set_node
  archive_node-Ties w =
      let end : Work → Type 0 = λ v. Ties w.graph v.graph in
      Holds-bind end _ _ λ id _. Holds-bind end _ _ λ row _.
        let shut : Graph = set_node id (close d op archived) w.graph in
        Holds-done end _ (same_edges-Ties w.graph shut refl)

  pub set_task_status-Ties :
      (w : Work) → Holds (λ (v : Work). Ties w.graph v.graph) (set_task_status d op w)
  unfolding set_task_status reported noted log_event set_task
  set_task_status-Ties w =
      let end : Work → Type 0 = λ v. Ties w.graph v.graph in
      Holds-bind end _ _ λ id _. Holds-bind end _ _ λ row _. Holds-demand end _ _ _ λ _.
        Holds-bind end _ _ λ t _. Holds-demand end _ _ _ λ _. Holds-bind end _ _ λ state _.
          Holds-done end _ (elim (Bool-cases (same_state t.state state)) [
            | inl e ↦ rw e (same_edges-Ties w.graph w.graph refl)
            | inr e ↦ rw e (same_edges-Ties w.graph w.graph refl)
          ])

  pub supersede_node-Ties :
      (w : Work) → Holds (λ (v : Work). Ties w.graph v.graph) (supersede_node d op w)
  unfolding supersede_node reported noted log_event node_row set_node close succession is_linked
  supersede_node-Ties w =
      let end : Work → Type 0 = λ v. Ties w.graph v.graph in
      Holds-bind end _ _ λ id _.
        Holds-after (MayClose id w.graph) end _ _ (closed_row-MayClose d op id w) λ row may.
          Holds-bind end _ _ λ replacement _.
            let shut : Graph = set_node id (close d op superseded) w.graph in
            Holds-the end (node_of replacement shut) _ _ λ other there.
              let source : node_of id shut ≡ some (close d op superseded row) =
                find_here node_id id (close d op superseded) w.graph.nodes row (λ r e. e) may.0 in
              let new : Edge = succession d op ("rel-" <> d.fresh w.drawn) id replacement in
              Holds-after (EdgeInserted new shut) end _ _ (insert_edge-EdgeInserted new shut)
                λ g (absent, edges, nodes). Holds-done end _ (
                  inserted-Ties new w.graph g refl refl
                    (rw (nodes, source) refl, rw (nodes, there) refl) absent edges)
