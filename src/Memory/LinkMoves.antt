-- ===== src/Memory/LinkMoves.antt =====
-- eyle/runtime/memory_graph.py: the operations on relations keep the nodes and the tasks.
use mathlib.Core.Path.{refl}
use Prim.Native.String.{String}
use eyle.Value.{Fields}
use eyle.Memory.{edge, Graph}
use eyle.Memory.Tables.{set_edge, log_event}
use eyle.Memory.Anchors.{Work}
use eyle.Memory.Ops.{Delta, op_text, id_or_new, noted, reported}
use eyle.Memory.LinkOps.{create_edge, update_edge, retire_edge, relabel}
use eyle.Memory.Holds.{Holds, Holds-bind, Holds-after, Holds-demand, Holds-done}
use eyle.Memory.Lookup.{SameCore, Moves, SameCore-Moves}
use eyle.Memory.Kept.{insert_edge-SameCore, SameCore-trans, core, op_anchors-SameWork, SameWork}
use eyle.Memory.Creates.{id_or_new-graph}
use eyle.Base.Text.{strip}
use eyle.Base.{if◌then◌else◌, str_eq, subst, ◌+◌}

module _ (d : Delta) (op : Fields) where
  pub create_edge-Moves :
      (w : Work) → Holds (λ (v : Work). Moves w.graph v.graph) (create_edge d op w)
  unfolding create_edge reported noted log_event
  create_edge-Moves w =
      let id : String = (id_or_new d op "rel-" w).0 in
      let start : Graph = (id_or_new d op "rel-" w).1.graph in
      let end : Work → Type 0 = λ v. Moves w.graph v.graph in
      Holds-bind end _ _ λ e _. Holds-bind end _ _ λ _ _. Holds-bind end _ _ λ _ _.
        Holds-after (SameCore start) end _ _ (insert_edge-SameCore e start) λ g same.
          let linked : Work = record (id_or_new d op "rel-" w).1 { graph = g } in
          Holds-after (SameWork linked) end _ _ (op_anchors-SameWork d op edge id 1 linked)
            λ v kept. Holds-done end _ (
              subst (λ (s : Graph). Moves s v.graph) (id_or_new-graph d op "rel-" w)
                (SameCore-Moves start v.graph
                  (SameCore-trans start g v.graph same (core g v.graph kept))))

  pub update_edge-Moves :
      (w : Work) → Holds (λ (v : Work). Moves w.graph v.graph) (update_edge d op w)
  unfolding update_edge reported noted log_event set_edge
  update_edge-Moves w =
      let end : Work → Type 0 = λ v. Moves w.graph v.graph in
      Holds-bind end _ _ λ id _. Holds-bind end _ _ λ row _. Holds-demand end _ _ _ λ _.
        Holds-bind end _ _ λ epistemic _.
          let given : String = strip (op_text d op "label") in
          let label : String = if str_eq given "" then row.label else given in
          let next : Work = record w {
            graph = set_edge id (relabel d op label epistemic) w.graph;
          } in
          Holds-after (SameWork next) end _ _
            (op_anchors-SameWork d op edge id (row.revision + 1) next)
            λ v same. Holds-done end _ (SameCore-Moves w.graph v.graph (same.0, same.1))

  pub retire_edge-Moves :
      (w : Work) → Holds (λ (v : Work). Moves w.graph v.graph) (retire_edge d op w)
  unfolding retire_edge reported noted log_event set_edge
  retire_edge-Moves w =
      let end : Work → Type 0 = λ v. Moves w.graph v.graph in
      Holds-bind end _ _ λ id _.
        Holds-bind end _ _ λ row _. Holds-done end _ (SameCore-Moves w.graph w.graph (refl, refl))
