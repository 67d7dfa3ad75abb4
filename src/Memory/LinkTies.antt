-- ===== src/Memory/LinkTies.antt =====
-- eyle/runtime/memory_graph.py: what the operations on relations do to them.
use mathlib.Core.Path.{refl}
use Prim.Native.String.{String}
use eyle.Base.Text.{strip}
use eyle.Value.{Fields}
use eyle.Memory.{edge, Edge, Graph}
use eyle.Memory.Tables.{set_edge, log_event, node_row, edge_row}
use eyle.Memory.Anchors.{Work}
use eyle.Memory.Ops.{Delta, op_text, id_or_new, noted, reported}
use eyle.Memory.LinkOps.{
  is_linked, new_edge, open_edge, relabel, retire, create_edge, update_edge, retire_edge,
}
use eyle.Memory.Holds.{Holds, Holds-bind, Holds-after, Holds-demand, Holds-the, Holds-done}
use eyle.Memory.Lookup.{node_of}
use eyle.Memory.Kept.{op_anchors-SameWork, SameWork}
use eyle.Memory.Creates.{id_or_new-graph}
use eyle.Memory.Ties.{
  Ties, inserted-Ties, updated-Ties, insert_edge-EdgeInserted, EdgeInserted, edge_of,
}
use eyle.Base.{◌≡◌, true, ◌+◌, some, ◌∙◌, subst, if◌then◌else◌, str_eq}

-- A relation that begins, and one that may be written.
abbrev IsTied : Edge → Type 0
IsTied e = (is_linked e.status ≡ true) × (e.revision ≡ 1)

abbrev MayWrite : String → Graph → Edge → Type 0
MayWrite id g e = (edge_of id g ≡ some e) × (is_linked e.status ≡ true)

module _ (d : Delta) (op : Fields) where
  new_edge-IsTied : (id : String) → Holds IsTied (new_edge d op id)
  unfolding new_edge is_linked
  new_edge-IsTied id = Holds-demand IsTied _ _ _ λ _. Holds-bind IsTied _ _ λ source _.
      Holds-bind IsTied _ _ λ target _.
        Holds-bind IsTied _ _
          λ label _. Holds-bind IsTied _ _ λ epistemic _. Holds-done IsTied _ (refl, refl)

  open_edge-MayWrite : (id : String) (w : Work) → Holds (MayWrite id w.graph) (open_edge d op id w)
  unfolding open_edge edge_row
  open_edge-MayWrite id w = Holds-the (MayWrite id w.graph) (edge_of id w.graph) _ _ λ row there.
      Holds-bind (MayWrite id w.graph) _ _ λ _ _.
        Holds-demand (MayWrite id w.graph) (is_linked row.status) _ _
          λ linked. Holds-done (MayWrite id w.graph) row (there, linked)

  pub create_edge-Ties :
      (w : Work) → Holds (λ (v : Work). Ties w.graph v.graph) (create_edge d op w)
  unfolding create_edge reported noted log_event node_row
  create_edge-Ties w =
      let id : String = (id_or_new d op "rel-" w).0 in
      let start : Graph = (id_or_new d op "rel-" w).1.graph in
      let end : Work → Type 0 = λ v. Ties w.graph v.graph in
      Holds-after IsTied end _ _ (new_edge-IsTied id) λ e (linked, first).
        Holds-the end (node_of e.source start) _ _ λ source source_there.
          Holds-the end (node_of e.target start) _ _ λ target target_there.
            Holds-after (EdgeInserted e start) end _ _ (insert_edge-EdgeInserted e start)
              λ g (absent, edges, nodes).
                let tied : Work = record (id_or_new d op "rel-" w).1 { graph = g } in
                Holds-after (SameWork tied) end _ _ (op_anchors-SameWork d op edge id 1 tied)
                  λ v same. Holds-done end _ (
                    subst (λ (s : Graph). Ties s v.graph) (id_or_new-graph d op "rel-" w)
                      (inserted-Ties e start v.graph linked first
                        (
                          rw (same.0, nodes, source_there) refl,
                          rw (same.0, nodes, target_there) refl,
                        )
                        absent (same.2 ∙ edges)))

  pub update_edge-Ties :
      (w : Work) → Holds (λ (v : Work). Ties w.graph v.graph) (update_edge d op w)
  unfolding update_edge reported noted log_event set_edge relabel
  update_edge-Ties w =
      let end : Work → Type 0 = λ v. Ties w.graph v.graph in
      Holds-bind end _ _ λ id _.
        Holds-after (MayWrite id w.graph) end _ _ (open_edge-MayWrite id w) λ row (there, linked).
          Holds-demand end _ _ _ λ _. Holds-bind end _ _ λ epistemic _.
            let given : String = strip (op_text d op "label") in
            let label : String = if str_eq given "" then row.label else given in
            let write : Edge → Edge = relabel d op label epistemic in
            let next : Work = record w { graph = set_edge id write w.graph } in
            Holds-after (SameWork next) end _ _
              (op_anchors-SameWork d op edge id (row.revision + 1) next)
              λ v same. Holds-done end _ (
                updated-Ties id write row w.graph v.graph (λ r. refl) there linked refl (refl, refl)
                  same.2)

  pub retire_edge-Ties :
      (w : Work) → Holds (λ (v : Work). Ties w.graph v.graph) (retire_edge d op w)
  unfolding retire_edge reported noted log_event set_edge retire
  retire_edge-Ties w =
      let end : Work → Type 0 = λ v. Ties w.graph v.graph in
      Holds-bind end _ _ λ id _.
        Holds-after (MayWrite id w.graph) end _ _ (open_edge-MayWrite id w) λ row (there, linked).
          let write : Edge → Edge = retire d op in
          let next : Graph = set_edge id write w.graph in
          Holds-done end _
            (updated-Ties id write row w.graph next (λ r. refl) there linked refl (refl, refl) refl)
