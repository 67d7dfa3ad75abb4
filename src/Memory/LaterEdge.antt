-- ===== src/Memory/LaterEdge.antt =====
-- eyle/runtime/memory_graph.py: what a delta can do to a relation that is there.
use mathlib.Core.Path.{refl}
use mathlib.Core.Option.{some-injective, none-ne-some}
use Prim.Native.String.{String}
use eyle.Value.{Fields, Items}
use eyle.Memory.{Edge, Node, Graph, Try, done, raised}
use eyle.Memory.Anchors.{Work}
use eyle.Memory.Ops.{Delta}
use eyle.Memory.LinkOps.{is_linked}
use eyle.Memory.Changes.{
  apply_all, apply_ops, apply_graph_operations, ops_of, open_changeset, committed,
}
use eyle.Memory.Holds.{Holds, Holds-after, Holds-map, Holds-done}
use eyle.Memory.Linked.{apply_one-Ties}
use eyle.Memory.Ties.{Ties, Tie, same_edge, tied, rewritten, edge_of}
use eyle.Base.{Option, some, List, [], ◌∷◌, ℕ, ◌≡◌, true, ◌<◌, ◌⊎◌, inl, inr, ◌∙◌, subst, arith}

-- The same relation, or one that was linked, with its ends and a later revision.
abbrev Later : Edge → Edge → Type 0
Later e f =
    (f ≡ e)
    ⊎ ((is_linked e.status ≡ true)
        × (e.revision < f.revision)
        × (f.source ≡ e.source)
        × (f.target ≡ e.target))

abbrev pub LaterEdge : Edge → Option Edge → Type 0
LaterEdge e p = (f : Edge) × (p ≡ some f) × Later e f

EdgeGuarded : Option Edge → Option Edge → Type 0
EdgeGuarded o p = (e : Edge) → o ≡ some e → LaterEdge e p

Later-trans : (e f k : Edge) → Later e f → Later f k → Later e k
Later-trans e f k (inl a) (inl b) = inl (b ∙ a)
Later-trans e f k (inl a) (inr b) = subst (λ x. Later x k) a (inr b)
Later-trans e f k (inr (linked, less, source, target)) (inl b) =
    inr (linked, rw b less, rw b source, rw b target)
Later-trans e f k (inr (linked, less, source, target)) (inr (_, more, source', target')) =
    inr (linked, omega arith, source' ∙ source, target' ∙ target)

tie_guarded : (nodes : List Node) (o p : Option Edge) → Tie nodes o p → EdgeGuarded o p
unfolding EdgeGuarded
tie_guarded nodes o p same_edge e there = (e, there, inl refl)
tie_guarded nodes o p (tied k a b c) e there = absurd (none-ne-some e there)
tie_guarded nodes o p (rewritten k f linked revision ends) e there =
    subst (λ x. LaterEdge x (some f)) (some-injective k e there)
      (f, refl, inr (linked, omega arith, ends.0, ends.1))

guarded_trans : (o p q : Option Edge) → EdgeGuarded o p → EdgeGuarded p q → EdgeGuarded o q
unfolding EdgeGuarded
guarded_trans o p q first second e there =
    let (f, there', later) = first e there in
    let (k, there'', later') = second f there' in (k, there'', Later-trans e f k later later')

module _ (id : String) where
  abbrev Guards : Graph → Graph → Type 0
  Guards g h = EdgeGuarded (edge_of id g) (edge_of id h)

  same-Guards : (g : Graph) → Guards g g
  unfolding EdgeGuarded
  same-Guards g e there = (e, there, inl refl)

  apply_all-Guards :
      (d : Delta) (ops : List Fields) (w : Work)
      → Holds (λ (v : Work). Guards w.graph v.graph) (apply_all d ops w)
  unfolding apply_all
  apply_all-Guards d [] w =
      Holds-done (λ (v : Work). Guards w.graph v.graph) w (same-Guards w.graph)
  apply_all-Guards d (op ∷ ops) w =
      Holds-after (λ (v : Work). Ties w.graph v.graph) (λ (v : Work). Guards w.graph v.graph) _ _
        (apply_one-Ties d op w)
        λ v ties.
          Holds-map (λ (u : Work). Guards v.graph u.graph) (λ (u : Work). Guards w.graph u.graph) _
            (λ u.
              guarded_trans (edge_of id w.graph) (edge_of id v.graph) (edge_of id u.graph)
                (tie_guarded v.graph.nodes (edge_of id w.graph) (edge_of id v.graph) (ties id)))
            (apply_all-Guards d ops v)

  committed-Guards :
      (g : Graph) (r : Try Work)
      → Holds (λ (v : Work). Guards g v.graph) r
      → Guards g (committed g r).1
  unfolding committed Holds
  committed-Guards g (raised code) h = same-Guards g
  committed-Guards g (done w) h = h

  apply_ops-Guards :
      (d : Delta) (turn : Option ℕ) (ops : List Fields) (g : Graph)
      → Guards g (apply_ops d turn ops g).1
  unfolding apply_ops open_changeset
  apply_ops-Guards d turn [] g = same-Guards g
  apply_ops-Guards d turn (op ∷ ops) g =
      let start : Work = record { graph = open_changeset d turn g; drawn = 0; affected = [] } in
      committed-Guards g (apply_all d (op ∷ ops) start) (apply_all-Guards d (op ∷ ops) start)

-- A delta deletes no relation; it leaves it as it is, or it was linked, and has a later revision and the same
-- ends. So one that is retired stays as it is.
pub apply_graph_operations-LaterEdge :
    (d : Delta) (turn : Option ℕ) (operations : Items) (g : Graph) (id : String) (e : Edge)
    → edge_of id g ≡ some e
    → LaterEdge e (edge_of id (apply_graph_operations d turn operations g).1)
unfolding apply_graph_operations EdgeGuarded
apply_graph_operations-LaterEdge d turn operations g id e there =
    apply_ops-Guards id d turn (ops_of operations) g e there
