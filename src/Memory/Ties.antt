-- ===== src/Memory/Ties.antt =====
-- eyle/runtime/memory_graph.py: the relation of an id, and what one operation may do to it.
use mathlib.Core.Path.{refl}
use Prim.Native.String.{String}
use eyle.Base.Keyed.{find_new, find_others, find_here, find_elsewhere}
use eyle.Base.Table.{find, update}
use eyle.Memory.{Node, Edge, Graph}
use eyle.Memory.Tables.{has_node_id, has_edge_id, insert_edge}
use eyle.Memory.LinkOps.{is_linked}
use eyle.Memory.Holds.{Holds, Holds-demand, Holds-done}
use eyle.Memory.Begins.{is_none_sound}
use eyle.Base.{
  Option, none, some, List, [], ◌∷◌, ◌++◌, Bool, ◌≡◌, true, false, not, is_none, str_eq, ◌+◌, subst,
  Bool-cases, inl, inr, eq_iff, ◌∙◌,
}

abbrev pub edge_of : String → Graph → Option Edge
edge_of id g = find (has_edge_id id) g.edges

abbrev pub edge_key : Edge → String
edge_key e = e.id

abbrev pub exists : String → List Node → Bool
exists id nodes = not (is_none (find (has_node_id id) nodes))

-- Both ends of a relation are nodes.
abbrev pub HasEnds : Edge → List Node → Type 0
HasEnds e nodes = (exists e.source nodes ≡ true) × (exists e.target nodes ≡ true)

-- What one operation that leaves these nodes may do to a relation.
pub data Tie (nodes : List Node) : Option Edge → Option Edge → Type 0 where
  same_edge : {o : Option Edge} → Tie nodes o o
  tied :
      (e : Edge)
      → is_linked e.status ≡ true
      → e.revision ≡ 1
      → HasEnds e nodes
      → Tie nodes none (some e)
  rewritten :
      (e f : Edge)
      → is_linked e.status ≡ true
      → f.revision ≡ e.revision + 1
      → (f.source ≡ e.source) × (f.target ≡ e.target)
      → Tie nodes (some e) (some f)

abbrev pub Ties : Graph → Graph → Type 0
Ties g h = (i : String) → Tie h.nodes (edge_of i g) (edge_of i h)

pub same_edges-Ties : (g h : Graph) → h.edges ≡ g.edges → Ties g h
same_edges-Ties g h e i = rw e same_edge

-- A relation of one id changes, and the others stay.
only-Ties :
    (id : String) (g h : Graph)
    → Tie h.nodes (edge_of id g) (edge_of id h)
    → ((i : String) → str_eq id i ≡ false → edge_of i h ≡ edge_of i g)
    → Ties g h
only-Ties id g h here elsewhere i = elim (Bool-cases (str_eq id i)) [
  | inl e ↦ subst (λ j. Tie h.nodes (edge_of j g) (edge_of j h)) ((eq_iff id i).0 e) here
  | inr e ↦ rw (elsewhere i e) same_edge
]

-- What INSERT INTO memory_edges does, where the id is new.
abbrev pub EdgeInserted : Edge → Graph → Graph → Type 0
EdgeInserted e g h = (edge_of e.id g ≡ none) × (h.edges ≡ g.edges ++ e ∷ []) × (h.nodes ≡ g.nodes)

pub insert_edge-EdgeInserted : (e : Edge) (g : Graph) → Holds (EdgeInserted e g) (insert_edge e g)
unfolding insert_edge
insert_edge-EdgeInserted e g =
    Holds-demand (EdgeInserted e g) _ _ _
      λ absent. Holds-done (EdgeInserted e g) _ (is_none_sound _ absent, refl, refl)

pub inserted-Ties :
    (e : Edge) (g h : Graph)
    → is_linked e.status ≡ true
    → e.revision ≡ 1
    → HasEnds e h.nodes
    → edge_of e.id g ≡ none
    → h.edges ≡ g.edges ++ e ∷ []
    → Ties g h
inserted-Ties e g h linked first ends absent edges =
    let here : edge_of e.id h ≡ some e = rw edges (find_new edge_key e.id g.edges e refl absent) in
    only-Ties e.id g h (rw (absent, here) (tied e linked first ends))
      (λ i other. rw edges (find_others edge_key e.id i g.edges e refl other))

-- An UPDATE of the relation of an id, which keeps its id and its ends.
pub updated-Ties :
    (id : String) (f : Edge → Edge) (e : Edge) (g h : Graph)
    → ((r : Edge) → (f r).id ≡ r.id)
    → edge_of id g ≡ some e
    → is_linked e.status ≡ true
    → (f e).revision ≡ e.revision + 1
    → ((f e).source ≡ e.source) × ((f e).target ≡ e.target)
    → h.edges ≡ update (has_edge_id id) f g.edges
    → Ties g h
updated-Ties id f e g h keeps there linked revision ends edges =
    let here : edge_of id h ≡ some (f e) =
      rw edges (find_here edge_key id f g.edges e (λ r s. keeps r ∙ s) there) in
    only-Ties id g h (rw (there, here) (rewritten e (f e) linked revision ends))
      (λ i other. rw edges (find_elsewhere edge_key id i f g.edges (λ r s. keeps r ∙ s) other))
