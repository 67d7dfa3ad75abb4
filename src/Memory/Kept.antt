-- ===== src/Memory/Kept.antt =====
-- eyle/runtime/memory_graph.py: the statements on tags, anchors and events keep the nodes and the tasks.
use mathlib.Core.Path.{refl}
use Prim.Native.String.{String}
use eyle.Value.{Value, Fields, Items, nil, cons, obj}
use eyle.Memory.{Graph, EntityType, Edge, Anchor}
use eyle.Memory.Tables.{
  insert_tags, insert_new_tags, delete_tags, insert_anchor, insert_edge, is_tag,
}
use eyle.Memory.Anchors.{Work, insert_one, insert_anchors}
use eyle.Memory.Ops.{Delta, op_anchors}
use eyle.Memory.Holds.{Holds, Holds-bind, Holds-map, Holds-after, Holds-demand, Holds-done}
use eyle.Memory.Lookup.{SameCore}
use eyle.Base.Table.{delete}
use eyle.Base.{◌++◌, List, [], ◌∷◌, ℕ, ◌∙◌, if◌then◌else◌, any, Bool, true, false, ◌≡◌}

-- The nodes, the tasks and the edges of two graphs are the same.
abbrev pub SameRows : Graph → Graph → Type 0
SameRows g h = (h.nodes ≡ g.nodes) × (h.tasks ≡ g.tasks) × (h.edges ≡ g.edges)

pub core : (g h : Graph) → SameRows g h → SameCore g h
core g h e = (e.0, e.1)

pub SameCore-trans : (g h k : Graph) → SameCore g h → SameCore h k → SameCore g k
SameCore-trans g h k a b = (b.0 ∙ a.0, b.1 ∙ a.1)

pub SameRows-trans : (g h k : Graph) → SameRows g h → SameRows h k → SameRows g k
SameRows-trans g h k a b = (b.0 ∙ a.0, b.1 ∙ a.1, b.2 ∙ a.2)

SameRows-if : (b : Bool) (g h : Graph) → SameRows g h → SameRows g (if b then g else h)
SameRows-if true g h e = (refl, refl, refl)
SameRows-if false g h e = e

pub insert_tags-SameRows :
    (id : String) (ts : List String) (g : Graph) → SameRows g (insert_tags id ts g)
unfolding insert_tags
insert_tags-SameRows id [] g = (refl, refl, refl)
insert_tags-SameRows id (t ∷ ts) g =
    let longer : Graph = record g { tags = g.tags ++ (id, t) ∷ [] } in
    let there = any (is_tag id t) g.tags in
    let next = if there then g else longer in
    SameRows-trans g next (insert_tags id ts next) (SameRows-if there g longer (refl, refl, refl))
      (insert_tags-SameRows id ts next)

pub insert_new_tags-SameRows :
    (id : String) (ts : List String) (g : Graph) → Holds (SameRows g) (insert_new_tags id ts g)
unfolding insert_new_tags
insert_new_tags-SameRows id [] g = Holds-done (SameRows g) g (refl, refl, refl)
insert_new_tags-SameRows id (t ∷ ts) g =
    Holds-demand (SameRows g) _ _ _
      λ absent. insert_new_tags-SameRows id ts (record g { tags = g.tags ++ (id, t) ∷ [] })

pub delete_tags-SameRows :
    (id : String) (ts : List String) (g : Graph) → SameRows g (delete_tags id ts g)
unfolding delete_tags
delete_tags-SameRows id [] g = (refl, refl, refl)
delete_tags-SameRows id (t ∷ ts) g =
    delete_tags-SameRows id ts (record g { tags = delete (is_tag id t) g.tags })

insert_anchor-SameRows : (a : Anchor) (g : Graph) → Holds (SameRows g) (insert_anchor a g)
unfolding insert_anchor
insert_anchor-SameRows a g =
    Holds-demand (SameRows g) _ _ _ λ absent. Holds-done (SameRows g) _ (refl, refl, refl)

pub insert_edge-SameCore : (e : Edge) (g : Graph) → Holds (SameCore g) (insert_edge e g)
unfolding insert_edge
insert_edge-SameCore e g =
    Holds-demand (SameCore g) _ _ _ λ absent. Holds-done (SameCore g) _ (refl, refl)

-- The same for what is done to the work.
abbrev pub SameWork : Work → Work → Type 0
SameWork w v = SameRows w.graph v.graph

module _ (repr : Value → String) (fresh : ℕ → String) (now : ℕ) where
  insert_one-SameWork :
      (type : EntityType) (id : String) (revision : ℕ) (raw : Fields) (w : Work)
      → Holds (SameWork w) (insert_one repr fresh now type id revision raw w)
  unfolding insert_one
  insert_one-SameWork type id revision raw w = Holds-demand (SameWork w) _ _ _ λ known.
      Holds-bind (SameWork w) _ _ λ r e. Holds-bind (SameWork w) _ _ λ s e'.
        Holds-after (SameRows w.graph) (SameWork w) _ _ (insert_anchor-SameRows _ w.graph)
          λ g same. Holds-done (SameWork w) _ same

  insert_anchors-SameWork :
      (type : EntityType) (id : String) (revision : ℕ) (anchors : Items) (w : Work)
      → Holds (SameWork w) (insert_anchors repr fresh now type id revision anchors w)
  unfolding insert_anchors
  insert_anchors-SameWork type id revision nil w = Holds-done (SameWork w) _ (refl, refl, refl)
  insert_anchors-SameWork type id revision (cons (obj raw) rest) w =
      Holds-after (SameWork w) (SameWork w) _ _ (insert_one-SameWork type id revision raw w)
        λ v same.
          Holds-map (SameWork v) (SameWork w) _ (λ u. SameRows-trans w.graph v.graph u.graph same)
            (insert_anchors-SameWork type id revision rest v)
  insert_anchors-SameWork type id revision (cons raw rest) w =
      insert_anchors-SameWork type id revision rest w

pub op_anchors-SameWork :
    (d : Delta) (op : Fields) (type : EntityType) (id : String) (revision : ℕ) (w : Work)
    → Holds (SameWork w) (op_anchors d op type id revision w)
unfolding op_anchors
op_anchors-SameWork d op type id revision w =
    Holds-bind (SameWork w) _ _
      λ anchors e. insert_anchors-SameWork d.repr d.fresh d.now type id revision anchors w
