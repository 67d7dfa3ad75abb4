-- ===== src/Memory/Begins.antt =====
-- eyle/runtime/memory_graph.py: the task that begins with a node.
use mathlib.Core.Path.{refl}
use Prim.Native.String.{String}
use eyle.Value.{Fields}
use eyle.Memory.{Task, Node, Graph}
use eyle.Memory.Tables.{insert_task, insert_node, log_event}
use eyle.Memory.Anchors.{Work}
use eyle.Memory.Ops.{Delta, begin_task, begin_if, noted}
use eyle.Memory.Holds.{Holds, Holds-demand, Holds-done, Holds-after}
use eyle.Memory.Lookup.{node_of, task_of, Begun}
use eyle.Base.{Option, none, some, Bool, ◌≡◌, true, false, is_none, ◌⊎◌, inl, inr, ◌++◌, ◌∷◌, []}

pub is_none_sound : {A : Type 0} (o : Option A) → is_none o ≡ true → o ≡ none
is_none_sound none h = refl
is_none_sound (some a) h = cc

-- What INSERT INTO memory_nodes and memory_tasks do, where the id is new.
abbrev pub NodeInserted : Node → Graph → Graph → Type 0
NodeInserted n g h = (node_of n.id g ≡ none) × (h.nodes ≡ g.nodes ++ n ∷ []) × (h.tasks ≡ g.tasks)

abbrev pub TaskInserted : Task → Graph → Graph → Type 0
TaskInserted t g h =
    (task_of t.task_id g ≡ none) × (h.nodes ≡ g.nodes) × (h.tasks ≡ g.tasks ++ t ∷ [])

pub insert_node-NodeInserted : (n : Node) (g : Graph) → Holds (NodeInserted n g) (insert_node n g)
unfolding insert_node
insert_node-NodeInserted n g =
    Holds-demand (NodeInserted n g) _ _ _
      λ absent. Holds-done (NodeInserted n g) _ (is_none_sound _ absent, refl, refl)

insert_task-TaskInserted : (t : Task) (g : Graph) → Holds (TaskInserted t g) (insert_task t g)
unfolding insert_task
insert_task-TaskInserted t g =
    Holds-demand (TaskInserted t g) _ _ _
      λ absent. Holds-done (TaskInserted t g) _ (is_none_sound _ absent, refl, refl)

-- A task of the id begins where there was none, or the tasks stay.
unfoldable pub Begins : String → Bool → Graph → Graph → Type 0
Begins id b g h =
    (h.nodes ≡ g.nodes)
    × (((b ≡ true)
          × (task_of id g ≡ none)
          × ((t : Task) × (t.task_id ≡ id) × Begun t × (h.tasks ≡ g.tasks ++ t ∷ [])))
        ⊎ ((b ≡ false) × (h.tasks ≡ g.tasks)))

pub begin_if-Begins :
    (d : Delta) (op : Fields) (b : Bool) (id : String) (w : Work)
    → Holds (λ v. Begins id b w.graph v.graph) (begin_if d op b id w)
unfolding begin_if begin_task noted log_event Begins
begin_if-Begins d op true id w =
    Holds-after (TaskInserted _ w.graph) (λ (v : Work). Begins id true w.graph v.graph) _ _
      (insert_task-TaskInserted _ w.graph)
      λ g (absent, nodes, tasks).
        Holds-done (λ (v : Work). Begins id true w.graph v.graph) _
          (nodes, inl (refl, absent, (_, refl, (refl, refl, refl), tasks)))
begin_if-Begins d op false id w =
    Holds-done (λ (v : Work). Begins id false w.graph v.graph) _ (refl, inr (refl, refl))
