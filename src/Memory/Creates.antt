-- ===== src/Memory/Creates.antt =====
-- eyle/runtime/memory_graph.py: create_node, by what it does to the nodes and the tasks.
use mathlib.Core.Path.{refl}
use Prim.Native.String.{String}
use eyle.Base.Keyed.{find_new, find_others}
use eyle.Value.{Fields}
use eyle.Base.Table.{find}
use eyle.Memory.{node, Node, Graph}
use eyle.Memory.Tables.{log_event, has_task_id}
use eyle.Memory.Anchors.{Work}
use eyle.Memory.Ops.{Delta, op_text, id_or_new, noted, reported, is_current, op_text}
use eyle.Memory.NodeOps.{new_node, create_node}
use eyle.Memory.Holds.{Holds, Holds-bind, Holds-after, Holds-demand, Holds-done}
use eyle.Memory.Lookup.{
  node_id, task_key, SameCore, node_of, task_of, Moves, only-Moves, created, created_task, is_task,
}
use eyle.Memory.Kept.{
  insert_new_tags-SameRows, SameRows, SameRows-trans, core, op_anchors-SameWork, SameWork,
}
use eyle.Memory.Begins.{Begins, begin_if-Begins, insert_node-NodeInserted, NodeInserted}
use eyle.Base.{
  none, some, ◌≡◌, true, false, inl, inr, ◌++◌, List, ◌∷◌, [], str_eq, ◌∙◌, ap, subst, Bool-cases,
}

-- The row of a new node, whatever the operation gives.
abbrev pub IsNew : String → Node × List String → Type 0
IsNew id (n, tags) = (n.id ≡ id) × (is_current n.status ≡ true) × (n.revision ≡ 1)

module _ (d : Delta) (op : Fields) where
  new_node-IsNew : (id : String) → Holds (IsNew id) (new_node d op id)
  unfolding new_node is_current
  new_node-IsNew id = Holds-demand (IsNew id) _ _ _ λ _. Holds-bind (IsNew id) _ _ λ scope _.
      Holds-bind (IsNew id) _ _ λ kind _. Holds-bind (IsNew id) _ _ λ domain _.
        Holds-bind (IsNew id) _ _ λ key _. Holds-bind (IsNew id) _ _ λ content _.
          Holds-bind (IsNew id) _ _ λ epistemic _. Holds-demand (IsNew id) _ _ _ λ _.
            Holds-bind (IsNew id) _ _ λ tags _.
              Holds-bind (IsNew id) _ _ λ recall _. Holds-done (IsNew id) _ (refl, refl, refl)

  pub id_or_new-graph : (prefix : String) (w : Work) → (id_or_new d op prefix w).1.graph ≡ w.graph
  unfolding id_or_new
  id_or_new-graph prefix w = elim (Bool-cases (str_eq (op_text d op "id") "")) [
    | inl e ↦ rw e refl
    | inr e ↦ rw e refl
  ]

-- A node that is new, and a task that begins with it if it is one.
inserted-Moves :
    (id : String) (n : Node) (tags : List String) (g h k : Graph)
    → IsNew id (n, tags)
    → NodeInserted n g h
    → Begins id (is_task n) h k
    → Moves g k
unfolding Begins
inserted-Moves id n tags g h k (same, is_new, first) (absent, nodes, tasks) (nodes', begun) =
    let absent_there : node_of id g ≡ none = subst (λ i. node_of i g ≡ none) same absent in
    let now : k.nodes ≡ g.nodes ++ n ∷ [] = nodes' ∙ nodes in
    let here : node_of id k ≡ some n = rw now (find_new node_id id g.nodes n same absent_there) in
    let others : (i : String) → str_eq id i ≡ false → node_of i k ≡ node_of i g =
      λ i e. rw now (find_others node_id id i g.nodes n same e) in
    elim begun [
      | inl (task, none_there, (t, key, begun, tasks')) ↦
          let later : k.tasks ≡ g.tasks ++ t ∷ [] = tasks' ∙ ap (λ ts. ts ++ t ∷ []) tasks in
          let no_task : task_of id g ≡ none =
            subst (λ ts. find (has_task_id id) ts ≡ none) tasks none_there in
          let task_here : task_of id k ≡ some t =
            rw later (find_new task_key id g.tasks t key no_task) in
          only-Moves id g k
            (rw (absent_there, no_task, here, task_here) (created_task n t is_new first task begun))
            (λ i e. (others i e, rw later (find_others task_key id i g.tasks t key e)))
      | inr (plain, tasks') ↦
          let later : k.tasks ≡ g.tasks = tasks' ∙ tasks in
          only-Moves id g k (rw (absent_there, here, later) (created n is_new first plain))
            (λ i e. (others i e, rw later refl))
    ]

NodeInserted-SameCore :
    (n : Node) (g h k : Graph) → NodeInserted n g h → SameCore h k → NodeInserted n g k
NodeInserted-SameCore n g h k (absent, nodes, tasks) same = (absent, same.0 ∙ nodes, same.1 ∙ tasks)

pub create_node-Moves :
    (d : Delta) (op : Fields) (w : Work)
    → Holds (λ (v : Work). Moves w.graph v.graph) (create_node d op w)
unfolding create_node reported noted log_event
create_node-Moves d op w =
    let id : String = (id_or_new d op "mem-" w).0 in
    let start : Graph = (id_or_new d op "mem-" w).1.graph in
    let end : Work → Type 0 = λ v. Moves w.graph v.graph in
    Holds-after (IsNew id) end _ _ (new_node-IsNew d op id) λ (n, tags) new.
      Holds-after (NodeInserted n start) end _ _ (insert_node-NodeInserted n start) λ g inserted.
        Holds-after (SameRows g) end _ _ (insert_new_tags-SameRows id tags g) λ g' tags_same.
          let tagged : Work = record (id_or_new d op "mem-" w).1 { graph = g' } in
          Holds-after (SameWork tagged) end _ _ (op_anchors-SameWork d op node id 1 tagged)
            λ anchored same.
              Holds-after (λ (v : Work). Begins id (is_task n) anchored.graph v.graph) end _ _
                (begin_if-Begins d op (is_task n) id anchored)
                λ begun begins. Holds-done end _ (
                  subst (λ (s : Graph). Moves s begun.graph) (id_or_new-graph d op "mem-" w)
                    (inserted-Moves id n tags start anchored.graph begun.graph new
                      (NodeInserted-SameCore n start g anchored.graph inserted (
                        core g anchored.graph
                          (SameRows-trans g tagged.graph anchored.graph tags_same same)))
                      begins))
