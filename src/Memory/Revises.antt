-- ===== src/Memory/Revises.antt =====
-- eyle/runtime/memory_graph.py: update_node, by what it does to the nodes and the tasks.
use mathlib.Core.Path.{refl}
use Prim.Native.String.{String}
use eyle.Base.Keyed.{find_here, find_elsewhere, find_new, find_others, keyed_sound}
use eyle.Base.Table.{find, update, find_test}
use eyle.Value.{Fields}
use eyle.Memory.{node, Node, Graph}
use eyle.Memory.Tables.{
  set_node, node_row, insert_tags, delete_tags, log_event, has_node_id, has_task_id,
}
use eyle.Memory.Anchors.{Work}
use eyle.Memory.Ops.{Delta, noted, reported, is_current}
use eyle.Memory.NodeOps.{revised, update_node}
use eyle.Memory.Holds.{Holds, Holds-bind, Holds-after, Holds-demand, Holds-the, Holds-done}
use eyle.Memory.Lookup.{
  node_id, task_key, SameCore, node_of, task_of, Moves, only-Moves, became_task, is_task,
}
use eyle.Memory.Lookup.{revised as revised_step}
use eyle.Memory.Kept.{
  insert_tags-SameRows, delete_tags-SameRows, SameRows-trans, core, SameRows, op_anchors-SameWork,
  SameWork,
}
use eyle.Memory.Begins.{Begins, begin_if-Begins}
use eyle.Base.{
  not, is_none, ◌&&◌, ◌||◌, ◌+◌, arith, none, some, Bool, ◌≡◌, true, false, inl, inr, ◌++◌, ◌∷◌, [],
  str_eq, ◌∙◌, ap, subst,
}

-- The row that an update writes for a row.
abbrev pub IsRevised : Node → Bool → Node → Type 0
IsRevised row existing next =
    (next.id ≡ row.id)
    × (next.status ≡ row.status)
    × (next.revision ≡ row.revision + 1)
    × ((not existing || is_task next) ≡ true)

revised-IsRevised :
    (d : Delta) (op : Fields) (row : Node) (existing : Bool)
    → Holds (IsRevised row existing) (revised d op row existing)
unfolding revised
revised-IsRevised d op row existing = Holds-demand (IsRevised row existing) _ _ _ λ _.
    Holds-demand (IsRevised row existing) _ _ _ λ stays.
      Holds-bind (IsRevised row existing) _ _ λ epistemic _.
        Holds-bind (IsRevised row existing) _ _ λ recall _.
          Holds-demand (IsRevised row existing) _ _ _
            λ _. Holds-done (IsRevised row existing) _ (refl, refl, refl, stays)

-- The row of the id is rewritten.
abbrev pub Rewritten : String → Node → Graph → Graph → Type 0
Rewritten id next g h = SameCore (set_node id (λ _. next) g) h

replaced-Moves :
    (id : String) (row next : Node) (g h k : Graph)
    → node_of id g ≡ some row
    → is_current row.status ≡ true
    → IsRevised row (not (is_none (task_of id g))) next
    → Rewritten id next g h
    → Begins id (is_task next && not (not (is_none (task_of id g)))) h k
    → Moves g k
unfolding Begins set_node
replaced-Moves id row next g h k there is_open (same, status, revision, stays) (nodes, tasks)
      (nodes', begun) =
    let key : next.id ≡ id = same ∙ keyed_sound node_id id row (find_test _ g.nodes row there) in
    let now : k.nodes ≡ update (has_node_id id) (λ _. next) g.nodes = nodes' ∙ nodes in
    let here : node_of id k ≡ some next =
      rw now (find_here node_id id (λ _. next) g.nodes row (λ r e. key) there) in
    let others : (i : String) → str_eq id i ≡ false → node_of i k ≡ node_of i g =
      λ i e. rw now (find_elsewhere node_id id i (λ _. next) g.nodes (λ r e. key) e) in
    let still_open : is_current next.status ≡ true = rw status is_open in
    elim begun [
      | inl (task, none_there, (t, key', begun, tasks')) ↦
          let later : k.tasks ≡ g.tasks ++ t ∷ [] = tasks' ∙ ap (λ ts. ts ++ t ∷ []) tasks in
          let no_task : task_of id g ≡ none =
            subst (λ ts. find (has_task_id id) ts ≡ none) tasks none_there in
          let task_here : task_of id k ≡ some t =
            rw later (find_new task_key id g.tasks t key' no_task) in
          let is_one : is_task next ≡ true = ground arith in
          only-Moves id g k
            (rw (there, no_task, here, task_here)
              (became_task row next t is_open still_open revision is_one begun))
            (λ i e. (others i e, rw later (find_others task_key id i g.tasks t key' e)))
      | inr (plain, tasks') ↦
          let later : k.tasks ≡ g.tasks = tasks' ∙ tasks in
          let kind : is_task next ≡ not (is_none (task_of id g)) = ground arith in
          only-Moves id g k
            (rw (there, here, later) (revised_step row next is_open still_open revision kind))
            (λ i e. (others i e, rw later refl))
    ]

pub update_node-Moves :
    (d : Delta) (op : Fields) (w : Work)
    → Holds (λ (v : Work). Moves w.graph v.graph) (update_node d op w)
unfolding update_node reported noted log_event node_row
update_node-Moves d op w =
    let end : Work → Type 0 = λ v. Moves w.graph v.graph in
    Holds-bind end _ _ λ id _. Holds-the end (node_of id w.graph) _ _ λ row there.
      Holds-bind end _ _ λ _ _. Holds-demand end (is_current row.status) _ _ λ is_open.
        let existing : Bool = not (is_none (task_of id w.graph)) in
        Holds-after (IsRevised row existing) end _ _ (revised-IsRevised d op row existing)
          λ next is_next. Holds-bind end _ _ λ add _. Holds-bind end _ _ λ remove _.
            let written : Graph = set_node id (λ _. next) w.graph in
            let more : Graph = insert_tags id add written in
            let tagged : Work = record w { graph = delete_tags id remove more } in
            Holds-after (SameWork tagged) end _ _
              (op_anchors-SameWork d op node id next.revision tagged)
              λ anchored same.
                let starts : Bool = is_task next && not existing in
                Holds-after (λ (v : Work). Begins id starts anchored.graph v.graph) end _ _
                  (begin_if-Begins d op starts id anchored)
                  λ begun begins.
                    let tags_same : SameRows written tagged.graph =
                      SameRows-trans written more tagged.graph (insert_tags-SameRows id add written)
                        (delete_tags-SameRows id remove more) in
                    Holds-done end _ (
                      replaced-Moves id row next w.graph anchored.graph begun.graph there is_open
                        is_next
                        (core written anchored.graph
                          (SameRows-trans written tagged.graph anchored.graph tags_same same))
                        begins)
