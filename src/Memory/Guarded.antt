-- ===== src/Memory/Guarded.antt =====
-- eyle/runtime/memory_graph.py: what a delta can do to a node and a task that are there.
use mathlib.Core.Path.{refl}
use mathlib.Core.Bool.{false≢true}
use mathlib.Core.Option.{some-injective, none-ne-some}
use Prim.Native.String.{String}
use eyle.Value.{Items}
use eyle.Memory.{Node, Task, Graph}
use eyle.Memory.Ops.{Delta, is_current}
use eyle.Memory.Changes.{apply_graph_operations}
use eyle.Memory.Lookup.{
  node_of, task_of, Step, kept, created, created_task, revised, became_task, closed, moved,
}
use eyle.Memory.Life.{Life, rest, after, apply_graph_operations-Life}
use eyle.Base.{
  Option, none, some, ◌≡◌, true, false, ℕ, ◌<◌, ◌⊎◌, inl, inr, ◌+◌, arith, subst, sym, ◌∙◌,
}

-- A current node is no node that is closed.
not_current :
    {A : Type 0} (m n : Node)
    → some m ≡ some n
    → is_current m.status ≡ true
    → is_current n.status ≡ false
    → A
not_current m n e a h =
    let same : m ≡ n = some-injective m n e in
    absurd (false≢true (sym h ∙ subst (λ k. is_current k.status ≡ true) same a))

-- A node that is not current stays, and so does its task.
step_closed :
    (n : Node) (o p : Option Node) (u v : Option Task)
    → Step o u p v
    → o ≡ some n
    → is_current n.status ≡ false
    → (p ≡ o) × (v ≡ u)
step_closed n o p u v kept e h = (refl, refl)
step_closed n o p u v (created m a b c) e h = cc
step_closed n o p u v (created_task m t a b c f) e h = cc
step_closed n o p u v (revised m k a b c f) e h = not_current m n e a h
step_closed n o p u v (became_task m k t a b c f i) e h = not_current m n e a h
step_closed n o p u v (closed m k a b c f i) e h = not_current m n e a h
step_closed n o p u v (moved {n = m} t s a b c f) e h = not_current m n e a h

life_closed :
    (n : Node) (o p : Option Node) (u v : Option Task)
    → Life o u p v
    → o ≡ some n
    → is_current n.status ≡ false
    → (p ≡ o) × (v ≡ u)
life_closed n o p u v rest e h = (refl, refl)
life_closed n o p u v (after {p = q} {v = x} step life) e h =
    let (same, same_task) = step_closed n o q u x step e h in
    let (later, later_task) = life_closed n q p x v life (same ∙ e) h in
    (later ∙ same, later_task ∙ same_task)

-- A delta leaves a node that is archived or superseded as it is, and its task too.
pub apply_graph_operations-closed :
    (d : Delta) (turn : Option ℕ) (operations : Items) (g : Graph) (id : String) (n : Node)
    → node_of id g ≡ some n
    → is_current n.status ≡ false
    → (node_of id (apply_graph_operations d turn operations g).1 ≡ node_of id g)
      × (task_of id (apply_graph_operations d turn operations g).1 ≡ task_of id g)
apply_graph_operations-closed d turn operations g id n there ended =
    life_closed n _ _ _ _ (apply_graph_operations-Life d turn operations g id) there ended

-- The node stays, and is the same or has a later revision.
abbrev pub LaterNode : Node → Option Node → Type 0
LaterNode n p = (m : Node) × (p ≡ some m) × ((m ≡ n) ⊎ (n.revision < m.revision))

NodeGuarded : Option Node → Option Node → Type 0
NodeGuarded o p = (n : Node) → o ≡ some n → LaterNode n p

-- The same for a task and the revision of its state.
abbrev pub LaterTask : Task → Option Task → Type 0
LaterTask t v = (s : Task) × (v ≡ some s) × ((s ≡ t) ⊎ (t.state_revision < s.state_revision))

TaskGuarded : Option Task → Option Task → Type 0
TaskGuarded u v = (t : Task) → u ≡ some t → LaterTask t v

same_node : (o : Option Node) → NodeGuarded o o
unfolding NodeGuarded
same_node o n e = (n, e, inl refl)

no_node : (p : Option Node) → NodeGuarded none p
unfolding NodeGuarded
no_node p n e = absurd (none-ne-some n e)

next_node : (n m : Node) → m.revision ≡ n.revision + 1 → NodeGuarded (some n) (some m)
unfolding NodeGuarded
next_node n m r k e =
    let same : n ≡ k = some-injective n k e in
    let next : m.revision ≡ k.revision + 1 = subst (λ x. m.revision ≡ x.revision + 1) same r in
    (m, refl, inr (omega arith))

same_task : (u : Option Task) → TaskGuarded u u
unfolding TaskGuarded
same_task u t e = (t, e, inl refl)

no_task : (v : Option Task) → TaskGuarded none v
unfolding TaskGuarded
no_task v t e = absurd (none-ne-some t e)

next_task : (t s : Task) → s.state_revision ≡ t.state_revision + 1 → TaskGuarded (some t) (some s)
unfolding TaskGuarded
next_task t s r k e =
    let same : t ≡ k = some-injective t k e in
    let next : s.state_revision ≡ k.state_revision + 1 =
      subst (λ x. s.state_revision ≡ x.state_revision + 1) same r in
    (s, refl, inr (omega arith))

step_guarded :
    (o p : Option Node) (u v : Option Task) → Step o u p v → NodeGuarded o p × TaskGuarded u v
step_guarded o p u v kept = (same_node o, same_task u)
step_guarded o p u v (created m a b c) = (no_node p, same_task u)
step_guarded o p u v (created_task m t a b c f) = (no_node p, no_task v)
step_guarded o p u v (revised m k a b c f) = (next_node m k c, same_task u)
step_guarded o p u v (became_task m k t a b c f i) = (next_node m k c, no_task v)
step_guarded o p u v (closed m k a b c f i) = (next_node m k c, same_task u)
step_guarded o p u v (moved t s a b c f) = (same_node o, next_task t s c)

-- Later than what is the same or later.
later_trans :
    {A : Type 0} (k : A → ℕ) (a b c : A)
    → (b ≡ a) ⊎ (k a < k b)
    → (c ≡ b) ⊎ (k b < k c)
    → (c ≡ a) ⊎ (k a < k c)
later_trans k a b c (inl e) (inl f) = inl (f ∙ e)
later_trans k a b c (inl e) (inr f) = inr (subst (λ x. k x < k c) e f)
later_trans k a b c (inr e) (inl f) = inr (subst (λ x. k a < k x) (sym f) e)
later_trans k a b c (inr e) (inr f) = inr (omega arith)

node_trans : (o p q : Option Node) → NodeGuarded o p → NodeGuarded p q → NodeGuarded o q
unfolding NodeGuarded
node_trans o p q f g n e =
    let (m, there, later) = f n e in
    let (k, there', later') = g m there in
    (k, there', later_trans (λ x. x.revision) n m k later later')

task_trans : (u v w : Option Task) → TaskGuarded u v → TaskGuarded v w → TaskGuarded u w
unfolding TaskGuarded
task_trans u v w f g t e =
    let (s, there, later) = f t e in
    let (r, there', later') = g s there in
    (r, there', later_trans (λ x. x.state_revision) t s r later later')

life_guarded :
    (o p : Option Node) (u v : Option Task) → Life o u p v → NodeGuarded o p × TaskGuarded u v
life_guarded o p u v rest = (same_node o, same_task u)
life_guarded o p u v (after {p = q} {v = x} step life) =
    let (n, t) = step_guarded o q u x step in
    let (n', t') = life_guarded q p x v life in (node_trans o q p n n', task_trans u x v t t')

-- A delta deletes no node, and a node that is not as it was has a later revision.
pub apply_graph_operations-LaterNode :
    (d : Delta) (turn : Option ℕ) (operations : Items) (g : Graph) (id : String) (n : Node)
    → node_of id g ≡ some n
    → LaterNode n (node_of id (apply_graph_operations d turn operations g).1)
unfolding NodeGuarded
apply_graph_operations-LaterNode d turn operations g id n there =
    (life_guarded _ _ _ _ (apply_graph_operations-Life d turn operations g id)).0 n there

-- A delta deletes no task, and a task that is not as it was has a later revision of its state.
pub apply_graph_operations-LaterTask :
    (d : Delta) (turn : Option ℕ) (operations : Items) (g : Graph) (id : String) (t : Task)
    → task_of id g ≡ some t
    → LaterTask t (task_of id (apply_graph_operations d turn operations g).1)
unfolding TaskGuarded
apply_graph_operations-LaterTask d turn operations g id t there =
    (life_guarded _ _ _ _ (apply_graph_operations-Life d turn operations g id)).1 t there
