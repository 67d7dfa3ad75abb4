-- ===== src/Memory/Sound.antt =====
-- eyle/runtime/memory_graph.py: how the table of tasks stands to that of nodes.
use mathlib.Core.Path.{refl}
use Prim.Native.String.{String}
use eyle.Value.{Items}
use eyle.Memory.{Node, Task, Graph}
use eyle.Memory.Ops.{Delta, is_current, is_terminal, is_over}
use eyle.Memory.Changes.{apply_graph_operations}
use eyle.Memory.Lookup.{
  node_of, task_of, is_task, Step, kept, created, created_task, revised, became_task, closed, moved,
}
use eyle.Memory.Life.{Life, rest, after, apply_graph_operations-Life}
use eyle.Base.{Option, none, some, is_none, not, ◌≡◌, true, ℕ, ◌||◌}

-- The time of its end is set for the tasks that have ended and no others.
unfoldable pub Timed : Option Task → Type 0
unfolding is_terminal
Timed none = Unit
Timed (some t) = is_none t.resolved_at ≡ not (is_terminal t.state)

-- There is a task for the nodes of kind "task" and no others, and that of a closed node has ended.
unfoldable pub Fits : Option Node → Option Task → Type 0
unfolding is_current is_over
Fits none u = u ≡ none
Fits (some n) u = (is_task n ≡ not (is_none u)) × ((is_current n.status || is_over u) ≡ true)

abbrev pub Sound : Option Node → Option Task → Type 0
Sound o u = Fits o u × Timed u

step-Sound : (o p : Option Node) (u v : Option Task) → Step o u p v → Sound o u → Sound p v
unfolding Fits Timed is_over is_terminal
step-Sound o p u v kept h = h
step-Sound o p u v (created n a b c) (fits, timed) = (rw fits (c, rw a refl), timed)
step-Sound o p u v (created_task n t a b c f) h = ((c, rw a refl), rw (f.0, f.2) refl)
step-Sound o p u v (revised n m a b c f) (fits, timed) = ((f, rw b refl), timed)
step-Sound o p u v (became_task n m t a b c f i) h = ((f, rw b refl), rw (i.0, i.2) refl)
step-Sound o p u v (closed n m a b c f i) (fits, timed) = ((rw f.0 fits.0, rw (b, i) refl), timed)
step-Sound o p u v (moved t s a b c f) (fits, timed) = ((fits.0, rw a refl), f)

life-Sound : (o p : Option Node) (u v : Option Task) → Life o u p v → Sound o u → Sound p v
life-Sound o p u v rest h = h
life-Sound o p u v (after {p = q} {v = x} step life) h =
    life-Sound q p x v life (step-Sound o q u x step h)

-- If the nodes of kind "task" are exactly the ids that have a task, the task of each closed node has ended,
-- and the time of an end is set for the tasks that have ended and no others, then a delta keeps this.
pub apply_graph_operations-Sound :
    (d : Delta) (turn : Option ℕ) (operations : Items) (g : Graph) (id : String)
    → Sound (node_of id g) (task_of id g)
    → Sound
        (node_of id (apply_graph_operations d turn operations g).1)
        (task_of id (apply_graph_operations d turn operations g).1)
apply_graph_operations-Sound d turn operations g id =
    life-Sound _ _ _ _ (apply_graph_operations-Life d turn operations g id)
