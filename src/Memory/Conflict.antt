-- ===== src/Memory/Conflict.antt =====
-- eyle/runtime/memory_graph.py: `_expect_revision` in the operations that write a node.
use mathlib.Core.Path.{refl}
use Prim.Native.String.{String}
use eyle.Base.Text.{strip}
use eyle.Value.{Fields, Items, num, lookup}
use eyle.Memory.{Node, Graph, Try, done, raised, ◌>>=◌, demand, the}
use eyle.Memory.Anchors.{Work}
use eyle.Memory.Tables.{node_row, expect_revision}
use eyle.Memory.Ops.{Delta, op_text, op_clean}
use eyle.Memory.NodeOps.{update_node}
use eyle.Memory.CloseOps.{closed_row, archive_node, supersede_node}
use eyle.Memory.Changes.{
  apply_one, apply_all, apply_ops, apply_graph_operations, ops_of, open_changeset, committed,
}
use eyle.Memory.Lookup.{node_of}
use eyle.Base.{◌++◌, ap, Option, some, List, [], ◌∷◌, ℕ, ◌≡◌, false, ◌==◌, ◌⊎◌, inl, inr}

-- The work at the start of a delta.
abbrev pub opened : Delta → Option ℕ → Graph → Work
opened d turn g = record { graph = open_changeset d turn g; drawn = 0; affected = [] }

result : {A : Type 0} → Try A → A → A
result (done a) other = a
result (raised code) other = other

done-injective : {A : Type 0} (a b : A) → done a ≡ done b → a ≡ b
unfolding result
done-injective a b e = ap (λ r. result r a) e

-- A chain whose first part is known to give a result.
bind-raised :
    {A B : Type 0} (r : Try A) (next other : A → Try B) (b : B) {code : String}
    → (r >>= next) ≡ done b
    → ((a : A) → next a ≡ done b → other a ≡ raised code)
    → (r >>= other) ≡ raised code
unfolding ◌>>=◌
bind-raised (raised c) next other b e h = absurd (cc)
bind-raised (done a) next other b e h = h a e

-- An operation that names a node and a revision that is not its own.
module _ (d : Delta) (op : Fields) (id : String) (row : Node) (n : ℕ) where
  abbrev pub IsStale : Graph → Type 0
  IsStale g =
      (op_clean d op "id" "NODE_ID" (some 120) ≡ done id)
      × (node_of id g ≡ some row)
      × (lookup "expected_revision" op ≡ some (num n))
      × ((row.revision == n) ≡ false)

  update_node-raised : (w : Work) → IsStale w.graph → update_node d op w ≡ raised "MEMORY_CONFLICT"
  unfolding update_node node_row expect_revision ◌>>=◌ demand the
  update_node-raised w (named, there, expected, other) = rw (named, there, expected, other) refl

  closed_row-raised : (w : Work) → IsStale w.graph → closed_row d op id w ≡ raised "MEMORY_CONFLICT"
  unfolding closed_row node_row expect_revision ◌>>=◌ demand the
  closed_row-raised w (named, there, expected, other) = rw (there, expected, other) refl

  archive_node-raised :
      (w : Work) → IsStale w.graph → archive_node d op w ≡ raised "MEMORY_CONFLICT"
  unfolding archive_node ◌>>=◌
  archive_node-raised w stale = rw (stale.0, closed_row-raised w stale) refl

  supersede_node-raised :
      (w : Work) → IsStale w.graph → supersede_node d op w ≡ raised "MEMORY_CONFLICT"
  unfolding supersede_node ◌>>=◌
  supersede_node-raised w stale = rw (stale.0, closed_row-raised w stale) refl

  -- The operation writes the node.
  abbrev pub Writes : String → Type 0
  Writes kind = (kind ≡ "update_node") ⊎ ((kind ≡ "archive_node") ⊎ (kind ≡ "supersede_node"))

  apply_one-raised :
      (w : Work)
      → Writes (strip (op_text d op "op"))
      → IsStale w.graph
      → apply_one d op w ≡ raised "MEMORY_CONFLICT"
  unfolding apply_one
  apply_one-raised w (inl e) stale = rw e (update_node-raised w stale)
  apply_one-raised w (inr (inl e)) stale = rw e (archive_node-raised w stale)
  apply_one-raised w (inr (inr e)) stale = rw e (supersede_node-raised w stale)

  apply_all-raised :
      (before rest : List Fields) (v w : Work)
      → apply_all d before v ≡ done w
      → apply_one d op w ≡ raised "MEMORY_CONFLICT"
      → apply_all d (before ++ op ∷ rest) v ≡ raised "MEMORY_CONFLICT"
  unfolding apply_all ◌>>=◌
  apply_all-raised [] rest v w e fails =
      let same : v ≡ w = done-injective v w e in rw (same, fails) refl
  apply_all-raised (o ∷ before) rest v w e fails =
      bind-raised (apply_one d o v) _ _ w e λ u e'. apply_all-raised before rest u w e' fails

  apply_ops-raised :
      (turn : Option ℕ) (ops : List Fields) (g : Graph) (code : String)
      → apply_all d ops (opened d turn g) ≡ raised code
      → apply_ops d turn ops g ≡ (raised code, g)
  unfolding apply_ops apply_all committed
  apply_ops-raised turn [] g code e = absurd (cc)
  apply_ops-raised turn (o ∷ ops) g code e = rw e refl

  -- A delta in which, after operations that are carried out, one updates, archives or supersedes a node by
  -- a revision that is not its own raises MEMORY_CONFLICT and changes nothing, those operations included.
  pub apply_graph_operations-IsStale :
      (turn : Option ℕ) (operations : Items) (before rest : List Fields) (g : Graph) (w : Work)
      → ops_of operations ≡ before ++ op ∷ rest
      → apply_all d before (opened d turn g) ≡ done w
      → Writes (strip (op_text d op "op"))
      → IsStale w.graph
      → apply_graph_operations d turn operations g ≡ (raised "MEMORY_CONFLICT", g)
  unfolding apply_graph_operations
  apply_graph_operations-IsStale turn operations before rest g w listed ran writes stale =
      rw listed (
        apply_ops-raised turn (before ++ op ∷ rest) g "MEMORY_CONFLICT"
          (apply_all-raised before rest (opened d turn g) w ran (apply_one-raised w writes stale)))
