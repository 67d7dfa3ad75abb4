-- ===== src/Memory/ConflictTests.antt =====
-- eyle/runtime/memory_graph.py: a delta that is stale, and one that retires a relation.
use mathlib.Core.Path.{refl}
use eyle.Value.{lookup, Items, end, field, text, num, cons, obj, nil}
use eyle.Memory.{current, done, raised, task, Fields}
use eyle.Memory.{◌>>=◌, demand, the}
use eyle.Memory.Ops.{op_clean, op_text}
use eyle.Memory.TaskOps.{set_task_status}
use eyle.Memory.Clean.{clean_text}
use eyle.Memory.{Edge, Graph, linked, retired}
use eyle.Memory.LinkOps.{retire_edge}
use eyle.Memory.Ties.{edge_of}
use eyle.Memory.LaterEdge.{LaterEdge, apply_graph_operations-LaterEdge}
use eyle.Memory.Conflict.{IsStale, opened, apply_graph_operations-IsStale}
use eyle.Memory.Anchors.{Work}
use eyle.Base.Text.{strip}
use eyle.Memory.Changes.{apply_all, apply_one, open_changeset, ops_of, apply_graph_operations}
use eyle.Base.{inl, inr, none, some, [], ◌∷◌, ◌≡◌}
use eyle.Memory.Tests.{delta, old, ended, running, resolve, put_away, finish}

-- The work after the first operation of a delta whose second one is stale.
abbrev halfway : Work
halfway = record {
  graph = record (opened delta none running).graph {
    tasks =
        record ended { last_execution_id = some "exec"; updated_at = 7; resolved_at = some 7 } ∷ [];
    events =
        record {
          changeset_id = "mcs-1";
          entity_type = task;
          entity_id = "mem-1";
          action = "set_task_status";
          revision = 3;
          created_at = 7;
        }
        ∷ [];
  };
  drawn = 0;
  affected =
      record { entity_type = task; id = "mem-1"; revision = 3; action = "set_task_status" } ∷ [];
}

resolved_first : apply_all delta (resolve ∷ []) (opened delta none running) ≡ done halfway
unfolding apply_all apply_one ◌>>=◌ demand the set_task_status open_changeset
resolved_first = refl

is_stale :
    IsStale delta
      (put_away 5)
      "mem-1"
      (record old { status = current; revision = 1 })
      5
      halfway.graph
unfolding op_clean clean_text ◌>>=◌ demand open_changeset lookup
is_stale = (refl, refl, refl, refl)

apply_graph_operations-IsStale_example :
    apply_graph_operations delta none (finish 5) running ≡ (raised "MEMORY_CONFLICT", running)
unfolding ops_of op_text strip
apply_graph_operations-IsStale_example =
    apply_graph_operations-IsStale delta (put_away 5) "mem-1"
      (record old { status = current; revision = 1 }) 5 none (finish 5) (resolve ∷ []) [] running
      halfway refl resolved_first (inr (inl refl)) is_stale

-- A relation is retired.
abbrev bond : Edge
bond = record {
  id = "rel-1";
  source = "mem-1";
  label = "about";
  target = "mem-1";
  epistemic = end;
  last_evidenced_at = none;
  status = linked;
  revision = 4;
  created_at = 1;
  updated_at = 1;
}

abbrev tied : Graph
tied = record running { edges = bond ∷ [] }

abbrev untie : Items
untie = cons (obj give_up) nil
  where
    give_up : Fields
    give_up =
        field "op" (text "retire_edge")
          (field "id" (text "rel-1") (field "expected_revision" (num 4) end))

retired_row :
    (apply_graph_operations delta none untie tied).1.edges
    ≡ record bond { status = retired; revision = 5; updated_at = 7 } ∷ []
unfolding apply_graph_operations ◌>>=◌ demand the retire_edge
retired_row = refl

apply_graph_operations-LaterEdge_example :
    LaterEdge bond (edge_of "rel-1" (apply_graph_operations delta none untie tied).1)
apply_graph_operations-LaterEdge_example =
    apply_graph_operations-LaterEdge delta none untie tied "rel-1" bond refl
