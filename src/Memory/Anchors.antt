-- ===== src/Memory/Anchors.antt =====
-- eyle/runtime/memory_graph.py: `_insert_anchors`, the sources of a node or an edge.
use eyle.Base.Table.{find}
use mathlib.Core.Option
use Prim.Native.String.{String, ◌++◌ as ◌<>◌}
use eyle.Base.Dict.{member}
use eyle.Base.Text.{strip}
use eyle.Value.{Value, Fields, Items, nil, cons, obj, num, null, lookup, end, truthy}
use eyle.Memory.{Event, EntityType, node, edge, task, Graph}
use eyle.Memory.{Try, done, raised, ◌>>=◌, demand}
use eyle.Memory.Clean.{text_of, or_none, is_id}
use eyle.Memory.Tables.{has_node_id, has_edge_id, insert_anchor}
use eyle.Base.{
  Option, none, some, List, [], ◌∷◌, Bool, ℕ, false, if◌then◌else◌, leb, true, ◌&&◌, ◌+◌, str_eq,
  ◌==◌, is_none, ◌||◌, any,
}

-- The graph in the course of a delta: the number of ids that have been drawn, and the rows affected.
pub record Affected : Type 0 where
  pub entity_type : EntityType
  pub id : String
  pub revision : ℕ
  pub action : String

pub record Work : Type 0 where
  pub graph : Graph
  pub drawn : ℕ
  pub affected : List Affected

unfoldable pub same_entity : EntityType → EntityType → Bool
same_entity node node = true
same_entity edge edge = true
same_entity task task = true
same_entity _ _ = false

-- An event of this revision of the entity.
unfoldable pub is_event : EntityType → String → ℕ → Event → Bool
unfolding same_entity
is_event type id revision e =
    same_entity e.entity_type type && str_eq e.entity_id id && e.revision == revision

-- `_source_revision_exists`, by the revision of the current row.
unfoldable pub has_revision : EntityType → String → ℕ → Option ℕ → Graph → Bool
unfolding is_event
has_revision type id revision none g = false
has_revision type id revision (some now) g =
    now == revision || any (is_event type id revision) g.events

unfoldable pub source_revision_exists : EntityType → String → ℕ → Graph → Bool
unfolding has_revision
source_revision_exists node id revision g =
    has_revision node id revision (Option.map (λ n. n.revision) (find (has_node_id id) g.nodes)) g
source_revision_exists edge id revision g =
    has_revision edge id revision (Option.map (λ e. e.revision) (find (has_edge_id id) g.edges)) g
source_revision_exists task id revision g = false

-- A source revision is absent, or an integer of at least 1.
unfoldable pub revision_of : Option Value → Try (Option ℕ)
revision_of none = done none
revision_of (some null) = done none
revision_of (some (num n)) = do
  _ ← demand (leb 1 n) "MEMORY_ANCHOR_SOURCE_REVISION_INVALID"
  done (some n)
revision_of (some v) = raised "MEMORY_ANCHOR_SOURCE_REVISION_INVALID"

-- The revision, if it is given, is one that the source has had.
unfoldable pub revision_there : EntityType → String → Option ℕ → Graph → Bool
unfolding source_revision_exists
revision_there type id none g = true
revision_there type id (some revision) g = source_revision_exists type id revision g

unfoldable pub dict_or_empty : Option Value → Fields
dict_or_empty (some (obj d)) = d
dict_or_empty _ = end

-- `v or {}`
unfoldable pub or_empty : Option Value → Value
unfolding truthy
or_empty none = obj end
or_empty (some v) = if truthy v then v else obj end

module _ (repr : Value → String) (fresh : ℕ → String) (now : ℕ) where
  -- The type of the source that an anchor names, after its checks.
  unfoldable pub source_type : String → String → Option ℕ → Fields → Graph → Try (Option String)
  unfolding is_id revision_there text_of strip or_none
  source_type kind source_ref revision raw g =
      if str_eq kind "memory"
      then (do
        _ ← demand (is_id "mem-" source_ref) "MEMORY_ANCHOR_MEMORY_REF_INVALID"
        _ ←
            demand (revision_there node source_ref revision g)
              "MEMORY_ANCHOR_SOURCE_REVISION_NOT_FOUND"
        done (some "node"))
      else if str_eq kind "relation"
      then (do
        _ ← demand (is_id "rel-" source_ref) "MEMORY_ANCHOR_RELATION_REF_INVALID"
        _ ←
            demand (revision_there edge source_ref revision g)
              "MEMORY_ANCHOR_SOURCE_REVISION_NOT_FOUND"
        done (some "edge"))
      else (do
        _ ← demand (is_none revision) "MEMORY_ANCHOR_SOURCE_REVISION_INVALID"
        done (or_none (strip (text_of repr (lookup "source_entity_type" raw)))))

  unfoldable pub text_field : String → Fields → Option String
  unfolding or_none strip text_of lookup
  text_field key raw = or_none (strip (text_of repr (lookup key raw)))

  -- One anchor.
  unfoldable pub insert_one : EntityType → String → ℕ → Fields → Work → Try Work
  unfolding source_type text_field revision_of dict_or_empty or_empty member insert_anchor
  insert_one entity_type entity_id entity_revision raw w = do
    let kind = strip (text_of repr (lookup "anchor_kind" raw))
    let known = member kind ("material" ∷ "request" ∷ "memory" ∷ "relation" ∷ [])
    _ ← demand known "MEMORY_ANCHOR_KIND_INVALID"
    let source_ref = strip (text_of repr (lookup "source_ref" raw))
    revision ← revision_of (lookup "source_revision" raw)
    type ← source_type kind source_ref revision raw w.graph
    g ←
        insert_anchor
          (record {
            id = "ma-" <> fresh w.drawn;
            entity_type = entity_type;
            entity_id = entity_id;
            anchor_kind = kind;
            source_entity_type = type;
            source_revision = revision;
            source_capability = text_field "source_capability" raw;
            locator = dict_or_empty (lookup "locator" raw);
            source_version = text_field "source_version" raw;
            content_hash = text_field "content_hash" raw;
            freshness_token = text_field "freshness_token" raw;
            freshness_arguments = or_empty (lookup "freshness_arguments" raw);
            source_ref = or_none source_ref;
            entity_revision = entity_revision;
            created_at = now;
          })
          w.graph
    done (record w { graph = g; drawn = w.drawn + 1 })

  -- `_insert_anchors`; what is no dict is passed over.
  unfoldable pub insert_anchors : EntityType → String → ℕ → Items → Work → Try Work
  unfolding insert_one
  insert_anchors entity_type entity_id entity_revision nil w = done w
  insert_anchors entity_type entity_id entity_revision (cons (obj raw) rest) w = do
    next ← insert_one entity_type entity_id entity_revision raw w
    insert_anchors entity_type entity_id entity_revision rest next
  insert_anchors entity_type entity_id entity_revision (cons raw rest) w =
      insert_anchors entity_type entity_id entity_revision rest w
