-- ===== src/Snapshot/Materialize.antt =====
-- eyle/contracts/observation.py: a handle is exchanged for one page, and released.
use eyle.Base.Dict.{Dict, get, values, pop}
use eyle.Value.{Value, Fields, field, num, text, end, null}
use eyle.Snapshot.Handles.{
  Ledger, Handle, Page, Snapshot, paged_payload, register_handle_for_snapshot, page_size_of,
}
use eyle.Base.{
  ℕ, String, Bool, if◌then◌else◌, ◌⊎◌, Option, any, none, not, str_eq, inr, leb, some, ◌&&◌, inl,
  ◌==◌, ◌-◌, map,
}

pub data HandleError : Type 0 where
  handle_not_found handle_stale snapshot_not_found : HandleError

-- The entry of `result["frontiers"]`.
pub record Frontier : Type 0 where
  pub at : String
  pub count : ℕ
  pub handle : String

-- The result, whose coverage has the examined range and the `facts`.
pub record Materialized : Type 0 where
  pub handle : String
  pub kind : String
  pub source_capability : String
  pub payload : Value
  pub item_start : ℕ
  pub item_end : ℕ
  pub complete : Bool
  pub total_items : ℕ
  pub remaining_items : ℕ
  pub frontiers : Option Frontier

abbrev pub Reply : Type 0
Reply = Ledger × (Materialized ⊎ HandleError)

unfoldable pub or_text : String → String → String
or_text s d = if str_eq s "" then d else s

module _ (json_hash : Value → String) where
  -- The handle of the next page is registered only if items remain.
  unfoldable pub continue_with : Ledger → Handle → ℕ → Page → Ledger × Option Frontier
  continue_with l h epoch p =
      if leb p.total p.stop
      then (l, none)
      else (let (l', next) =
            register_handle_for_snapshot json_hash l h.snapshot_id (or_text h.kind "continuation")
              epoch h.source_capability h.description (page_size_of h.page_size) p.stop in
          (
            l',
            some (record {
              at = or_text h.source_capability "continuation";
              count = p.total - p.stop;
              handle = next.id;
            }),
          ))

  unfoldable pub materialize_page : Ledger → String → ℕ → Handle → Snapshot → Reply
  materialize_page l id epoch h s =
      let p = paged_payload s.payload h.offset h.page_size in
      let (l', frontiers) = continue_with l h epoch p in
      (
        l',
        inl (record {
          handle = id;
          kind = h.kind;
          source_capability = h.source_capability;
          payload = p.body;
          item_start = p.start;
          item_end = p.stop;
          complete = leb p.total p.stop;
          total_items = p.total;
          remaining_items = p.total - p.stop;
          frontiers = frontiers;
        }),
      )

  unfoldable pub materialize_snapshot_handle : Ledger → String → ℕ → Reply
  materialize_snapshot_handle l id epoch = elim (get id l.handles) [
    | none ↦ (l, inr handle_not_found)
    | some h ↦
        if not (h.reality_epoch == epoch)
        then (l, inr handle_stale)
        else elim (get h.snapshot_id l.snapshots) [
          | none ↦ (l, inr snapshot_not_found)
          | some s ↦
              if not (s.reality_epoch == epoch)
              then (l, inr handle_stale)
              else materialize_page l id epoch h s
        ]
  ]

-- Some handle that is left points at the snapshot.
unfoldable pub referenced : String → Dict Handle → Bool
referenced snapshot_id d = any (λ h. str_eq h.snapshot_id snapshot_id) (values d)

unfoldable pub collect : Ledger → String → Ledger
collect l snapshot_id =
    if not (str_eq snapshot_id "") && not (referenced snapshot_id l.handles)
    then record l { snapshots = pop snapshot_id l.snapshots }
    else l

unfoldable pub release_snapshot_handle : Ledger → String → Ledger
release_snapshot_handle l id = elim (get id l.handles) [
  | none ↦ l
  | some h ↦ collect (record l { handles = pop id l.handles }) h.snapshot_id
]

-- `persisted_handles`, of the fields that a handle has.
unfoldable pub handle_fields : Handle → Fields
handle_fields h = field "id" (text h.id) (
    field "kind" (text h.kind) (
      field "snapshot_id" (text h.snapshot_id) (
        field "reality_epoch" (num h.reality_epoch) (
          field "source_capability" (text h.source_capability) (
            field "description" (text h.description)
              (field "page_size" (num h.page_size) (field "offset" (num h.offset) end)))))))

unfoldable pub persisted_handles : Ledger → Dict Fields
persisted_handles l = map (λ p. (p.0, handle_fields p.1)) l.handles

-- `persisted_snapshots`; a payload of None is left out.
unfoldable pub snapshot_fields : Snapshot → Fields
snapshot_fields s =
    let rest = field "reality_epoch" (num s.reality_epoch) (
      field "source_capability" (text s.source_capability)
        (field "description" (text s.description) end)) in
    let payload : Fields = elim (s.payload) [ null ↦ rest | v ↦ field "payload" v rest ] in
    field "id" (text s.id) (field "kind" (text s.kind) payload)

unfoldable pub persisted_snapshots : Ledger → Dict Fields
persisted_snapshots l = map (λ p. (p.0, snapshot_fields p.1)) l.snapshots
