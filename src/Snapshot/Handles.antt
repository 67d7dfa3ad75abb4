-- ===== src/Snapshot/Handles.antt =====
-- eyle/contracts/observation.py: a payload is retained once, as a snapshot; a handle points at a
-- snapshot and an offset, and is exchanged for one page. `json_hash` stands for `_json_hash`, the
-- SHA-256 of the JSON text. Epochs, offsets and page sizes are natural numbers here, so that
-- `max(0, int(x or 0))` is x.
use Prim.Native.String.{◌++◌ as str_append}
use eyle.Base.Text.{crop, strip}
use eyle.Value.{Fields, Items, Value, arr, field, nil, null, obj, cons, lookup, put, text, end, num}
use eyle.Base.Dict.{Dict, enter, get}
use eyle.Base.{
  ℕ, List, String, Option, [], drop, if◌then◌else◌, min, take, is_none, length, some, str_eq, ◌-◌,
  ◌∷◌, ◌+◌, suc, zero,
}

pub record Handle : Type 0 where
  pub id : String
  pub kind : String
  pub snapshot_id : String
  pub reality_epoch : ℕ
  pub source_capability : String
  pub description : String
  pub page_size : ℕ
  pub offset : ℕ

pub record Snapshot : Type 0 where
  pub id : String
  pub kind : String
  pub payload : Value
  pub reality_epoch : ℕ
  pub source_capability : String
  pub description : String

pub record Ledger : Type 0 where
  pub handles : Dict Handle
  pub snapshots : Dict Snapshot

-- What a caller gets of a new handle.
pub record HandleRef : Type 0 where
  pub id : String
  pub kind : String
  pub source_capability : String
  pub description : String

-- `max(1, int(page_size or 12))`
unfoldable pub page_size_of : ℕ → ℕ
page_size_of zero = 12
page_size_of (suc n) = suc n

unfoldable pub item_list : Items → List Value
item_list nil = []
item_list (cons v xs) = v ∷ item_list xs

unfoldable pub from_list : List Value → Items
from_list [] = nil
from_list (v ∷ xs) = cons v (from_list xs)

-- `xs[start:stop]`, where start ≤ stop.
abbrev pub slice : ℕ → ℕ → List Value → List Value
slice start stop xs = take (stop - start) (drop start xs)

-- `{key: value for key, value in d.items() if key != k}`
unfoldable pub without : String → Fields → Fields
without k end = end
without k (field j v d) = let rest = without k d in if str_eq j k then rest else field j v rest

pub record Page : Type 0 where
  pub body : Value
  pub start : ℕ
  pub stop : ℕ
  pub total : ℕ

unfoldable pub page_of : (List Value → Value) → List Value → ℕ → ℕ → Page
page_of wrap items offset size =
    let start = min offset (length items) in
    let stop = min (length items) (start + size) in
    record {
      body = wrap (slice start stop items);
      start = start;
      stop = stop;
      total = length items;
    }

abbrev pub wrap_list : List Value → Value
wrap_list xs = arr (from_list xs)

abbrev pub wrap_items : Fields → List Value → Value
wrap_items d xs = obj (put "items" (arr (from_list xs)) (without "items" d))

abbrev pub whole : Value → Page
whole null = record { body = null; start = 0; stop = 0; total = 0 }
whole v = record { body = v; start = 0; stop = 1; total = 1 }

abbrev pub page_of_items : Fields → Option Value → ℕ → ℕ → Page
page_of_items d (some (arr xs)) offset size = page_of (wrap_items d) (item_list xs) offset size
page_of_items d _ offset size = whole (obj d)

unfoldable pub paged_payload : Value → ℕ → ℕ → Page
paged_payload (obj d) offset size = page_of_items d (lookup "items" d) offset (page_size_of size)
paged_payload (arr xs) offset size = page_of wrap_list (item_list xs) offset (page_size_of size)
paged_payload v offset size = whole v

-- `str(kind or "continuation").strip() or "continuation"`
unfoldable pub kind_of : String → String
kind_of kind = if str_eq (strip kind) "" then "continuation" else strip kind

-- The snapshot is stored unless one is there under its id.
unfoldable pub store_snapshot : Ledger → Snapshot → Ledger
store_snapshot l s =
    if is_none (get s.id l.snapshots) then record l { snapshots = enter s.id s l.snapshots } else l

module _ (json_hash : Value → String) where
  unfoldable pub handle_id : String → String → ℕ → ℕ → ℕ → String
  handle_id kind snapshot_id epoch offset size =
      let identity = obj (
        field "snapshot_id" (text snapshot_id) (
          field "reality_epoch" (num epoch)
            (field "offset" (num offset) (field "page_size" (num size) end)))) in
      str_append "handle:" (str_append kind (str_append ":" (crop 16 (json_hash identity))))

  unfoldable pub register_handle_for_snapshot :
      Ledger → String → String → ℕ → String → String → ℕ → ℕ → Ledger × HandleRef
  register_handle_for_snapshot l snapshot_id kind epoch source_capability description size offset =
      let id = handle_id kind snapshot_id epoch offset size in
      let handle : Handle = record {
        id = id;
        kind = kind;
        snapshot_id = snapshot_id;
        reality_epoch = epoch;
        source_capability = source_capability;
        description = crop 240 description;
        page_size = size;
        offset = offset;
      } in
      (
        record l { handles = enter id handle l.handles },
        record {
          id = id;
          kind = kind;
          source_capability = source_capability;
          description = crop 240 description;
        },
      )

  unfoldable pub snapshot_key : String → Value → ℕ → String → String
  snapshot_key kind payload epoch source_capability =
      let identity = obj (
        field "kind" (text kind) (
          field "payload" payload (
            field "reality_epoch" (num epoch)
              (field "source_capability" (text source_capability) end)))) in
      str_append "snap:" (str_append kind (str_append ":" (crop 16 (json_hash identity))))

  unfoldable pub register_snapshot_handle :
      Ledger → String → Value → ℕ → String → String → ℕ → ℕ → Ledger × HandleRef
  register_snapshot_handle l kind0 payload epoch source_capability description size offset =
      let kind = kind_of kind0 in
      let id = snapshot_key kind payload epoch source_capability in
      let snapshot : Snapshot = record {
        id = id;
        kind = kind;
        payload = payload;
        reality_epoch = epoch;
        source_capability = source_capability;
        description = crop 240 description;
      } in
      register_handle_for_snapshot (store_snapshot l snapshot) id kind epoch source_capability
        description (page_size_of size) offset
