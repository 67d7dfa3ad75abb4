-- ===== src/Snapshot/Tests.antt =====
-- Runs of the snapshot store and of the coverage contract.
use eyle.Base.Text.{strip, crop, lstrip, rstrip, is_space}
use eyle.Snapshot.Walk.{walk, walk-drop, points}
use eyle.Snapshot.Release.{materialize-release}
use eyle.Snapshot.Paging.{page_items}
use eyle.Value.{Fields, Value, arr, field, cons, obj, end, num, bool, nil}
use eyle.Snapshot.Reachable.{Op, after, apply, register, release, empty_ledger, never_lost}
use eyle.Snapshot.Materialize.{
  materialize_snapshot_handle, release_snapshot_handle, snapshot_not_found,
}
use eyle.Snapshot.Handles.{
  Handle, Ledger, Snapshot, item_list, register_snapshot_handle, kind_of, snapshot_key,
  store_snapshot, register_handle_for_snapshot, handle_id, page_size_of,
}
use eyle.Base.Dict.{get, enter}
use mathlib.Core.Path.{refl}
use eyle.Base.{String, ◌∷◌, [], ◌≡◌, some, ◌≢◌, inr, true, arith}

abbrev no_hash : Value → String
no_hash v = "0123456789abcdef0123"

abbrev three_items : Value
three_items = arr (cons (num 1) (cons (num 2) (cons (num 3) nil)))

abbrev one_handle : Op
one_handle = register "files" three_items 1 "project" "all files" 2 0

abbrev ledger : Ledger
ledger = after no_hash (one_handle ∷ []) empty_ledger

abbrev first : String
first = "handle:files:0123456789abcdef"

abbrev first_handle : Handle
first_handle = record {
  id = first;
  kind = "files";
  snapshot_id = "snap:files:0123456789abcdef";
  reality_epoch = 1;
  source_capability = "project";
  description = "all files";
  page_size = 2;
  offset = 0;
}

abbrev first_snapshot : Snapshot
first_snapshot = record {
  id = "snap:files:0123456789abcdef";
  kind = "files";
  payload = three_items;
  reality_epoch = 1;
  source_capability = "project";
  description = "all files";
}

-- Two handles of one snapshot.
abbrev two_handles : Ledger
two_handles = record {
  handles = (first, first_handle) ∷ ("other", first_handle) ∷ [];
  snapshots = ("snap:files:0123456789abcdef", first_snapshot) ∷ [];
}

ledger_has : ledger ≡ record {
  handles = (first, first_handle) ∷ [];
  snapshots = (first_snapshot.id, first_snapshot) ∷ [];
}
unfolding after apply register_snapshot_handle kind_of strip snapshot_key store_snapshot get enter
    register_handle_for_snapshot handle_id crop page_size_of lstrip rstrip is_space
ledger_has = refl

never_lost_example :
    (materialize_snapshot_handle no_hash
      (after no_hash (one_handle ∷ release first ∷ []) empty_ledger)
      first
      1).1
    ≢ inr snapshot_not_found
never_lost_example = never_lost no_hash (one_handle ∷ release first ∷ []) first 1

materialize-release_example :
    (materialize_snapshot_handle no_hash (release_snapshot_handle two_handles first) "other" 1).1
    ≡ (materialize_snapshot_handle no_hash two_handles "other" 1).1
unfolding get
materialize-release_example =
    materialize-release no_hash two_handles first "other" 1 first_handle refl refl

walk-drop_example : walk no_hash 4 two_handles first 1 ≡ some (num 1 ∷ num 2 ∷ num 3 ∷ [])
unfolding get page_items item_list
walk-drop_example =
    walk-drop no_hash 4 two_handles first 1 (num 1 ∷ num 2 ∷ num 3 ∷ []) 0
      (points first first_handle first_snapshot refl refl refl refl refl) (omega arith)

abbrev some_coverage : Fields
some_coverage = field "scope" (obj end) (
    field "examined" (obj end)
      (field "complete" (bool true) (field "boundaries" (arr (cons (obj end) nil)) end)))
