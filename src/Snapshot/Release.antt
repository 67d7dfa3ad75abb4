-- ===== src/Snapshot/Release.antt =====
-- eyle/contracts/observation.py: releasing a handle does not disturb the others.
use eyle.Snapshot.Resolves.{collect-handles, collect-get}
use eyle.Base.Dict.{get, pop, get-pop}
use eyle.Snapshot.Materialize.{
  materialize_page, materialize_snapshot_handle, release_snapshot_handle, continue_with, collect,
}
use eyle.Snapshot.Handles.{
  Ledger, Handle, register_handle_for_snapshot, Snapshot, Page, paged_payload,
}
use eyle.Value.{Value}
use mathlib.Core.Path.{refl}
use eyle.Base.{
  ℕ, String, str_eq, ◌≡◌, false, some, Bool-cases, Option-cases, inl, leb, not, inr, ◌==◌,
}

module _ (json_hash : Value → String) where
  -- The page depends on the handle and its snapshot only.
  page-answer :
      (l m : Ledger) (id : String) (epoch : ℕ) (h : Handle) (s : Snapshot)
      → (materialize_page json_hash l id epoch h s).1
        ≡ (materialize_page json_hash m id epoch h s).1
  unfolding materialize_page continue_with register_handle_for_snapshot
  page-answer l m id epoch h s =
      let p : Page = paged_payload s.payload h.offset h.page_size in
      elim (Bool-cases (leb p.total p.stop)) [ inl done ↦ rw done refl | inr more ↦ rw more refl ]

  answer-same :
      (l m : Ledger) (id : String) (epoch : ℕ) (h : Handle)
      → get id l.handles ≡ some h
      → get id m.handles ≡ some h
      → get h.snapshot_id m.snapshots ≡ get h.snapshot_id l.snapshots
      → (materialize_snapshot_handle json_hash m id epoch).1
        ≡ (materialize_snapshot_handle json_hash l id epoch).1
  unfolding materialize_snapshot_handle
  answer-same l m id epoch h a b c = elim (Bool-cases (not (h.reality_epoch == epoch))) [
    | inl stale ↦ rw (a, b, stale, materialize_snapshot_handle) refl
    | inr fresh ↦ elim (Option-cases (get h.snapshot_id l.snapshots)) [
      | inl absent ↦ rw (a, b, fresh, c, absent, materialize_snapshot_handle) refl
      | inr (s, there) ↦ elim (Bool-cases (not (s.reality_epoch == epoch))) [
        | inl stale ↦ rw (a, b, fresh, c, there, stale, materialize_snapshot_handle) refl
        | inr ok ↦
            rw (a, b, fresh, c, there, ok, materialize_snapshot_handle)
              (page-answer m l id epoch h s)
      ]
    ]
  ]

  -- Releasing a handle, with the snapshot that no other handle points at, changes no answer that
  -- another handle gets.
  pub materialize-release :
      (l : Ledger) (id j : String) (epoch : ℕ) (h : Handle)
      → str_eq id j ≡ false
      → get j l.handles ≡ some h
      → (materialize_snapshot_handle json_hash (release_snapshot_handle l id) j epoch).1
        ≡ (materialize_snapshot_handle json_hash l j epoch).1
  unfolding release_snapshot_handle
  materialize-release l id j epoch h other there = elim (Option-cases (get id l.handles)) [
    | inl absent ↦ rw (absent, release_snapshot_handle) refl
    | inr (g, present) ↦
        let l' : Ledger = record l { handles = pop id l.handles } in
        let same : release_snapshot_handle l id ≡ collect l' g.snapshot_id =
          rw (present, release_snapshot_handle) refl in
        let kept : get j l'.handles ≡ some h = rw (get-pop, other, there) refl in
        rw same (
          answer-same l (collect l' g.snapshot_id) j epoch h there
            (rw (collect-handles l' g.snapshot_id) kept) (collect-get l' g.snapshot_id j h kept))
  ]
