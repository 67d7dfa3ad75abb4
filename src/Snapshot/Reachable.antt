-- ===== src/Snapshot/Reachable.antt =====
-- eyle/contracts/observation.py: the ledgers that the operations make.
use eyle.Base.Text.{crop}
use eyle.Base.Dict.{get}
use eyle.Snapshot.Resolves.{
  Resolves, release-Resolves, register-Resolves, none-Resolves, store_snapshot-get,
  store_snapshot-Resolves, Resolves-found,
}
use eyle.Snapshot.Materialize.{
  continue_with, materialize_snapshot_handle, materialize_page, release_snapshot_handle,
  snapshot_not_found, or_text,
}
use eyle.Value.{Value}
use eyle.Snapshot.Handles.{
  Ledger, register_snapshot_handle, Handle, Page, Snapshot, paged_payload, page_size_of, kind_of,
  snapshot_key, store_snapshot,
}
use eyle.Base.{
  ℕ, String, List, [], ◌∷◌, ◌≢◌, inr, Option-cases, ◌≡◌, inl, some, Bool-cases, arith, leb, not,
  ◌==◌,
}

pub data Op : Type 0 where
  register :
      (kind : String) (payload : Value) (epoch : ℕ) (source_capability description : String)
      (page_size offset : ℕ)
      → Op
  materialize : (handle_id : String) (epoch : ℕ) → Op
  release : (handle_id : String) → Op

unfoldable pub apply : (Value → String) → Op → Ledger → Ledger
apply json_hash (register kind payload epoch source description size offset) l =
    (register_snapshot_handle json_hash l kind payload epoch source description size offset).0
apply json_hash (materialize id epoch) l = (materialize_snapshot_handle json_hash l id epoch).0
apply json_hash (release id) l = release_snapshot_handle l id

unfoldable pub after : (Value → String) → List Op → Ledger → Ledger
after json_hash [] l = l
after json_hash (o ∷ os) l = after json_hash os (apply json_hash o l)

abbrev pub empty_ledger : Ledger
empty_ledger = record { handles = []; snapshots = [] }

module _ (json_hash : Value → String) where
  continue-Resolves :
      (l : Ledger) (h : Handle) (epoch : ℕ) (p : Page) (s : Snapshot)
      → get h.snapshot_id l.snapshots ≡ some s
      → Resolves l
      → Resolves (continue_with json_hash l h epoch p).0
  unfolding continue_with
  continue-Resolves l h epoch p s there r = elim (Bool-cases (leb p.total p.stop)) [
    | inl done ↦ rw done r
    | inr more ↦ rw more (
        register-Resolves json_hash l h.snapshot_id (or_text h.kind "continuation") epoch
          h.source_capability h.description (page_size_of h.page_size) p.stop s there r)
  ]

  -- A handle that is in the ledger finds its snapshot, and the ledger stays one where all do.
  pub materialize-Resolves :
      (l : Ledger) (id : String) (epoch : ℕ)
      → Resolves l
      → Resolves (materialize_snapshot_handle json_hash l id epoch).0
        × ((materialize_snapshot_handle json_hash l id epoch).1 ≢ inr snapshot_not_found)
  unfolding materialize_snapshot_handle materialize_page
  materialize-Resolves l id epoch r = elim (Option-cases (get id l.handles)) [
    | inl absent ↦ rw (absent, materialize_snapshot_handle) (r, λ e. ground arith)
    | inr (h, present) ↦ elim (Bool-cases (not (h.reality_epoch == epoch))) [
      | inl stale ↦ rw (present, stale, materialize_snapshot_handle) (r, λ e. ground arith)
      | inr fresh ↦
          let (s, there) = Resolves-found l id h r present in
          elim (Bool-cases (not (s.reality_epoch == epoch))) [
            | inl stale ↦
                rw (present, fresh, there, stale, materialize_snapshot_handle)
                  (r, λ e. ground arith)
            | inr ok ↦
                rw (present, fresh, there, ok, materialize_snapshot_handle)
                  (
                    continue-Resolves l h epoch (paged_payload s.payload h.offset h.page_size) s
                        there r,
                    λ e. ground arith,
                  )
          ]
    ]
  ]

  apply-Resolves : (o : Op) (l : Ledger) → Resolves l → Resolves (apply json_hash o l)
  unfolding apply register_snapshot_handle
  apply-Resolves (register kind payload epoch source description size offset) l r =
      let k = kind_of kind in
      let s : Snapshot = record {
        id = snapshot_key json_hash k payload epoch source;
        kind = k;
        payload = payload;
        reality_epoch = epoch;
        source_capability = source;
        description = crop 240 description;
      } in
      let (t, there) = store_snapshot-get l s in
      register-Resolves json_hash (store_snapshot l s) s.id k epoch source description
        (page_size_of size) offset t there (store_snapshot-Resolves l s r)
  apply-Resolves (materialize id epoch) l r = (materialize-Resolves l id epoch r).0
  apply-Resolves (release id) l r = release-Resolves l id r

  after-Resolves : (os : List Op) (l : Ledger) → Resolves l → Resolves (after json_hash os l)
  unfolding after
  after-Resolves [] l r = r
  after-Resolves (o ∷ os) l r = after-Resolves os (apply json_hash o l) (apply-Resolves o l r)

  -- Whatever snapshots are registered, pages taken and handles released, and in whatever order: a
  -- handle that has not been released finds its snapshot, so taking its page never fails with
  -- SNAPSHOT_NOT_FOUND. (Also where hashes collide.)
  pub never_lost :
      (os : List Op) (id : String) (epoch : ℕ)
      → (materialize_snapshot_handle json_hash (after json_hash os empty_ledger) id epoch).1
        ≢ inr snapshot_not_found
  never_lost os id epoch =
      (materialize-Resolves (after json_hash os empty_ledger) id epoch
        (after-Resolves os empty_ledger none-Resolves)).1
