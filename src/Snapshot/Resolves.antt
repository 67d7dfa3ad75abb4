-- ===== src/Snapshot/Resolves.antt =====
-- eyle/contracts/observation.py: no handle loses its snapshot.
use eyle.Value.{Value}
use eyle.Snapshot.Materialize.{collect, referenced, release_snapshot_handle}
use eyle.Snapshot.Handles.{
  Ledger, Handle, store_snapshot, Snapshot, register_handle_for_snapshot, handle_id,
}
use eyle.Base.Dict.{get, values, Dict, and-false, get-enter, or-true, get-pop, pop}
use text.Mathlib.TextPositions.{eq_refl}
use eyle.Base.{
  ℕ, [], ◌∷◌, String, ◌≡◌, some, true, arith, Bool-cases, is_none, str_eq, inl, eq_iff, inr,
  Option-cases, not, ◌&&◌, Option, refl, subst, ap, false, none,
}

-- Each handle's snapshot is in the store.
pub Resolves : Ledger → Type 0
Resolves l =
    (id : String) (h : Handle)
    → get id l.handles ≡ some h
    → (s : Snapshot) × (get h.snapshot_id l.snapshots ≡ some s)

referenced-get :
    (id : String) (h : Handle) (d : Dict Handle)
    → get id d ≡ some h
    → referenced h.snapshot_id d ≡ true
unfolding get referenced values
referenced-get id h [] e = ground arith
referenced-get id h ((j, k) ∷ d) e = elim (Bool-cases (str_eq j id)) [
  | inl same ↦ let is_h : k ≡ h = ground (arith, e, same) in rw (is_h, eq_refl h.snapshot_id)
  | inr other ↦
      let there : get id d ≡ some h = rw other at e in
      rw (referenced-get id h d there, or-true (str_eq k.snapshot_id h.snapshot_id))
]

-- A handle that is left finds what it found before.
pub collect-get :
    (l : Ledger) (k j : String) (h : Handle)
    → get j l.handles ≡ some h
    → get h.snapshot_id (collect l k).snapshots ≡ get h.snapshot_id l.snapshots
unfolding collect
collect-get l k j h e = elim (Bool-cases (str_eq k h.snapshot_id)) [
  | inl same ↦
      let is_k : k ≡ h.snapshot_id = ground (arith, eq_iff k h.snapshot_id) in
      rw (is_k, referenced-get j h l.handles e, and-false (not (str_eq h.snapshot_id "")))
  | inr other ↦ elim (Bool-cases (not (str_eq k "") && not (referenced k l.handles))) [
    | inl drop ↦ rw (drop, get-pop, other)
    | inr keep ↦ rw keep
  ]
]

pub store_snapshot-Resolves :
    (l : Ledger) (s : Snapshot) → Resolves l → Resolves (store_snapshot l s)
unfolding Resolves store_snapshot
store_snapshot-Resolves l s r = elim (Bool-cases (is_none (get s.id l.snapshots))) [
  | inl new ↦ rw new (λ id h e. elim (Bool-cases (str_eq s.id h.snapshot_id)) [
    | inl same ↦ (s, rw (get-enter, same))
    | inr other ↦ let (t, there) = r id h e in (t, rw (get-enter, other, there))
  ])
  | inr old ↦ rw old r
]

pub store_snapshot-get :
    (l : Ledger) (s : Snapshot)
    → (t : Snapshot) × (get s.id (store_snapshot l s).snapshots ≡ some t)
unfolding store_snapshot
store_snapshot-get l s = elim (Option-cases (get s.id l.snapshots)) [
  | inl new ↦ (s, rw (new, get-enter, eq_refl s.id))
  | inr (t, old) ↦ (t, rw (old, old))
]

snapshot_of : Option Handle → String
snapshot_of none = ""
snapshot_of (some h) = h.snapshot_id

-- A new handle for a snapshot that is in the store.
pub register-Resolves :
    (json_hash : Value → String) (l : Ledger) (snapshot_id kind : String) (epoch : ℕ)
    (source_capability description : String) (size offset : ℕ) (s : Snapshot)
    → get snapshot_id l.snapshots ≡ some s
    → Resolves l
    → Resolves
        (register_handle_for_snapshot json_hash l snapshot_id kind epoch source_capability
          description size offset).0
unfolding Resolves register_handle_for_snapshot snapshot_of
register-Resolves json_hash l snapshot_id kind epoch source description size offset s there r id h
      e =
    elim (Bool-cases (str_eq (handle_id json_hash kind snapshot_id epoch offset size) id)) [
      | inl same ↦
          let new = rw (get-enter, same) at e in
          (s, subst (λ k. get k l.snapshots ≡ some s) (ap snapshot_of new) there)
      | inr other ↦ let old = rw (get-enter, other) at e in r id h old
    ]

pub collect-handles : (l : Ledger) (k : String) → (collect l k).handles ≡ l.handles
unfolding collect
collect-handles l k = elim (Bool-cases (not (str_eq k "") && not (referenced k l.handles))) [
  | inl drop ↦ rw drop refl
  | inr keep ↦ rw keep refl
]

pub left-by-pop :
    (i j : String) (h : Handle) (d : Dict Handle)
    → get j (pop i d) ≡ some h
    → (str_eq i j ≡ false) × (get j d ≡ some h)
left-by-pop i j h d e = ground (arith, get-pop j i d)

pub release-Resolves :
    (l : Ledger) (id : String) → Resolves l → Resolves (release_snapshot_handle l id)
unfolding Resolves release_snapshot_handle
release-Resolves l id r j h e = elim (Option-cases (get id l.handles)) [
  | inl absent ↦
      let same : release_snapshot_handle l id ≡ l = rw (absent, release_snapshot_handle) refl in
      rw same (r j h (rw same at e))
  | inr (g, present) ↦
      let l' : Ledger = record l { handles = pop id l.handles } in
      let same : release_snapshot_handle l id ≡ collect l' g.snapshot_id =
        rw (present, release_snapshot_handle) refl in
      let e' : get j (pop id l.handles) ≡ some h =
        rw (same, collect-handles l' g.snapshot_id) at e in
      let (other, old) = left-by-pop id j h l.handles e' in
      let (s, there) = r j h old in (s, rw (same, collect-get l' g.snapshot_id j h e', there))
]

pub none-Resolves : Resolves (record { handles = []; snapshots = [] })
unfolding Resolves get
none-Resolves id h e = ground arith

pub Resolves-found :
    (l : Ledger) (id : String) (h : Handle)
    → Resolves l
    → get id l.handles ≡ some h
    → (s : Snapshot) × (get h.snapshot_id l.snapshots ≡ some s)
unfolding Resolves
Resolves-found l id h r e = r id h e
