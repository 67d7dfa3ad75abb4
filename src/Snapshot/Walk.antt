-- ===== src/Snapshot/Walk.antt =====
-- eyle/contracts/observation.py: a client that follows the handles gets each item once.
use eyle.Base.Text.{crop}
use mathlib.Core.Path.{refl}
use text.Mathlib.TextPositions.{eq_refl}
use eyle.Snapshot.Paging.{page_items, drop-drop, take-all, drop-past, paged_payload-IsPage}
use eyle.Snapshot.Materialize.{
  materialize_snapshot_handle, materialize_page, continue_with, Reply, or_text,
}
use eyle.Base.Dict.{get, get-enter}
use eyle.Snapshot.Handles.{
  Ledger, slice, Handle, Snapshot, Page, paged_payload, page_size_of, register_handle_for_snapshot,
  handle_id,
}
use eyle.Value.{Value}
use eyle.Base.{
  ℕ, List, Option, String, ◌≡◌, ◌≤◌, min, length, none, ◌++◌, drop, suc, ◌+◌, inr, some, ◌==◌, true,
  Bool-cases, inl, leb, zero, ◌-◌, arith, ◌<◌, ap, length-drop, sym, ◌∙◌, [], take-append-drop,
  ==_refl, false,
}

abbrev pub join : Option (List Value) → Option (List Value) → Option (List Value)
join (some xs) (some ys) = some (xs ++ ys)
join _ _ = none

abbrev pub follow : (Ledger → String → Option (List Value)) → Reply → Option (List Value)
follow next (l, inr e) = none
follow next (l, inl m) = elim (m.frontiers) [
  | none ↦ page_items m.payload
  | some f ↦ join (page_items m.payload) (next l f.handle)
]

-- A client that takes the page of a handle and goes on with the handle of its frontier; `none` if an
-- exchange fails, a page has no items list, or the fuel ends.
unfoldable pub walk : (Value → String) → ℕ → Ledger → String → ℕ → Option (List Value)
walk json_hash zero l id epoch = none
walk json_hash (suc n) l id epoch =
    follow (λ l' next. walk json_hash n l' next epoch)
      (materialize_snapshot_handle json_hash l id epoch)

slice-last :
    (offset size : ℕ) (xs : List Value) (start stop : ℕ)
    → start ≡ min offset (length xs)
    → stop ≡ min (length xs) (start + size)
    → length xs ≤ stop
    → slice start stop xs ≡ drop offset xs
slice-last offset size xs start stop e f h = elim (Bool-cases (leb offset (length xs))) [
  | inl within ↦
      let e' : start ≡ offset = ground arith in
      take-all (stop - start) (drop start xs) (omega (arith, length-drop start xs))
      ∙ ap (λ k. drop k xs) e'
  | inr past ↦
      let none_left : drop start xs ≡ [] = drop-past start xs (ground arith) in
      take-all (stop - start) (drop start xs) (omega (arith, length-drop start xs))
      ∙ none_left
      ∙ sym (drop-past offset xs (ground arith))
]

slice-next :
    (start stop : ℕ) (xs : List Value)
    → start ≤ stop
    → slice start stop xs ++ drop stop xs ≡ drop start xs
slice-next start stop xs h =
    let split = drop-drop start (stop - start) xs in
    let same : start + (stop - start) ≡ stop = omega arith in
    let there : drop stop xs ≡ drop (stop - start) (drop start xs) =
      ap (λ k. drop k xs) (sym same) ∙ sym split in
    rw there (take-append-drop (stop - start) (drop start xs))

-- A handle in the ledger, of the epoch and with its snapshot, and the items from its offset on.
pub data Points (l : Ledger) (epoch : ℕ) (xs : List Value) : String → ℕ → Type 0 where
  points :
      (id : String) (h : Handle) (s : Snapshot)
      → get id l.handles ≡ some h
      → get h.snapshot_id l.snapshots ≡ some s
      → (h.reality_epoch == epoch) ≡ true
      → (s.reality_epoch == epoch) ≡ true
      → page_items s.payload ≡ some xs
      → Points l epoch xs id h.offset

-- The page of such a handle, and the ledger and frontier after it.
step :
    (json_hash : Value → String) (l : Ledger) (id : String) (epoch : ℕ) (h : Handle) (s : Snapshot)
    → get id l.handles ≡ some h
    → get h.snapshot_id l.snapshots ≡ some s
    → (h.reality_epoch == epoch) ≡ true
    → (s.reality_epoch == epoch) ≡ true
    → materialize_snapshot_handle json_hash l id epoch ≡ materialize_page json_hash l id epoch h s
unfolding materialize_snapshot_handle
step json_hash l id epoch h s a b c d = rw (a, c, b, d, materialize_snapshot_handle) refl

register-Points :
    (json_hash : Value → String) (l : Ledger) (snapshot_id kind : String) (epoch : ℕ)
    (source description : String) (size offset : ℕ) (s : Snapshot) (xs : List Value)
    → get snapshot_id l.snapshots ≡ some s
    → (s.reality_epoch == epoch) ≡ true
    → page_items s.payload ≡ some xs
    → (let (l', ref) =
          register_handle_for_snapshot json_hash l snapshot_id kind epoch source description size
            offset in
        Points l' epoch xs ref.id offset)
unfolding register_handle_for_snapshot
register-Points json_hash l snapshot_id kind epoch source description size offset s xs b d e =
    let id = handle_id json_hash kind snapshot_id epoch offset size in
    let h : Handle = record {
      id = id;
      kind = kind;
      snapshot_id = snapshot_id;
      reality_epoch = epoch;
      source_capability = source;
      description = crop 240 description;
      page_size = size;
      offset = offset;
    } in
    points id h s (rw (get-enter, eq_refl id) refl) b (==_refl epoch) d e

page_size-positive : (n : ℕ) → 0 < page_size_of n
unfolding page_size_of
page_size-positive zero = omega arith
page_size-positive (suc n) = omega arith

-- A client that follows the handles from an offset gets each item from there on, once and in order,
-- with as many exchanges as items are left, or one more.
pub walk-drop :
    (json_hash : Value → String) (fuel : ℕ) (l : Ledger) (id : String) (epoch : ℕ) (xs : List Value)
    (offset : ℕ)
    → Points l epoch xs id offset
    → length xs - offset < fuel
    → walk json_hash fuel l id epoch ≡ some (drop offset xs)
unfolding walk materialize_page continue_with
walk-drop json_hash zero l id epoch xs offset p e = ground arith
walk-drop json_hash (suc n) l id epoch xs _ (points _ h s a b c d e) f =
    let (body, first, last, size) = paged_payload-IsPage s.payload xs h.offset h.page_size e in
    let p : Page = paged_payload s.payload h.offset h.page_size in
    let within : leb p.total p.stop ≡ false → p.start ≡ h.offset = λ more. ground arith in
    elim (Bool-cases (leb p.total p.stop)) [
      | inl done ↦
          let ends =
            slice-last h.offset (page_size_of h.page_size) xs p.start p.stop first last
              (ground arith) in
          rw (step json_hash l id epoch h s a b c d, done) (body ∙ ap some ends)
      | inr more ↦
          rw (step json_hash l id epoch h s a b c d, more, body)
            (rw
              (walk-drop json_hash n _ _ epoch xs p.stop
                (register-Points json_hash l h.snapshot_id (or_text h.kind "continuation") epoch
                  h.source_capability h.description (page_size_of h.page_size) p.stop s xs b d e)
                (ground (arith, page_size-positive h.page_size)))
              (ap some
                (slice-next p.start p.stop xs (ground arith) ∙ ap (λ k. drop k xs) (within more))))
    ]
