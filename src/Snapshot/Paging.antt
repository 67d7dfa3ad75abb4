-- ===== src/Snapshot/Paging.antt =====
-- eyle/contracts/observation.py: a client that follows the handles gets each item once.
use eyle.Value.{Value, arr, obj, lookup, lookup-put}
use eyle.Snapshot.Handles.{
  item_list, paged_payload, from_list, page_of, Page, slice, page_size_of, wrap_list, wrap_items,
}
use eyle.Base.{
  ℕ, List, Option, drop, length, ◌≡◌, ◌≤◌, [], some, take, ◌+◌, ◌∷◌, arith, refl, suc, min, none,
  zero, Option-cases, inl, inr, ap, ◌∙◌, sym,
}

abbrev pub items_of : Option Value → Option (List Value)
items_of (some (arr xs)) = some (item_list xs)
items_of _ = none

-- The items of a payload that is paged by item.
unfoldable pub page_items : Value → Option (List Value)
page_items (arr xs) = items_of (some (arr xs))
page_items (obj d) = items_of (lookup "items" d)
page_items _ = none

item_list-from_list : (xs : List Value) → item_list (from_list xs) ≡ xs
unfolding item_list from_list
item_list-from_list [] = refl
item_list-from_list (v ∷ xs) = rw (item_list-from_list xs)

pub take-all : (n : ℕ) (xs : List Value) → length xs ≤ n → take n xs ≡ xs
take-all zero [] h = refl
take-all zero (x ∷ xs) h = ground arith
take-all (suc n) [] h = refl
take-all (suc n) (x ∷ xs) h = rw (take-all n xs (ground arith))

pub drop-past : (n : ℕ) (xs : List Value) → length xs ≤ n → drop n xs ≡ []
drop-past zero [] h = refl
drop-past zero (x ∷ xs) h = ground arith
drop-past (suc n) [] h = refl
drop-past (suc n) (x ∷ xs) h = drop-past n xs (ground arith)

pub drop-drop : (m n : ℕ) (xs : List Value) → drop n (drop m xs) ≡ drop (m + n) xs
drop-drop zero n xs = ap (λ k. drop k xs) (omega arith)
drop-drop (suc m) n [] = drop-past n [] (omega arith) ∙ sym (drop-past (suc m + n) [] (omega arith))
drop-drop (suc m) n (x ∷ xs) =
    let e : suc (m + n) ≡ suc m + n = omega arith in drop-drop m n xs ∙ ap (λ k. drop k (x ∷ xs)) e

-- The pages end where they should.
abbrev pub IsPage : List Value → ℕ → ℕ → Page → Type 0
IsPage xs offset size p =
    (page_items p.body ≡ some (slice p.start p.stop xs))
    × (p.start ≡ min offset (length xs))
    × (p.stop ≡ min (length xs) (p.start + size))
    × (p.total ≡ length xs)

page_of-IsPage :
    (wrap : List Value → Value) (xs : List Value) (offset size : ℕ)
    → ((ys : List Value) → page_items (wrap ys) ≡ some ys)
    → IsPage xs offset size (page_of wrap xs offset size)
unfolding page_of
page_of-IsPage wrap xs offset size w = (w _, refl, refl, refl)

-- The page of a payload that is paged by item.
pub paged_payload-IsPage :
    (v : Value) (xs : List Value) (offset size : ℕ)
    → page_items v ≡ some xs
    → IsPage xs offset (page_size_of size) (paged_payload v offset size)
unfolding page_items paged_payload
paged_payload-IsPage (arr ys) xs offset size h =
    let same : xs ≡ item_list ys = ground (arith, h) in
    rw same (
      page_of-IsPage wrap_list (item_list ys) offset (page_size_of size)
        (λ zs. rw (item_list-from_list zs)))
paged_payload-IsPage (obj d) xs offset size h = elim (Option-cases (lookup "items" d)) [
  | inl absent ↦ let e = rw absent at h in ground (arith, e)
  | inr (arr ys, is) ↦
      let e = rw is at h in
      let same : xs ≡ item_list ys = ground (arith, e) in
      rw (is, same)
        (page_of-IsPage (wrap_items d) (item_list ys) offset (page_size_of size)
          (λ zs. rw (lookup-put, item_list-from_list zs)))
  | inr (v, is) ↦ let e = rw is at h in ground (arith, e)
]
paged_payload-IsPage _ xs offset size h = ground arith
