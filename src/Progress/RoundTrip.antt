-- ===== src/Progress/RoundTrip.antt =====
-- eyle/runtime/execution_progress.py: a state that is saved and loaded behaves as before.
use eyle.Value.{obj, has_key, keys_within, lookup}
use eyle.Progress.Stable.{text_le}
use eyle.Progress.Saved.{
  field_counts, from_dict, insert_count, insert_text, item_texts, sort_counts, sort_texts,
  count_fields, from_fields, text_items, to_dict, has_all,
}
use eyle.Progress.Detector.{ExecutionProgress}
use mathlib.Core.Path.{refl}
use eyle.Base.Dict.{Dict, get, member}
use eyle.Base.{
  ℕ, String, List, ◌≡◌, if◌then◌else◌, some, str_eq, true, ◌∷◌, Bool-cases, [], arith, ◌||◌, inl,
  inr, false, eq_iff,
}

text_le_refl : (s : String) → text_le s s ≡ true
unfolding text_le
text_le_refl String.[] = refl
text_le_refl (String.◌∷◌ c s) = ground (arith, text_le_refl s)

member-insert :
    (j s : String) (l : List String) → member j (insert_text s l) ≡ (str_eq s j || member j l)
unfolding member insert_text
member-insert j s [] = refl
member-insert j s (t ∷ l) = ground (arith, member-insert j s l)

member-sort : (j : String) (l : List String) → member j (sort_texts l) ≡ member j l
unfolding sort_texts member
member-sort j [] = refl
member-sort j (s ∷ l) = rw (member-insert j s (sort_texts l), member-sort j l) refl

text_le_differs : (k i : String) → text_le k i ≡ false → str_eq k i ≡ false
text_le_differs k i after = elim (Bool-cases (str_eq k i)) [
  | inl same ↦
      let is : k ≡ i = ground (arith, eq_iff k i) in
      let e : text_le i i ≡ false = rw is at after in ground (arith, e, text_le_refl i)
  | inr differ ↦ differ
]

get-insert :
    (j k : String) (n : ℕ) (d : Dict ℕ)
    → get j (insert_count k n d) ≡ (if str_eq k j then some n else get j d)
unfolding get insert_count
get-insert j k n [] = refl
get-insert j k n ((i, m) ∷ d) = elim (Bool-cases (text_le k i)) [
  | inl before ↦ rw before refl
  | inr after ↦
      let differ : str_eq k i ≡ false = text_le_differs k i after in
      ground (arith, after, get-insert j k n d, eq_iff k i, eq_iff k j, eq_iff i j)
]

get-sort : (j : String) (d : Dict ℕ) → get j (sort_counts d) ≡ get j d
unfolding sort_counts get
get-sort j [] = refl
get-sort j ((k, n) ∷ d) = rw (get-insert j k n (sort_counts d), get-sort j d) refl

item_texts-text_items : (l : List String) → item_texts (text_items l) ≡ some l
unfolding item_texts text_items
item_texts-text_items [] = refl
item_texts-text_items (s ∷ l) = rw (item_texts-text_items l) refl

field_counts-count_fields : (d : Dict ℕ) → field_counts (count_fields d) ≡ some d
unfolding field_counts count_fields
field_counts-count_fields [] = refl
field_counts-count_fields ((k, n) ∷ d) = rw (field_counts-count_fields d) refl

sorted : ExecutionProgress → ExecutionProgress
sorted p = record p {
  seen_result_fingerprints = sort_texts p.seen_result_fingerprints;
  no_progress_counts = sort_counts p.no_progress_counts;
  blocked_actions = sort_counts p.blocked_actions;
  checkpointed_blocks = sort_texts p.checkpointed_blocks;
}

loaded : (p : ExecutionProgress) → from_dict (obj (to_dict p)) ≡ some (sorted p)
unfolding sorted from_dict from_fields to_dict has_all has_key keys_within lookup member
loaded p =
    rw
      (
        item_texts-text_items (sort_texts p.seen_result_fingerprints),
        item_texts-text_items (sort_texts p.checkpointed_blocks),
        field_counts-count_fields (sort_counts p.no_progress_counts),
        field_counts-count_fields (sort_counts p.blocked_actions),
      )
      refl

-- The two states have the same sets and the same counts.
pub data Same (p q : ExecutionProgress) : Type 0 where
  same :
      ((k : String) → member k q.seen_result_fingerprints ≡ member k p.seen_result_fingerprints)
      → ((k : String) → member k q.checkpointed_blocks ≡ member k p.checkpointed_blocks)
      → ((k : String) → get k q.no_progress_counts ≡ get k p.no_progress_counts)
      → ((k : String) → get k q.blocked_actions ≡ get k p.blocked_actions)
      → (record q {
        seen_result_fingerprints = p.seen_result_fingerprints;
        checkpointed_blocks = p.checkpointed_blocks;
        no_progress_counts = p.no_progress_counts;
        blocked_actions = p.blocked_actions;
      })
        ≡ p
      → Same p q

-- A state that is written by `to_dict` is accepted by `from_dict`, which gives a state with the same
-- fingerprints, counts, blocks and totals.
pub from_dict-to_dict :
    (p : ExecutionProgress)
    → (q : ExecutionProgress) × (from_dict (obj (to_dict p)) ≡ some q) × Same p q
unfolding sorted
from_dict-to_dict p = (
  sorted p,
  loaded p,
  same (λ k. member-sort k p.seen_result_fingerprints) (λ k. member-sort k p.checkpointed_blocks)
      (λ k. get-sort k p.no_progress_counts) (λ k. get-sort k p.blocked_actions) refl,
)
