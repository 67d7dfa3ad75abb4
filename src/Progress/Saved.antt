-- ===== src/Progress/Saved.antt =====
-- eyle/runtime/execution_progress.py: `to_dict` and `from_dict`, by which the state is saved with its
-- session. A set is a list of which only the members matter.
use eyle.Progress.Stable.{text_le}
use eyle.Value.{
  Fields, Items, Value, end, field, nil, arr, bool, cons, num, obj, has_key, null, text,
  keys_within, lookup,
}
use eyle.Progress.Detector.{ExecutionProgress, fresh}
use eyle.Base.Dict.{Dict}
use eyle.Base.{ℕ, List, Option, String, Bool, if◌then◌else◌, some, ◌∷◌, [], none, not, true, ◌&&◌}

-- `sorted` of texts, and of the items of a dict with text keys, by insertion.
unfoldable pub insert_text : String → List String → List String
insert_text s [] = s ∷ []
insert_text s (t ∷ l) = let rest = insert_text s l in if text_le s t then s ∷ t ∷ l else t ∷ rest

unfoldable pub sort_texts : List String → List String
sort_texts [] = []
sort_texts (s ∷ l) = insert_text s (sort_texts l)

unfoldable pub insert_count : String → ℕ → Dict ℕ → Dict ℕ
insert_count k n [] = (k, n) ∷ []
insert_count k n ((j, m) ∷ d) =
    let rest = insert_count k n d in if text_le k j then (k, n) ∷ (j, m) ∷ d else (j, m) ∷ rest

unfoldable pub sort_counts : Dict ℕ → Dict ℕ
sort_counts [] = []
sort_counts ((k, n) ∷ d) = insert_count k n (sort_counts d)

unfoldable pub text_items : List String → Items
text_items [] = nil
text_items (s ∷ l) = cons (text s) (text_items l)

unfoldable pub count_fields : Dict ℕ → Fields
count_fields [] = end
count_fields ((k, n) ∷ d) = field k (num n) (count_fields d)

unfoldable pub to_dict : ExecutionProgress → Fields
to_dict p =
    field "seen_result_fingerprints" (arr (text_items (sort_texts p.seen_result_fingerprints))) (
      field "no_progress_counts" (obj (count_fields (sort_counts p.no_progress_counts))) (
        field "blocked_actions" (obj (count_fields (sort_counts p.blocked_actions))) (
          field "checkpointed_blocks" (arr (text_items (sort_texts p.checkpointed_blocks))) (
            field "operations_since_task_state_progress"
              (num p.operations_since_task_state_progress)
              (field "provider_tokens_at_last_task_state_progress"
                (num p.provider_tokens_at_last_task_state_progress)
                (field "provider_tokens_latest" (num p.provider_tokens_latest) (
                  field "fixed_points_blocked_total" (num p.fixed_points_blocked_total) (
                    field "coverage_advanced_since_task_state_progress"
                      (bool p.coverage_advanced_since_task_state_progress)
                      (field "physical_mutations_since_task_state_progress"
                        (num p.physical_mutations_since_task_state_progress) end)))))))))

abbrev pub expected : List String
expected =
    "seen_result_fingerprints" ∷ "no_progress_counts" ∷ "blocked_actions" ∷ "checkpointed_blocks"
    ∷ "operations_since_task_state_progress" ∷ "provider_tokens_at_last_task_state_progress"
    ∷ "provider_tokens_latest" ∷ "fixed_points_blocked_total"
    ∷ "coverage_advanced_since_task_state_progress" ∷ "physical_mutations_since_task_state_progress"
    ∷ []

unfoldable pub has_all : List String → Fields → Bool
has_all [] d = true
has_all (k ∷ ks) d = has_key k d && has_all ks d

abbrev pub with_value {ℓ κ} : {A : Type ℓ} {B : Type κ} → Option A → (A → Option B) → Option B
with_value none f = none
with_value (some a) f = f a

abbrev pub push_text : String → Option (List String) → Option (List String)
push_text s none = none
push_text s (some l) = some (s ∷ l)

unfoldable pub item_texts : Items → Option (List String)
item_texts nil = some []
item_texts (cons (text s) xs) = push_text s (item_texts xs)
item_texts (cons null xs) = none
item_texts (cons _ xs) = none

abbrev pub texts_of : Option Value → Option (List String)
texts_of (some (arr xs)) = item_texts xs
texts_of _ = none

abbrev pub push_count : String → ℕ → Option (Dict ℕ) → Option (Dict ℕ)
push_count k n none = none
push_count k n (some d) = some ((k, n) ∷ d)

-- A bool is an int there.
unfoldable pub field_counts : Fields → Option (Dict ℕ)
field_counts end = some []
field_counts (field k (num n) d) = push_count k n (field_counts d)
field_counts (field k (bool b) d) = push_count k (if b then 1 else 0) (field_counts d)
field_counts (field k null d) = none
field_counts (field k _ d) = none

abbrev pub counts_of : Option Value → Option (Dict ℕ)
counts_of (some (obj d)) = field_counts d
counts_of _ = none

abbrev pub nat_of : Option Value → Option ℕ
nat_of (some (num n)) = some n
nat_of _ = none

abbrev pub bool_of : Option Value → Option Bool
bool_of (some (bool b)) = some b
bool_of _ = none

-- `from_dict` of a dict that is not empty.
unfoldable pub from_fields : Fields → Option ExecutionProgress
from_fields d =
    if not (has_all expected d && keys_within expected d)
    then none
    else with_value (texts_of (lookup "seen_result_fingerprints" d)) (λ seen.
      with_value (texts_of (lookup "checkpointed_blocks" d)) (λ checkpointed.
        with_value (counts_of (lookup "no_progress_counts" d)) (λ counts.
          with_value (counts_of (lookup "blocked_actions" d)) (λ blocked.
            with_value (nat_of (lookup "operations_since_task_state_progress" d)) (λ operations.
              with_value (nat_of (lookup "provider_tokens_at_last_task_state_progress" d))
                (λ baseline. with_value (nat_of (lookup "provider_tokens_latest" d)) (λ latest.
                  with_value (nat_of (lookup "fixed_points_blocked_total" d)) (λ total.
                    with_value (nat_of (lookup "physical_mutations_since_task_state_progress" d))
                      (λ mutations.
                        with_value
                          (bool_of (lookup "coverage_advanced_since_task_state_progress" d))
                          (λ advanced. some (record {
                            seen_result_fingerprints = seen;
                            no_progress_counts = counts;
                            blocked_actions = blocked;
                            checkpointed_blocks = checkpointed;
                            operations_since_task_state_progress = operations;
                            provider_tokens_at_last_task_state_progress = baseline;
                            provider_tokens_latest = latest;
                            fixed_points_blocked_total = total;
                            coverage_advanced_since_task_state_progress = advanced;
                            physical_mutations_since_task_state_progress = mutations;
                          })))))))))))

-- `none` stands for the ValueError.
unfoldable pub from_dict : Value → Option ExecutionProgress
from_dict null = some fresh
from_dict (obj end) = some fresh
from_dict (obj (field k v d)) = from_fields (field k v d)
from_dict _ = none
