-- ===== src/Progress/Stable.antt =====
-- eyle/runtime/execution_progress.py: `_stable_value`, a result without its navigation identities.
use eyle.Value.{
  Fields, Value, field, obj, arr, lookup, bool, end, num, text, neg, float, instant, Items, cons,
  null, nil,
}
use Prim.Native.Char.{code}
use eyle.Base.{String, Bool, if◌then◌else◌, str_eq, true, false, some, ◌||◌, ltb, ◌&&◌, not}

-- Texts in the order of their code points, as Python compares them.
unfoldable pub text_le : String → String → Bool
text_le String.[] t = true
text_le (String.◌∷◌ c s) String.[] = false
text_le (String.◌∷◌ c s) (String.◌∷◌ d t) =
    let rest = text_le s t in
    if ltb (code c) (code d) then true else if ltb (code d) (code c) then false else rest

-- `sorted(value.items(), key=lambda kv: str(kv[0]))`, by insertion; equal keys do not occur.
unfoldable pub insert_field : String → Value → Fields → Fields
insert_field k v end = field k v end
insert_field k v (field j w d) =
    let rest = insert_field k v d in if text_le k j then field k v (field j w d) else field j w rest

-- `_EPHEMERAL_KEYS`, and the identities of a frontier.
unfoldable pub is_ephemeral : String → String → Bool
is_ephemeral parent key =
    str_eq key "handle"
    || str_eq key "snapshot_id"
    || str_eq key "owner_execution_id"
    || (str_eq parent "frontiers" && (str_eq key "id" || str_eq key "frontier_id"))

unfoldable mutual
  pub stable_value : String → Value → Value
  stable_value parent (obj d) = obj (stable_fields parent d)
  stable_value parent (arr xs) = arr (stable_items parent xs)
  stable_value parent null = null
  stable_value parent (bool b) = bool b
  stable_value parent (num n) = num n
  stable_value parent (neg n) = neg n
  stable_value parent (float h) = float h
  stable_value parent (text s) = text s
  stable_value parent (instant t) = instant t

  pub stable_items : String → Items → Items
  stable_items parent nil = nil
  stable_items parent (cons v xs) = cons (stable_value parent v) (stable_items parent xs)

  pub stable_fields : String → Fields → Fields
  stable_fields parent end = end
  stable_fields parent (field key v d) =
      if is_ephemeral parent key
      then stable_fields parent d
      else insert_field key (stable_value key v) (stable_fields parent d)

-- `json.dumps` and SHA-256 are a parameter, the digest of a value.
unfoldable pub stable_fingerprint : (Value → String) → Value → String
stable_fingerprint digest v = digest (stable_value "" v)

-- `_result_can_be_new_information` of a result that is a dict: control facts are not.
unfoldable pub can_be_new : Fields → Bool
can_be_new d = elim (lookup "status" d) [
  | some (text s) ↦ not (
      str_eq s "already_observed" || str_eq s "recovery_required" || str_eq s "fixed_point_blocked")
  | _ ↦ true
]
