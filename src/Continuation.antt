-- ===== src/Continuation.antt =====
-- eyle/runtime/continuation.py: the pending continuations that wait for a person or for a recovery.
-- `valid_state` stands for `validate_execution_continuity_state` of execution_context.py, `casefold`
-- for the method of `str`, and `repr` for what `str` makes of a value that is no text.
pub mod Choice
mod Tests
use eyle.Base.Text.{strip}
use eyle.Base.Dict.{member}
use eyle.Value.{
  Items, Value, Fields, obj, arr, bool, cons, has_key, lookup, num, text, keys_within, nil, null,
}
use eyle.Base.{
  ℕ, Bool, List, Option, String, [], if◌then◌else◌, some, true, ◌∷◌, false, none, not, ◌&&◌, ◌++◌,
  leb, ltb, str_eq, ◌||◌, length, or_else, map,
}

-- The messages of the ValueError.
pub data PendingError : Type 0 where
  schema_invalid schema_incompatible execution_state_invalid : PendingError

pub data Kind : Type 0 where
  capability_confirmation semantic_choice recoverable_execution : Kind

-- `kind in _KIND_FIELDS`, of a kind that can be hashed.
unfoldable pub kind_of : Option Value → Option Kind
kind_of (some (text s)) =
    if str_eq s "capability_confirmation"
    then some capability_confirmation
    else if str_eq s "semantic_choice"
    then some semantic_choice
    else if str_eq s "recoverable_execution"
    then some recoverable_execution
    else none
kind_of _ = none

abbrev pub kind_fields : Kind → List String
kind_fields capability_confirmation = "capability" ∷ "provider" ∷ "confirmation_id" ∷ []
kind_fields semantic_choice = "interaction_id" ∷ "options" ∷ "allow_free_text" ∷ []
kind_fields recoverable_execution = "checkpoint_reason" ∷ "resume_hint" ∷ []

abbrev pub persisted_fields : Bool → Kind → List String
persisted_fields false kind = []
persisted_fields true recoverable_execution =
    "id" ∷ "created_at" ∷ "expires_at" ∷ "provider_identity_hash" ∷ "checkpoint_generation" ∷ []
persisted_fields true kind = "id" ∷ "created_at" ∷ "expires_at" ∷ "provider_identity_hash" ∷ []

unfoldable pub expected : Bool → Kind → List String
expected persisted kind =
    ("pending_schema_version" ∷ "continuation_kind" ∷ "question" ∷ "session" ∷ "execution_state"
      ∷ [])
    ++ kind_fields kind
    ++ persisted_fields persisted kind

unfoldable pub has_all : List String → Fields → Bool
has_all [] d = true
has_all (k ∷ ks) d = has_key k d && has_all ks d

-- `_non_empty_text`
abbrev pub non_empty_text : Option Value → Bool
non_empty_text (some (text s)) = not (str_eq (strip s) "")
non_empty_text _ = false

abbrev pub is_text : String → Option Value → Bool
is_text t (some (text s)) = str_eq s t
is_text t _ = false

abbrev pub is_dict : Option Value → Bool
is_dict (some (obj d)) = true
is_dict _ = false

abbrev pub is_bool : Option Value → Bool
is_bool (some (bool b)) = true
is_bool _ = false

-- `isinstance(v, int) and not isinstance(v, bool) and v >= 1`
abbrev pub is_positive : Option Value → Bool
is_positive (some (num n)) = ltb 0 n
is_positive _ = false

-- `str(item).strip()` of each item.
unfoldable pub option_texts : (Value → String) → Items → List String
option_texts repr nil = []
option_texts repr (cons (text s) xs) = strip s ∷ option_texts repr xs
option_texts repr (cons null xs) = strip (repr null) ∷ option_texts repr xs
option_texts repr (cons v xs) = strip (repr v) ∷ option_texts repr xs

unfoldable pub all_non_empty : Items → Bool
all_non_empty nil = true
all_non_empty (cons v xs) = non_empty_text (some v) && all_non_empty xs

-- `len({...}) == len(...)`
unfoldable pub distinct : List String → Bool
distinct [] = true
distinct (s ∷ l) = not (member s l) && distinct l

-- `identity_hash is None or _non_empty_text(identity_hash)`
abbrev pub hash_ok : Option Value → Bool
hash_ok none = true
hash_ok (some null) = true
hash_ok v = non_empty_text v

abbrev pub lifetime_ok : Kind → Fields → Bool
lifetime_ok recoverable_execution d =
    non_empty_text (lookup "provider_identity_hash" d)
    && is_positive (lookup "checkpoint_generation" d)
lifetime_ok kind d = non_empty_text (lookup "expires_at" d)

unfoldable pub persisted_ok : Kind → Fields → Bool
persisted_ok kind d =
    non_empty_text (lookup "id" d)
    && non_empty_text (lookup "created_at" d)
    && hash_ok (lookup "provider_identity_hash" d)
    && lifetime_ok kind d

abbrev pub check : Bool → PendingError → Option PendingError → Option PendingError
check test e rest = if test then rest else some e

module _ (casefold : String → String) (repr : Value → String) where
  unfoldable pub options_ok : Option Value → Bool
  options_ok (some (arr xs)) =
      let options = option_texts repr xs in
      leb 2 (length options) && all_non_empty xs && distinct (map casefold options)
  options_ok _ = false

  unfoldable pub kind_ok : Kind → Fields → Bool
  kind_ok capability_confirmation d =
      non_empty_text (lookup "capability" d)
      && non_empty_text (lookup "provider" d)
      && non_empty_text (lookup "confirmation_id" d)
  kind_ok semantic_choice d =
      non_empty_text (lookup "interaction_id" d)
      && is_bool (lookup "allow_free_text" d)
      && options_ok (lookup "options" d)
  kind_ok recoverable_execution d =
      let reason = lookup "checkpoint_reason" d in
      (is_text "budget_salvage" reason || is_text "stalled_recoverable" reason)
      && non_empty_text (lookup "resume_hint" d)

module _ (valid_state : Value → Bool) (casefold : String → String) (repr : Value → String) where
  unfoldable pub validate_kind : Bool → Kind → Fields → Option PendingError
  validate_kind persisted kind d =
      check (has_all (expected persisted kind) d && keys_within (expected persisted kind) d)
        schema_invalid
        (check (non_empty_text (lookup "question" d) && is_dict (lookup "session" d)) schema_invalid
          (check (valid_state (or_else (lookup "execution_state" d) null)) execution_state_invalid (
            check (kind_ok casefold repr kind d && (not persisted || persisted_ok kind d))
              schema_invalid none)))

  -- The error that is raised, `none` for a value that is returned.
  unfoldable pub validate_pending_continuation : Bool → Value → Option PendingError
  validate_pending_continuation persisted (obj d) =
      check (is_text "16-ecc" (lookup "pending_schema_version" d)) schema_incompatible
        (elim (kind_of (lookup "continuation_kind" d)) [
          | none ↦ some schema_invalid
          | some kind ↦ validate_kind persisted kind d
        ])
  validate_pending_continuation persisted v = some schema_invalid
