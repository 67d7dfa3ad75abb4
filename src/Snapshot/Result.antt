-- ===== src/Snapshot/Result.antt =====
-- eyle/contracts/observation.py: the fields that every result of a capability has. `lower` stands
-- for the method of `str`, `repr` for what `str` makes of a value that is no text.
use eyle.Base.Dict.{member}
use eyle.Base.Text.{strip}
use eyle.Value.{Value, Fields, Items, nil, cons, null, obj, arr, field, end, truthy, str_of}
use eyle.Base.{String, if◌then◌else◌, ◌∷◌, [], ◌≡◌, true, Bool-cases, inl, inr, refl}

-- `normalize_effect`
unfoldable pub normalize_effect : (String → String) → (Value → String) → Value → String
normalize_effect lower repr v =
    let effect = lower (strip (if truthy v then str_of repr v else "observe")) in
    if member effect ("observe" ∷ "execute" ∷ "mutate" ∷ []) then effect else "observe"

-- The items that are dicts.
unfoldable pub dicts_of : Items → Items
dicts_of nil = nil
dicts_of (cons (obj d) xs) = cons (obj d) (dicts_of xs)
dicts_of (cons null xs) = dicts_of xs
dicts_of (cons _ xs) = dicts_of xs

abbrev pub coverage_or_empty : Value → Fields
coverage_or_empty (obj d) = d
coverage_or_empty v = end

-- `result_observation_fields`; a missing sequence is an empty one.
unfoldable pub result_observation_fields : Items → Value → Items → Fields
result_observation_fields observations coverage frontiers =
    field "observations" (arr (dicts_of observations)) (
      field "coverage" (obj (coverage_or_empty coverage))
        (field "frontiers" (arr (dicts_of frontiers)) end))

-- An effect is one of the three that the registry knows, whatever the capability declared.
pub normalize_effect-member :
    (lower : String → String) (repr : Value → String) (v : Value)
    → member (normalize_effect lower repr v) ("observe" ∷ "execute" ∷ "mutate" ∷ []) ≡ true
unfolding normalize_effect member
normalize_effect-member lower repr v =
    let effect = lower (strip (if truthy v then str_of repr v else "observe")) in
    elim (Bool-cases (member effect ("observe" ∷ "execute" ∷ "mutate" ∷ []))) [
      | inl known ↦ rw known known
      | inr unknown ↦ rw unknown refl
    ]
