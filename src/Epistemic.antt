-- ===== src/Epistemic.antt =====
-- eyle/contracts/memory.py: the epistemic description of a memory, which the parser and the storage
-- both normalise.
pub mod Canonical
mod Tests
use eyle.Base.Dict.{member}
use eyle.Base.Text.{strip, size}
use eyle.Value.{
  str_of, Value, Fields, field, end, obj, num, float, one_float, null, text, lookup, truthy,
  keys_within,
}
use eyle.Base.{
  ℕ, Bool, List, Option, String, if◌then◌else◌, some, true, ◌∷◌, [], false, leb, none, not, str_eq,
  ltb, ◌*◌, ◌||◌,
}

-- The messages of the error, MEMORY_EPISTEMIC_…
pub data EpistemicError : Type 0 where
  invalid fields_invalid nature_invalid confidence_invalid : EpistemicError
  volatility_invalid temporal_invalid context_invalid : EpistemicError

pub data Outcome : Type 0 where
  absent : Outcome
  accepted : Fields → Outcome
  refused : EpistemicError → Outcome

-- `EPISTEMIC_FIELDS`
abbrev pub epistemic_fields : List String
epistemic_fields = "nature" ∷ "confidence" ∷ "volatility" ∷ "temporal" ∷ "context" ∷ []

-- A text that is not blank and has at most 96 characters without the space around it.
unfoldable pub short_text : Value → Option String
short_text (text s) =
    if str_eq (strip s) "" || ltb 96 (size (strip s)) then none else some (strip s)
short_text _ = none

-- `value or default`, and its check.
unfoldable pub text_or : Option String → Option Value → Option String
text_or default none = default
text_or default (some v) = if truthy v then short_text v else default

abbrev pub default_nature : Bool → Option String
default_nature true = some "unclassified"
default_nature false = none

-- `0.0 <= float(confidence) <= 1.0`, and `float(confidence)`.
unfoldable pub confidence_of : Option Value → Option Value
confidence_of none = some null
confidence_of (some null) = some null
confidence_of (some (num n)) = if leb n 1 then some (float (n * one_float)) else none
confidence_of (some (float h)) = if leb h one_float then some (float h) else none
confidence_of (some _) = none

abbrev pub dict_of : Option Value → Option Fields
dict_of none = some end
dict_of (some null) = some end
dict_of (some (obj d)) = some d
dict_of (some _) = none

unfoldable pub described : String → Value → String → Fields → Fields → Fields
described nature confidence volatility temporal context = field "nature" (text nature) (
    field "confidence" confidence (
      field "volatility" (text volatility)
        (field "temporal" (obj temporal) (field "context" (obj context) end))))

abbrev pub require {ℓ} : {A : Type ℓ} → Option A → EpistemicError → (A → Outcome) → Outcome
require none e f = refused e
require (some a) e f = f a

unfoldable pub normalize_fields : Bool → Fields → Outcome
normalize_fields default_unclassified d =
    if not (keys_within epistemic_fields d)
    then refused fields_invalid
    else require (text_or (default_nature default_unclassified) (lookup "nature" d)) nature_invalid
        (λ nature. require (confidence_of (lookup "confidence" d)) confidence_invalid (λ confidence.
          require (text_or (some "unknown") (lookup "volatility" d)) volatility_invalid
            (λ volatility. require (dict_of (lookup "temporal" d)) temporal_invalid (λ temporal.
              require (dict_of (lookup "context" d)) context_invalid
                (λ context. accepted (described nature confidence volatility temporal context))))))

unfoldable pub normalize_epistemic : Bool → Value → Outcome
normalize_epistemic true null = normalize_fields true end
normalize_epistemic false null = absent
normalize_epistemic default_unclassified (obj d) = normalize_fields default_unclassified d
normalize_epistemic default_unclassified _ = refused invalid

pub data ContextKey : Type 0 where
  no_key : ContextKey
  key : String → ContextKey
  too_large : ContextKey

-- `normalize_context_key`; `repr` is what `str` makes of a value that is no text.
unfoldable pub normalize_context_key : (Value → String) → Value → ContextKey
normalize_context_key repr null = no_key
normalize_context_key repr v =
    let s = strip (str_of repr v) in
    if str_eq s "" then no_key else if ltb 240 (size s) then too_large else key s

-- `normalize_domain`, of `str(value or default).strip().lower()`; `none` stands for the ValueError.
unfoldable pub normalize_domain :
    (String → String) → (Value → String) → Value → String → Option String
normalize_domain lower repr v default =
    let s = if truthy v then str_of repr v else default in
    let domain = lower (strip s) in
    if member domain ("chat" ∷ "task" ∷ "eyle" ∷ "knowledge" ∷ []) then some domain else none
