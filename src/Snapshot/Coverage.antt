-- ===== src/Snapshot/Coverage.antt =====
-- eyle/contracts/observation.py: `normalize_coverage`, the contract of Coverage.
use mathlib.Core.Bool.{false≢true}
use eyle.Base.Dict.{member}
use eyle.Value.{
  has_key, keys_within, Fields, Items, Value, obj, arr, bool, cons, end, field, lookup, truthy, nil,
  null,
}
use eyle.Base.{
  Bool, Option, String, if◌then◌else◌, or_else, some, true, ◌&&◌, ◌≡◌, false, ◌∷◌, [], none, ◌⊎◌,
  inl, inr, refl, ◌≢◌, arith,
}

-- The messages of `CoverageContractError`, by the check that fails.
pub data CoverageError : Type 0 where
  required not_object missing unknown : CoverageError
  scope_type examined_type complete_type boundaries_type facts_type : CoverageError

-- What `normalize_coverage` returns or raises.
pub data Normalized : Type 0 where
  ok : Fields → Normalized
  err : CoverageError → Normalized

-- `if not test: raise CoverageContractError(e)`
abbrev pub require : Bool → CoverageError → Normalized → Normalized
require test e rest = if test then rest else err e

abbrev pub is_obj : Option Value → Bool
is_obj (some (obj d)) = true
is_obj _ = false

abbrev pub is_bool : Option Value → Bool
is_bool (some (bool b)) = true
is_bool _ = false

unfoldable pub all_objects : Items → Bool
all_objects nil = true
all_objects (cons (obj d) xs) = all_objects xs
all_objects (cons null xs) = false
all_objects (cons v xs) = false

abbrev pub is_object_list : Option Value → Bool
is_object_list (some (arr xs)) = all_objects xs
is_object_list _ = false

-- `facts is not None and not isinstance(facts, dict)` fails.
abbrev pub facts_ok : Option Value → Bool
facts_ok none = true
facts_ok (some null) = true
facts_ok (some (obj d)) = true
facts_ok (some _) = false

unfoldable pub value_or_null : String → Fields → Value
value_or_null k d = or_else (lookup k d) null

-- The canonical dict; `facts` is kept only where it is not empty.
unfoldable pub canonical : Fields → Fields
canonical d =
    let facts =
      if truthy (value_or_null "facts" d)
      then field "facts" (value_or_null "facts" d) end
      else end in
    field "scope" (value_or_null "scope" d) (
      field "examined" (value_or_null "examined" d) (
        field "complete" (value_or_null "complete" d)
          (field "boundaries" (value_or_null "boundaries" d) facts)))

-- `normalize_coverage` of a dict that is not empty.
unfoldable pub check_fields : Fields → Normalized
check_fields d =
    let all_there =
      has_key "scope" d && has_key "examined" d && has_key "complete" d && has_key "boundaries" d in
    let known = keys_within ("scope" ∷ "examined" ∷ "complete" ∷ "boundaries" ∷ "facts" ∷ []) d in
    require all_there missing (
      require known unknown (
        require (is_obj (lookup "scope" d)) scope_type (
          require (is_obj (lookup "examined" d)) examined_type (
            require (is_bool (lookup "complete" d)) complete_type (
              require (is_object_list (lookup "boundaries" d)) boundaries_type
                (require (facts_ok (lookup "facts" d)) facts_type (ok (canonical d))))))))

abbrev pub no_coverage : Bool → Normalized
no_coverage allow_empty = if allow_empty then ok end else err required

unfoldable pub normalize_coverage : Value → Bool → Normalized
normalize_coverage null allow_empty = no_coverage allow_empty
normalize_coverage (obj end) allow_empty = no_coverage allow_empty
normalize_coverage (obj (field k v d)) allow_empty = check_fields (field k v d)
normalize_coverage _ allow_empty = err not_object

is_obj-cases : (o : Option Value) → is_obj o ≡ true → (d : Fields) × (o ≡ some (obj d))
is_obj-cases (some (obj d)) h = (d, refl)
is_obj-cases none h = absurd (false≢true h)
is_obj-cases (some _) h = absurd (false≢true h)

is_bool-cases : (o : Option Value) → is_bool o ≡ true → (b : Bool) × (o ≡ some (bool b))
is_bool-cases (some (bool b)) h = (b, refl)
is_bool-cases none h = absurd (false≢true h)
is_bool-cases (some _) h = absurd (false≢true h)

is_object_list-cases :
    (o : Option Value)
    → is_object_list o ≡ true
    → (xs : Items) × (o ≡ some (arr xs)) × (all_objects xs ≡ true)
is_object_list-cases (some (arr xs)) h = (xs, refl, h)
is_object_list-cases none h = absurd (false≢true h)
is_object_list-cases (some _) h = absurd (false≢true h)

facts_of : Option Value → Fields
facts_of o = if truthy (or_else o null) then field "facts" (or_else o null) end else end

-- The facts that are kept are none, or one object.
facts_ok-cases :
    (o : Option Value)
    → facts_ok o ≡ true
    → (facts_of o ≡ end)
      ⊎ ((k : String) × (v : Value) × (f : Fields) × (facts_of o
            ≡ field "facts" (obj (field k v f)) end))
unfolding facts_of truthy
facts_ok-cases none h = inl refl
facts_ok-cases (some null) h = inl refl
facts_ok-cases (some (obj end)) h = inl refl
facts_ok-cases (some (obj (field k v d))) h = inr (k, v, d, refl)
facts_ok-cases (some _) h = absurd (false≢true h)

abbrev form : Fields → Fields → Bool → Items → Fields → Fields
form s e b xs facts =
    field "scope" (obj s)
      (field "examined" (obj e) (field "complete" (bool b) (field "boundaries" (arr xs) facts)))

form-accepted :
    (s e : Fields) (b : Bool) (xs : Items) (facts : Fields)
    → all_objects xs ≡ true
    → (facts ≡ end)
      ⊎ ((k : String) × (v : Value) × (f : Fields) × (facts
            ≡ field "facts" (obj (field k v f)) end))
    → check_fields (form s e b xs facts) ≡ ok (form s e b xs facts)
unfolding check_fields canonical value_or_null truthy lookup has_key keys_within member
form-accepted s e b xs facts hx (inl h) = rw (h, hx)
form-accepted s e b xs facts hx (inr (k, v, f, h)) = rw (h, hx)

chain : Bool → Bool → Bool → Bool → Bool → Bool → Bool → Fields → Normalized
chain p q s e b x f c = require p missing (
    require q unknown (
      require s scope_type (
        require e examined_type
          (require b complete_type (require x boundaries_type (require f facts_type (ok c)))))))

err≢ok : {e : CoverageError} {c : Fields} → err e ≢ ok c
err≢ok h = ground arith

chain-ok :
    (p q s e b x f : Bool) (c d : Fields)
    → chain p q s e b x f c ≡ ok d
    → (s ≡ true) × (e ≡ true) × (b ≡ true) × (x ≡ true) × (f ≡ true) × (ok c ≡ ok d)
unfolding chain
chain-ok true true true true true true true c d h = (refl, refl, refl, refl, refl, h)
chain-ok false q s e b x f c d h = absurd (err≢ok h)
chain-ok true false s e b x f c d h = absurd (err≢ok h)
chain-ok true true false e b x f c d h = absurd (err≢ok h)
chain-ok true true true false b x f c d h = absurd (err≢ok h)
chain-ok true true true true false x f c d h = absurd (err≢ok h)
chain-ok true true true true true false f c d h = absurd (err≢ok h)
chain-ok true true true true true true false c d h = absurd (err≢ok h)

-- What is accepted has the canonical form, whose fields are of the types that are asked for.
check_fields-again :
    (allow_empty : Bool) (d c : Fields)
    → check_fields d ≡ ok c
    → normalize_coverage (obj c) allow_empty ≡ ok c
unfolding facts_of normalize_coverage
check_fields-again allow_empty d c h =
    let (s_is, e_is, b_is, x_is, f_is, same) =
      chain-ok
        (has_key "scope" d
          && has_key "examined" d
          && has_key "complete" d
          && has_key "boundaries" d)
        (keys_within ("scope" ∷ "examined" ∷ "complete" ∷ "boundaries" ∷ "facts" ∷ []) d)
        (is_obj (lookup "scope" d)) (is_obj (lookup "examined" d)) (is_bool (lookup "complete" d))
        (is_object_list (lookup "boundaries" d)) (facts_ok (lookup "facts" d)) (canonical d) c
        (unfold check_fields chain in h) in
    let (s, hs) = is_obj-cases (lookup "scope" d) s_is in
    let (e, he) = is_obj-cases (lookup "examined" d) e_is in
    let (b, hb) = is_bool-cases (lookup "complete" d) b_is in
    let (xs, hx, all) = is_object_list-cases (lookup "boundaries" d) x_is in
    let formed : canonical d ≡ form s e b xs (facts_of (lookup "facts" d)) =
      unfold canonical value_or_null in rw (hs, he, hb, hx) in
    let again =
      form-accepted s e b xs (facts_of (lookup "facts" d)) all
        (facts_ok-cases (lookup "facts" d) f_is) in
    let is_form : c ≡ form s e b xs (facts_of (lookup "facts" d)) = ground (arith, same, formed) in
    rw (is_form, again)

-- A Coverage that is accepted is in canonical form: it is accepted again, and unchanged. (Where
-- `allow_empty` is set, so is the empty one.)
pub normalize_coverage_idem :
    (v : Value) (allow_empty : Bool) (c : Fields)
    → normalize_coverage v allow_empty ≡ ok c
    → normalize_coverage (obj c) allow_empty ≡ ok c
unfolding normalize_coverage
normalize_coverage_idem null true c h = ground arith
normalize_coverage_idem null false c h = absurd (err≢ok h)
normalize_coverage_idem (obj end) true c h = ground arith
normalize_coverage_idem (obj end) false c h = absurd (err≢ok h)
normalize_coverage_idem (obj (field k v d)) allow_empty c h =
    check_fields-again allow_empty (field k v d) c h
normalize_coverage_idem _ allow_empty c h = absurd (err≢ok h)
