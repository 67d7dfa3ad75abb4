-- ===== src/Continuation/Choice.antt =====
-- eyle/runtime/continuation.py: `resolve_semantic_choice`, what a person's answer chooses. `casefold` and
-- `isdigit` stand for the methods of `str`, which know all of Unicode; `int` for the number of a text
-- of digits, where `none` is its ValueError, as for a superscript.
use eyle.Base.Table.{find}
use eyle.Continuation.{
  validate_pending_continuation, arr, distinct, is_text, validate_kind, kind_ok, lookup,
  option_texts, options_ok, strip, obj, kind_of, check, semantic_choice, text, expected,
  schema_incompatible, has_all, schema_invalid, execution_state_invalid, keys_within,
  non_empty_text, is_dict, null, persisted_ok,
}
use eyle.Base.Dict.{member, or-true}
use eyle.Value.{Value, Fields, truthy}
use mathlib.Core.Path.{refl}
use eyle.Base.{
  eq_refl, ℕ, List, Option, String, Bool, if◌then◌else◌, none, some, false, str_eq, ◌∷◌, ◌≡◌, map,
  suc, true, Bool-cases, [], arith, inl, zero, eq_iff, ◌&&◌, inr, or_else, not, ◌||◌,
}

-- An option or a text, none of them, or the ValueError of `int`.
pub data Resolved : Type 0 where
  chose : Option String → Resolved
  value_error : Resolved

-- `options[n - 1]`, where `0 <= n - 1 < len(options)`.
unfoldable pub nth : ℕ → List String → Option String
nth n [] = none
nth zero (o ∷ l) = none
nth (suc zero) (o ∷ l) = some o
nth (suc (suc n)) (o ∷ l) = nth (suc n) l

abbrev pub options_at : (Value → String) → Option Value → List String
options_at repr (some (arr xs)) = option_texts repr xs
options_at repr _ = []

abbrev pub is_truthy : Option Value → Bool
is_truthy none = false
is_truthy (some v) = truthy v

abbrev pub or_else_try : Option String → Option String → Option String
or_else_try none o = o
or_else_try (some s) o = some s

module _ (casefold : String → String) (repr : Value → String) (isdigit : String → Bool)
    (int : String → Option ℕ) where
  -- The option that is equal to the text without regard to case, or the text if any is allowed.
  unfoldable pub by_text : String → List String → Bool → Option String
  by_text s options free =
      or_else_try (find (λ o. str_eq (casefold o) (casefold s)) options)
        (if free then some s else none)

  -- The option of a number, if there is one.
  unfoldable pub by_number : Option ℕ → String → List String → Bool → Resolved
  by_number none s options free = value_error
  by_number (some n) s options free = chose (or_else_try (nth n options) (by_text s options free))

  unfoldable pub choose : String → List String → Bool → Resolved
  choose s options free =
      if str_eq s ""
      then chose none
      else if isdigit s
      then by_number (int s) s options free
      else chose (by_text s options free)

  -- `pending` is a dict; for a `value` of None the text is empty.
  unfoldable pub resolve_semantic_choice : String → Fields → Resolved
  resolve_semantic_choice value pending =
      if is_text "semantic_choice" (lookup "continuation_kind" pending)
      then choose (strip value) (options_at repr (lookup "options" pending))
          (is_truthy (lookup "allow_free_text" pending))
      else chose none

  member-map :
      (o : String) (l : List String)
      → member o l ≡ true
      → member (casefold o) (map casefold l) ≡ true
  unfolding member
  member-map o [] h = h
  member-map o (x ∷ l) h = elim (Bool-cases (str_eq x o)) [
    | inl same ↦ let is : x ≡ o = ground (arith, eq_iff x o) in rw (is, eq_refl (casefold o)) refl
    | inr differ ↦ rw (member-map o l (rw differ at h), or-true (str_eq (casefold x) (casefold o)))
  ]

  -- In a list of options that differ without regard to case, each is found by its own text.
  find-distinct :
      (o s : String) (l : List String)
      → distinct (map casefold l) ≡ true
      → member o l ≡ true
      → casefold o ≡ casefold s
      → find (λ x. str_eq (casefold x) (casefold s)) l ≡ some o
  unfolding member distinct
  find-distinct o s [] d m e = ground arith
  find-distinct o s (x ∷ l) d m e = elim (Bool-cases (str_eq x o)) [
    | inl same ↦
        let is : x ≡ o = ground (arith, eq_iff x o) in rw (is, e, eq_refl (casefold s)) refl
    | inr differ ↦
        let later : member o l ≡ true = rw differ at m in
        let there = member-map o l later in
        elim (Bool-cases (str_eq (casefold x) (casefold s))) [
          | inl clash ↦
              let is : casefold x ≡ casefold o =
                ground (arith, e, eq_iff (casefold x) (casefold s)) in
              let d' = rw (is, there) at d in ground (arith, d')
          | inr apart ↦
              let rest : distinct (map casefold l) ≡ true = ground (arith, d) in
              rw apart (find-distinct o s l rest later e)
        ]
  ]

  kind_of-choice :
      (o : Option Value) → is_text "semantic_choice" o ≡ true → kind_of o ≡ some semantic_choice
  unfolding kind_of
  kind_of-choice none h = ground arith
  kind_of-choice (some (text s)) h =
      let is : s ≡ "semantic_choice" = ground (arith, eq_iff s "semantic_choice") in rw is refl
  kind_of-choice (some _) h = ground arith

  last_check :
      (a b c d e : Bool)
      → check a schema_incompatible (
          check b schema_invalid (
            check c schema_invalid (check d execution_state_invalid (check e schema_invalid none))))
        ≡ none
      → e ≡ true
  last_check true true true true true h = refl
  last_check true true true true false h = ground arith
  last_check true true true false e h = ground arith
  last_check true true false d e h = ground arith
  last_check true false c d e h = ground arith
  last_check false b c d e h = ground arith

  options_ok-distinct :
      (o : Option Value)
      → options_ok casefold repr o ≡ true
      → distinct (map casefold (options_at repr o)) ≡ true
  unfolding options_ok
  options_ok-distinct none h = ground arith
  options_ok-distinct (some (arr xs)) h = ground arith
  options_ok-distinct (some _) h = ground arith

  Accepted-choice :
      (valid_state : Value → Bool) (persisted : Bool) (d : Fields)
      → validate_pending_continuation valid_state casefold repr persisted (obj d) ≡ none
      → is_text "semantic_choice" (lookup "continuation_kind" d) ≡ true
      → distinct (map casefold (options_at repr (lookup "options" d))) ≡ true
  unfolding validate_pending_continuation validate_kind kind_ok
  Accepted-choice valid_state persisted d h k =
      let is = kind_of-choice (lookup "continuation_kind" d) k in
      let fields = expected persisted semantic_choice in
      let shape = kind_ok casefold repr semantic_choice d in
      let last =
        last_check (is_text "16-ecc" (lookup "pending_schema_version" d))
          (has_all fields d && keys_within fields d)
          (non_empty_text (lookup "question" d) && is_dict (lookup "session" d))
          (valid_state (or_else (lookup "execution_state" d) null))
          (shape && (not persisted || persisted_ok semantic_choice d)) (rw is at h) in
      let options : options_ok casefold repr (lookup "options" d) ≡ true = ground (arith, last) in
      options_ok-distinct (lookup "options" d) options

  -- An accepted choice is unambiguous: an answer that is equal to one of its options without regard to
  -- case, is not blank and is no text of digits (`isdigit`, in any script) chooses that option, whatever stands
  -- before it in the list.
  pub resolve_semantic_choice_own :
      (valid_state : Value → Bool) (persisted : Bool) (d : Fields) (answer o : String)
      → validate_pending_continuation valid_state casefold repr persisted (obj d) ≡ none
      → is_text "semantic_choice" (lookup "continuation_kind" d) ≡ true
      → member o (options_at repr (lookup "options" d)) ≡ true
      → casefold o ≡ casefold (strip answer)
      → str_eq (strip answer) "" ≡ false
      → isdigit (strip answer) ≡ false
      → resolve_semantic_choice answer d ≡ chose (some o)
  unfolding resolve_semantic_choice choose by_text
  resolve_semantic_choice_own valid_state persisted d answer o h k m e solid n =
      let l = options_at repr (lookup "options" d) in
      let found =
        find-distinct o (strip answer) l (Accepted-choice valid_state persisted d h k) m e in
      rw (k, solid, n, found) refl
