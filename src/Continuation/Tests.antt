-- ===== src/Continuation/Tests.antt =====
-- Runs of the continuation contract. A text is its own case-folded form here.
use eyle.Continuation.Choice.{
  resolve_semantic_choice, resolve_semantic_choice_own, choose, by_text, by_number, nth, chose,
  value_error,
}
use eyle.Continuation.{
  validate_pending_continuation, validate_kind, kind_ok, options_ok, schema_invalid, option_texts,
  all_non_empty, distinct, kind_of, expected, has_all,
}
use mathlib.Core.Path.{refl}
use Prim.Native.String.{[] as no_char, ◌∷◌ as char_then}
use Prim.Native.Char.{code}
use eyle.Base.Text.{strip, lstrip, rstrip, is_space}
use eyle.Base.Dict.{member}
use eyle.Value.{
  Value, Fields, field, end, obj, arr, cons, nil, bool, lookup, truthy, has_key, keys_within, Items,
}
use eyle.Base.{
  ℕ, Option, ◌*◌, ◌+◌, ◌-◌, leb, ◌&&◌, if◌then◌else◌, str_eq, not, is_none, Bool, String, false,
  true, ◌≡◌, none, some,
}

abbrev keep : String → String
keep s = s

abbrev no_repr : Value → String
no_repr v = "?"

-- The ASCII digits, for the tests.
digits : ℕ → String → Option ℕ
digits n no_char = some n
digits n (char_then c s) =
    let rest = digits (n * 10 + (code c - 48)) s in
    if leb 48 (code c) && leb (code c) 57 then rest else none

number_of : String → Option ℕ
number_of s = if str_eq s "" then none else digits 0 s

is_number : String → Bool
unfolding number_of
is_number s = not (is_none (number_of s))

-- A superscript is a digit that is no number.
is_superscript : String → Bool
is_superscript s = str_eq s "²"

abbrev any_state : Value → Bool
any_state v = true

abbrev ask : Items → Fields
ask options = field "pending_schema_version" (Value.text "16-ecc") (
    field "continuation_kind" (Value.text "semantic_choice") (
      field "question" (Value.text "Which?") (
        field "session" (obj end) (
          field "execution_state" (obj end) (
            field "interaction_id" (Value.text "i1")
              (field "options" (arr options) (field "allow_free_text" (bool false) end)))))))

abbrev two_options : Items
two_options = cons (Value.text "keep") (cons (Value.text " drop ") nil)

program : Unit {0}
unfolding validate_pending_continuation validate_kind kind_ok options_ok option_texts all_non_empty
    distinct kind_of expected has_all has_key keys_within member lookup strip lstrip rstrip is_space
    resolve_semantic_choice choose by_text by_number number_of digits is_number is_superscript nth
    truthy
program = tt

accepted : validate_pending_continuation any_state keep no_repr false (obj (ask two_options)) ≡ none
unfolding program
accepted = refl

one_option :
    validate_pending_continuation any_state keep no_repr false
      (obj (ask (cons (Value.text "keep") nil)))
    ≡ some schema_invalid
unfolding program
one_option = refl

not_persisted :
    validate_pending_continuation any_state keep no_repr true (obj (ask two_options))
    ≡ some schema_invalid
unfolding program
not_persisted = refl

second_by_number :
    resolve_semantic_choice keep no_repr is_number number_of " 2 " (ask two_options)
    ≡ chose (some "drop")
unfolding program
second_by_number = refl

third_is_none :
    resolve_semantic_choice keep no_repr is_number number_of "3" (ask two_options) ≡ chose none
unfolding program
third_is_none = refl

superscript_fails :
    resolve_semantic_choice keep no_repr is_superscript number_of "²" (ask two_options)
    ≡ value_error
unfolding program
superscript_fails = refl

resolve_semantic_choice_own_example :
    resolve_semantic_choice keep no_repr is_number number_of "drop" (ask two_options)
    ≡ chose (some "drop")
unfolding program
resolve_semantic_choice_own_example =
    resolve_semantic_choice_own keep no_repr is_number number_of any_state false (ask two_options)
      "drop" "drop" refl refl refl refl refl refl
