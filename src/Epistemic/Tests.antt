-- ===== src/Epistemic/Tests.antt =====
-- Runs of the epistemic contract.
use eyle.Epistemic.Canonical.{normalize_epistemic_again}
use eyle.Epistemic.{
  normalize_context_key, normalize_domain, normalize_epistemic, normalize_fields, accepted,
  described, no_key, refused, nature_invalid, text_or, short_text, confidence_of, one_float,
}
use mathlib.Core.Path.{refl}
use eyle.Base.Text.{strip, lstrip, rstrip, is_space, size}
use eyle.Base.Dict.{member}
use eyle.Value.{Value, Fields, field, end, obj, null, num, float, lookup, truthy, keys_within}
use eyle.Base.{false, ◌≡◌, some, true}

abbrev claim : Fields
claim =
    field "nature" (Value.text " observation ")
      (field "confidence" (num 1) (field "temporal" null end))

abbrev canonical_claim : Fields
canonical_claim = field "nature" (Value.text "observation") (
    field "confidence" (float one_float) (
      field "volatility" (Value.text "unknown")
        (field "temporal" (obj end) (field "context" (obj end) end))))

program : Unit {0}
unfolding normalize_epistemic normalize_fields described lookup truthy keys_within member text_or
    short_text confidence_of strip lstrip rstrip is_space size normalize_context_key
    normalize_domain
program = tt

claim_normalized : normalize_epistemic false (obj claim) ≡ accepted canonical_claim
unfolding program
claim_normalized = refl

no_nature : normalize_epistemic false (obj end) ≡ refused nature_invalid
unfolding program
no_nature = refl

task_domain : normalize_domain (λ s. s) (λ v. "?") (Value.text " task ") "knowledge" ≡ some "task"
unfolding program
task_domain = refl

blank_key : normalize_context_key (λ v. "?") (Value.text "  ") ≡ no_key
unfolding program
blank_key = refl

normalize_epistemic_again_example :
    normalize_epistemic true (obj canonical_claim) ≡ accepted canonical_claim
normalize_epistemic_again_example =
    normalize_epistemic_again false true (obj claim) canonical_claim claim_normalized
