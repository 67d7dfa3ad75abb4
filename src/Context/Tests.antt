-- ===== src/Context/Tests.antt =====
-- Runs of the three loops.
use eyle.Base.Text.{strip, lstrip, rstrip, is_space, crop}
use eyle.Context.Prepared.{prepared, materialize_conversation-Newest}
use eyle.Value.{Fields, Value, field, text, end, lookup, truthy, put}
use eyle.Context.Newest.{Newest, total}
use eyle.Context.Loops.{
  materialize_conversation, materialize_latest_observations, cost, materialize_runtime_feedback,
  observations_loop, rev_onto, feedback_loop, conversation_loop, estimate_tokens, compact, text_at,
  crop_content, crop_detail, crop_field,
}
use mathlib.Core.Path.{refl}
use eyle.Base.{ℕ, List, String, ◌<◌, ◌∷◌, ◌≡◌, [], arith, ◌+◌}

-- The text of a dict is taken to have six characters for each field, and two more.
abbrev six_each : Fields → ℕ
six_each end = 2
six_each (field k v d) = 6 + six_each d

abbrev no_repr : Value → String
no_repr v = ""

six_each-positive : (d : Fields) → 0 < six_each d
six_each-positive end = omega arith
six_each-positive (field k v d) = omega (arith, six_each-positive d)

abbrev say : String → Fields
say s = field "role" (text "user") (field "content" (text s) end)

abbrev three : List Fields
three = say "a" ∷ say "b" ∷ say "c" ∷ []

program : Unit {0}
unfolding materialize_latest_observations materialize_runtime_feedback materialize_conversation
    observations_loop feedback_loop conversation_loop rev_onto cost estimate_tokens total compact
    text_at lookup truthy strip lstrip rstrip is_space crop_content crop_detail crop_field put crop
    prepared
program = tt

observations_two :
    materialize_latest_observations six_each no_repr 10 3 three ≡ say "b" ∷ say "c" ∷ []
unfolding program
observations_two = refl

conversation_two : (materialize_conversation six_each no_repr 10 3 "c1" three 7).omitted ≡ 5
unfolding program
conversation_two = refl

materialize_conversation-Newest_example :
    (let c = materialize_conversation six_each no_repr 10 3 "c1" three 3 in
      Newest
        (cost six_each no_repr 10 3)
        10
        (rev_onto (prepared six_each no_repr 10 3 (rev_onto three [])) [])
        c.messages
      × (c.estimated_tokens ≡ total (cost six_each no_repr 10 3) c.messages))
materialize_conversation-Newest_example =
    materialize_conversation-Newest six_each no_repr 10 3 "c1" three 3 six_each-positive
      (omega arith)
