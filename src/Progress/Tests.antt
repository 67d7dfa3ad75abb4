-- ===== src/Progress/Tests.antt =====
-- Small outcomes, and what the detector makes of them.
use eyle.Progress.RoundTrip.{Same, from_dict-to_dict}
use eyle.Progress.Saved.{from_dict, to_dict}
use eyle.Progress.Blocking.{outcome}
use eyle.Base.Dict.{get, enter, member, include}
use eyle.Progress.Blocking.{after, observe-blocks}
use eyle.Value.{Value, field, obj, lookup, num, text, end, null}
use eyle.Progress.Stable.{
  stable_value, text_le, insert_field, is_ephemeral, stable_items, stable_fields,
  stable_fingerprint, can_be_new,
}
use eyle.Progress.FixedPoint.{FixedPoint, observe-FixedPoint}
use eyle.Progress.Detector.{
  ExecutionProgress, Observation, is_blocked, observe, fresh, blocked_action_count,
  convergence_view, count_operations, block_key, checkpoint_needed_for_block, fingerprint,
  scan_results, texts, no_progress_key_of, block, settle,
}
use eyle.Base.{◌≢◌, String, ◌≡◌, arith, false, true, eq_iff, some, ◌≤◌, [], ◌∷◌, refl}

-- A digest that keeps the action and the status of a result apart, for tests.
abbrev short : Value → String
short (obj d) = elim (lookup "status" d) [ some (text s) ↦ s | _ ↦ "key" ]
short v = "other"

abbrev listing : Observation
listing = record {
  action_signature = "inspect:tree";
  results = field "status" (text "success") (field "handle" (num 4) end) ∷ [];
  physical_progress = false;
  task_state_progress = false;
  reality_epoch = 2;
  operation_count = 1;
  provider_tokens_total = 900;
  coverage_advanced = false;
  physical_mutations = 0;
}

abbrev seen_once : ExecutionProgress
seen_once = (observe short listing fresh).1

abbrev seen_twice : ExecutionProgress
seen_twice = (observe short listing seen_once).1

program : Unit {0}
unfolding text_le insert_field is_ephemeral stable_value stable_items stable_fields
    stable_fingerprint can_be_new convergence_view is_blocked blocked_action_count count_operations
    block_key checkpoint_needed_for_block fingerprint scan_results texts no_progress_key_of block
    settle observe get enter member include lookup
program = tt

stable_drops_handles :
    stable_value "" (obj (field "z" (num 1) (field "handle" (num 4) (field "a" null end))))
    ≡ obj (field "a" null (field "z" (num 1) end))
unfolding program
stable_drops_handles = refl

-- New the first time, then a fixed point that is blocked in its epoch and in no other.
listing_runs :
    ((observe short listing fresh).0.novel_result ≡ true)
    × ((observe short listing seen_once).0.meaningful_progress ≡ false)
    × (is_blocked seen_twice "inspect:tree" 2 ≡ true)
    × (is_blocked seen_twice "inspect:tree" 3 ≡ false)
    × (seen_twice.fixed_points_blocked_total ≡ 1)
unfolding program
listing_runs = (refl, refl, refl, refl, refl)

listing_named : ◌≢◌ {A = String} "inspect:tree" ""
listing_named = ground (arith, eq_iff "inspect:tree" "")

listing_stuck : (outcome short listing seen_once).meaningful_progress ≡ false
unfolding program
listing_stuck = refl

observe-blocks_example :
    (is_blocked (after short listing seen_once) "inspect:tree" 2 ≡ true)
    × ((outcome short listing seen_once).terminal ≡ false)
    × (1 ≤ (outcome short listing seen_once).no_progress_repeat_count)
observe-blocks_example = observe-blocks short listing seen_once listing_stuck listing_named

listing_moved : (outcome short listing fresh).meaningful_progress ≡ true
unfolding program
listing_moved = refl

observe-FixedPoint_example :
    FixedPoint short listing (outcome short listing seen_once).no_progress_repeat_count 2 seen_twice
observe-FixedPoint_example =
    observe-FixedPoint short listing seen_once 2 listing_stuck listing_named

abbrev two_seen : ExecutionProgress
two_seen = record fresh {
  seen_result_fingerprints = "b" ∷ "a" ∷ [];
  no_progress_counts = ("k2", 1) ∷ ("k1", 3) ∷ [];
  blocked_actions = ("write", 2) ∷ [];
}

from_dict-to_dict_example :
    (q : ExecutionProgress) × (from_dict (obj (to_dict two_seen)) ≡ some q) × Same two_seen q
from_dict-to_dict_example = from_dict-to_dict two_seen
