-- ===== src/Progress/Detector.antt =====
-- eyle/runtime/execution_progress.py: the class `ExecutionProgress`. Python integers that the code
-- clips at 0 are numbers here.
use eyle.Progress.Stable.{stable_fingerprint, can_be_new}
use eyle.Base.Dict.{Dict, member, get, include, enter}
use eyle.Value.{Value, Fields, Items, nil, obj, cons, field, text, arr, num, end}
use eyle.Base.{
  ℕ, Bool, List, Option, String, [], if◌then◌else◌, length, false, or_else, str_eq, min, true, ◌+◌,
  ◌||◌, ◌∷◌, ◌-◌, not, ◌&&◌, map, none, some, ◌==◌,
}

pub record ExecutionProgress : Type 0 where
  pub seen_result_fingerprints : List String
  pub no_progress_counts : Dict ℕ
  pub blocked_actions : Dict ℕ
  pub checkpointed_blocks : List String
  pub operations_since_task_state_progress : ℕ
  pub provider_tokens_at_last_task_state_progress : ℕ
  pub provider_tokens_latest : ℕ
  pub fixed_points_blocked_total : ℕ
  pub coverage_advanced_since_task_state_progress : Bool
  pub physical_mutations_since_task_state_progress : ℕ

abbrev pub fresh : ExecutionProgress
fresh = record {
  seen_result_fingerprints = [];
  no_progress_counts = [];
  blocked_actions = [];
  checkpointed_blocks = [];
  operations_since_task_state_progress = 0;
  provider_tokens_at_last_task_state_progress = 0;
  provider_tokens_latest = 0;
  fixed_points_blocked_total = 0;
  coverage_advanced_since_task_state_progress = false;
  physical_mutations_since_task_state_progress = 0;
}

pub record ProgressState : Type 0 where
  pub meaningful_progress : Bool
  pub novel_result : Bool
  pub no_progress_repeat_count : ℕ
  pub no_progress_key : String
  pub terminal : Bool

-- The arguments of `observe`; `results` are those that are dicts.
pub record Observation : Type 0 where
  pub action_signature : String
  pub results : List Fields
  pub physical_progress : Bool
  pub task_state_progress : Bool
  pub reality_epoch : ℕ
  pub operation_count : ℕ
  pub provider_tokens_total : ℕ
  pub coverage_advanced : Bool
  pub physical_mutations : ℕ

-- `convergence_view`
pub record ConvergenceView : Type 0 where
  pub operations : ℕ
  pub provider_tokens : ℕ
  pub fixed_points_blocked : ℕ
  pub coverage_advanced : Bool
  pub physical_mutations : ℕ

unfoldable pub convergence_view : ExecutionProgress → Option ℕ → ConvergenceView
convergence_view p total =
    let latest = or_else total p.provider_tokens_latest in
    let baseline = min latest p.provider_tokens_at_last_task_state_progress in
    record {
      operations = p.operations_since_task_state_progress;
      provider_tokens = latest - baseline;
      fixed_points_blocked = p.fixed_points_blocked_total;
      coverage_advanced = p.coverage_advanced_since_task_state_progress;
      physical_mutations = p.physical_mutations_since_task_state_progress;
    }

-- `is_blocked`
unfoldable pub is_blocked : ExecutionProgress → String → ℕ → Bool
is_blocked p signature epoch =
    if str_eq signature ""
    then false
    else elim (get signature p.blocked_actions) [ none ↦ false | some e ↦ e == epoch ]

unfoldable pub blocked_action_count : ExecutionProgress → ℕ
blocked_action_count p = length p.blocked_actions

-- The counters that `observe` updates first.
unfoldable pub count_operations : Observation → ExecutionProgress → ExecutionProgress
count_operations o p =
    if o.task_state_progress
    then record p {
      operations_since_task_state_progress = 0;
      provider_tokens_at_last_task_state_progress = o.provider_tokens_total;
      provider_tokens_latest = o.provider_tokens_total;
      coverage_advanced_since_task_state_progress = false;
      physical_mutations_since_task_state_progress = 0;
    }
    else record p {
      operations_since_task_state_progress =
          p.operations_since_task_state_progress + o.operation_count;
      provider_tokens_latest = o.provider_tokens_total;
      coverage_advanced_since_task_state_progress =
          p.coverage_advanced_since_task_state_progress || o.coverage_advanced;
      physical_mutations_since_task_state_progress =
          p.physical_mutations_since_task_state_progress + o.physical_mutations;
    }

module _ (digest : Value → String) where
  -- `_block_key`
  unfoldable pub block_key : String → ℕ → String
  block_key action epoch =
      stable_fingerprint digest
        (obj (field "action" (text action) (field "reality_epoch" (num epoch) end)))

  unfoldable pub checkpoint_needed_for_block :
      String → ℕ → ExecutionProgress → Bool × ExecutionProgress
  checkpoint_needed_for_block action epoch p =
      let key = block_key action epoch in
      if member key p.checkpointed_blocks
      then (false, p)
      else (true, record p { checkpointed_blocks = include key p.checkpointed_blocks })

  unfoldable pub fingerprint : Fields → String
  fingerprint d = stable_fingerprint digest (obj d)

  -- The loop over the results: whether one is new, and the fingerprints seen so far.
  unfoldable pub scan_results : List Fields → List String → Bool → Bool × List String
  scan_results [] seen novel = (novel, seen)
  scan_results (d ∷ rows) seen novel =
      scan_results rows (include (fingerprint d) seen)
        (novel || (not (member (fingerprint d) seen) && can_be_new d))

  unfoldable pub texts : List String → Items
  texts [] = nil
  texts (s ∷ l) = cons (text s) (texts l)

  unfoldable pub no_progress_key_of : Observation → String
  no_progress_key_of o = stable_fingerprint digest (
      obj (
        field "action" (text o.action_signature) (
          field "results" (arr (texts (map fingerprint o.results)))
            (field "reality_epoch" (num o.reality_epoch) end))))

  -- The block of the action, after an outcome without progress.
  unfoldable pub block : String → ℕ → ExecutionProgress → ExecutionProgress
  block signature epoch p = if str_eq signature "" then p else record p {
    fixed_points_blocked_total = (elim (get signature p.blocked_actions) [
      | none ↦ p.fixed_points_blocked_total + 1
      | some e ↦
          if e == epoch then p.fixed_points_blocked_total else p.fixed_points_blocked_total + 1
    ]);
    blocked_actions = enter signature epoch p.blocked_actions;
  }

  -- The end of `observe`: `p` has the counters and the results on record.
  unfoldable pub settle : Observation → Bool → ExecutionProgress → ProgressState × ExecutionProgress
  settle o novel p =
      if o.physical_progress || o.task_state_progress || novel
      then (
        record {
          meaningful_progress = true;
          novel_result = novel;
          no_progress_repeat_count = 0;
          no_progress_key = "";
          terminal = false;
        },
        record p { no_progress_counts = []; blocked_actions = [] },
      )
      else let key = no_progress_key_of o in
        let repeat = or_else (get key p.no_progress_counts) 0 + 1 in
        (
          record {
            meaningful_progress = false;
            novel_result = false;
            no_progress_repeat_count = repeat;
            no_progress_key = key;
            terminal = false;
          },
          block o.action_signature o.reality_epoch
              (record p { no_progress_counts = enter key repeat p.no_progress_counts }),
        )

  unfoldable pub observe : Observation → ExecutionProgress → ProgressState × ExecutionProgress
  observe o p =
      let counted = count_operations o p in
      let (novel, seen) = scan_results o.results counted.seen_result_fingerprints false in
      settle o novel (record counted { seen_result_fingerprints = seen })
