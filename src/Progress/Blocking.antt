-- ===== src/Progress/Blocking.antt =====
-- eyle/runtime/execution_progress.py: which actions are blocked, and when the block is lifted.
use eyle.Base.Dict.{get, get-enter}
use eyle.Progress.Detector.{
  Observation, ExecutionProgress, ProgressState, observe, block, is_blocked, blocked_action_count,
  count_operations, scan_results, settle,
}
use eyle.Value.{Value}
use text.Mathlib.TextPositions.{eq_refl}
use mathlib.Core.Bool.{false≢true}
use eyle.Base.{
  ℕ, String, ◌≡◌, false, true, ◌≢◌, [], ◌≤◌, arith, eq_iff, Bool, str_eq, ==_refl, Bool-cases, ◌||◌,
  inl, inr, sym, ◌∙◌,
}

block_sets :
    (digest : Value → String) (action : String) (epoch : ℕ) (p : ExecutionProgress)
    → action ≢ ""
    → is_blocked (block digest action epoch p) action epoch ≡ true
unfolding block is_blocked
block_sets digest action epoch p named =
    let e : str_eq action "" ≡ false = ground (arith, eq_iff action "") in
    rw e (rw (get-enter, eq_refl) (==_refl epoch))

module _ (digest : Value → String) (o : Observation) (p : ExecutionProgress) where
  abbrev pub outcome : ProgressState
  outcome = (observe digest o p).0

  abbrev pub after : ExecutionProgress
  after = (observe digest o p).1

  -- Whether the results show something new.
  abbrev pub novel_now : Bool
  novel_now =
      (scan_results digest o.results (count_operations o p).seen_result_fingerprints false).0

  pub meaningful-eq :
      outcome.meaningful_progress ≡ (o.physical_progress || o.task_state_progress || novel_now)
  unfolding observe settle
  meaningful-eq = ground arith

  -- An outcome without progress blocks its action in its epoch at once, a first or a repeated one
  -- alike, unless the action has no signature; it is never terminal.
  pub observe-blocks :
      outcome.meaningful_progress ≡ false
      → o.action_signature ≢ ""
      → (is_blocked after o.action_signature o.reality_epoch ≡ true)
        × (outcome.terminal ≡ false)
        × (1 ≤ outcome.no_progress_repeat_count)
  unfolding observe settle
  observe-blocks stuck named =
      elim (Bool-cases (o.physical_progress || o.task_state_progress || novel_now)) [
        | inl moved ↦ absurd (false≢true (sym stuck ∙ meaningful-eq ∙ moved))
        | inr still ↦ (
          rw (outcome, after, still, observe, settle)
              (block_sets digest o.action_signature o.reality_epoch _ named),
          rw (outcome, after, still, observe, settle),
          rw (outcome, after, still, observe, settle) (omega arith),
        )
      ]

  -- Progress of any kind lifts every block and restarts every count.
  pub observe-clears :
      (action : String) (epoch : ℕ)
      → outcome.meaningful_progress ≡ true
      → (is_blocked after action epoch ≡ false)
        × (blocked_action_count after ≡ 0)
        × (after.no_progress_counts ≡ [])
        × (outcome.no_progress_repeat_count ≡ 0)
  unfolding observe settle is_blocked blocked_action_count get
  observe-clears action epoch moved = ground arith
