-- ===== src/Progress/FixedPoint.antt =====
-- eyle/runtime/execution_progress.py: what is seen stays seen, and a repeated outcome is a fixed
-- point that only its counter records.
use eyle.Progress.Blocking.{novel_now, meaningful-eq}
use mathlib.Core.Bool.{false≢true}
use eyle.Base.Dict.{member, get, member-include, or-true, enter, include, get-enter}
use eyle.Progress.Detector.{
  Observation, scan_results, ExecutionProgress, fingerprint, no_progress_key_of, observe,
  count_operations, block, settle, is_blocked,
}
use eyle.Value.{Value, Fields}
use text.Mathlib.TextPositions.{eq_refl}
use native.Mathlib.Nat.{add-zero}
use eyle.Base.{
  ℕ, String, List, All, Bool, ◌≡◌, ◌≢◌, false, true, ◌∷◌, [], some, ◌+◌, refl, str_eq, arith,
  eq_iff, ==_refl, suc, zero, Bool-cases, ◌∙◌, ◌||◌, inl, sym, inr,
}

module _ (digest : Value → String) where
  abbrev pub Known : List Fields → List String → Type 0
  Known rows seen = All (λ d. member (fingerprint digest d) seen ≡ true) rows

  member-include_of :
      (k : String) (s : List String) (j : String)
      → member j s ≡ true
      → member j (include k s) ≡ true
  member-include_of k s j h = rw (member-include, h)

  -- The loop forgets nothing.
  scan_results-keeps :
      (rows : List Fields) (seen : List String) (novel : Bool) (j : String)
      → member j seen ≡ true
      → member j (scan_results digest rows seen novel).1 ≡ true
  unfolding scan_results
  scan_results-keeps [] seen novel j h = h
  scan_results-keeps (d ∷ rows) seen novel j h =
      scan_results-keeps rows _ _ j (member-include_of (fingerprint digest d) seen j h)

  Known-scan :
      (rows : List Fields) (seen : List String) (novel : Bool)
      → Known rows (scan_results digest rows seen novel).1
  unfolding scan_results
  Known-scan [] seen novel = tt
  Known-scan (d ∷ rows) seen novel = (
    scan_results-keeps rows _ _ (fingerprint digest d)
        (rw (member-include, eq_refl) (or-true (member (fingerprint digest d) seen))),
    Known-scan rows _ _,
  )

  -- Known results are not new, and include nothing.
  scan-Known :
      (rows : List Fields) (seen : List String)
      → Known rows seen
      → scan_results digest rows seen false ≡ (false, seen)
  unfolding scan_results include
  scan-Known [] seen h = refl
  scan-Known (d ∷ rows) seen h = rw (h.0) (scan-Known rows seen h.1)

  -- The outcome `o` has been observed, without progress, `c` times since the last progress.
  pub record Repeats (o : Observation) (c : ℕ) (p : ExecutionProgress) : Type 0 where
    pub known : Known o.results p.seen_result_fingerprints
    pub counted : get (no_progress_key_of digest o) p.no_progress_counts ≡ some c
    pub blocked : get o.action_signature p.blocked_actions ≡ some o.reality_epoch

  block_same :
      (action : String) (epoch : ℕ) (p : ExecutionProgress)
      → action ≢ ""
      → get action p.blocked_actions ≡ some epoch
      → block digest action epoch p
        ≡ record p { blocked_actions = enter action epoch p.blocked_actions }
  unfolding block
  block_same action epoch p named h =
      let e : str_eq action "" ≡ false = ground (arith, eq_iff action "") in
      rw e (rw (h, ==_refl epoch))

  module _ (o : Observation) (p : ExecutionProgress) (named : o.action_signature ≢ "")
      (no_effect : o.physical_progress ≡ false) (no_step : o.task_state_progress ≡ false) where
    observe-Known :
        Known o.results p.seen_result_fingerprints
        → observe digest o p ≡ settle digest o false (count_operations o p)
    unfolding observe count_operations
    observe-Known h = simp (no_step, scan-Known o.results p.seen_result_fingerprints h)

    -- What the counters of a quiet outcome leave alone.
    count_quiet :
        (c : ℕ)
        → Repeats o c p
        → Repeats o c (count_operations o p)
          × ((count_operations o p).fixed_points_blocked_total ≡ p.fixed_points_blocked_total)
    unfolding count_operations
    count_quiet c r =
        simp no_step (record { known = r.known; counted = r.counted; blocked = r.blocked }, refl)

    settle_quiet :
        (c : ℕ) (q : ExecutionProgress)
        → Repeats o c q
        → Repeats o (c + 1) (settle digest o false q).1
          × ((settle digest o false q).0.no_progress_repeat_count ≡ c + 1)
          × ((settle digest o false q).0.meaningful_progress ≡ false)
          × ((settle digest o false q).1.fixed_points_blocked_total ≡ q.fixed_points_blocked_total)
    unfolding settle
    settle_quiet c q r =
        let same =
          block_same o.action_signature o.reality_epoch
            (record q {
              no_progress_counts = enter (no_progress_key_of digest o) (c + 1) q.no_progress_counts;
            })
            named r.blocked in
        simp (no_effect, no_step, r.counted, same)
          (
            record {
              known = r.known;
              counted = rw (get-enter, eq_refl);
              blocked = rw (get-enter, eq_refl);
            },
            refl,
            refl,
            refl,
          )

  -- The same outcome observed `n` times in a row.
  unfoldable pub again : Observation → ℕ → ExecutionProgress → ExecutionProgress
  again o zero p = p
  again o (suc n) p = (observe digest o (again o n p)).1

  -- The outcome, observed once more after `n` times, from a state in which its count is `c`.
  abbrev pub FixedPoint : Observation → ℕ → ℕ → ExecutionProgress → Type 0
  FixedPoint o c n p =
      ((observe digest o (again o n p)).0.meaningful_progress ≡ false)
      × ((observe digest o (again o n p)).0.no_progress_repeat_count ≡ c + n + 1)
      × (is_blocked (again o n p) o.action_signature o.reality_epoch ≡ true)
      × ((again o n p).fixed_points_blocked_total ≡ p.fixed_points_blocked_total)

  module _ (o : Observation) (p : ExecutionProgress) (named : o.action_signature ≢ "")
      (no_effect : o.physical_progress ≡ false) (no_step : o.task_state_progress ≡ false) (c : ℕ)
      (r : Repeats o c p) where
    again-Repeats :
        (n : ℕ)
        → Repeats o (c + n) (again o n p)
          × ((again o n p).fixed_points_blocked_total ≡ p.fixed_points_blocked_total)
    unfolding again
    again-Repeats zero = (rw add-zero r, refl)
    again-Repeats (suc n) =
        let (ih, total) = again-Repeats n in
        let (counted, kept) = count_quiet o (again o n p) named no_effect no_step (c + n) ih in
        let (now, _, _, still) =
          settle_quiet o (again o n p) named no_effect no_step (c + n) _ counted in
        let step = observe-Known o (again o n p) named no_effect no_step ih.known in
        let arithmetic : c + n + 1 ≡ c + suc n = omega arith in
        rw (again, step) (rw arithmetic at now, still ∙ kept ∙ total)

    observe-again : (n : ℕ) → FixedPoint o c n p
    observe-again n =
        let (ih, total) = again-Repeats n in
        let (counted, _) = count_quiet o (again o n p) named no_effect no_step (c + n) ih in
        let (_, count, stuck, _) =
          settle_quiet o (again o n p) named no_effect no_step (c + n) _ counted in
        let step = observe-Known o (again o n p) named no_effect no_step ih.known in
        let e : str_eq o.action_signature "" ≡ false =
          ground (arith, eq_iff o.action_signature "") in
        (
          rw step stuck,
          rw step count,
          unfold is_blocked in rw e (rw (ih.blocked) (==_refl o.reality_epoch)),
          total,
        )

  -- An outcome without progress leaves its action blocked and its results and its count on record.
  observe-Repeats :
      (o : Observation) (p : ExecutionProgress)
      → (observe digest o p).0.meaningful_progress ≡ false
      → o.action_signature ≢ ""
      → Repeats o (observe digest o p).0.no_progress_repeat_count (observe digest o p).1
  unfolding observe settle
  observe-Repeats o p stuck named =
      let known = Known-scan o.results (count_operations o p).seen_result_fingerprints false in
      elim (Bool-cases (o.physical_progress || o.task_state_progress || novel_now digest o p)) [
        | inl moved ↦ absurd (false≢true (sym stuck ∙ meaningful-eq digest o p ∙ moved))
        | inr still ↦
            let e : str_eq o.action_signature "" ≡ false =
              ground (arith, eq_iff o.action_signature "") in
            rw (still, observe, settle)
              (unfold block in
                rw e (record {
                  known = known;
                  counted = rw (get-enter, eq_refl);
                  blocked = rw (get-enter, eq_refl);
                }))
      ]

  or_false : (a b c : Bool) → (a || b || c) ≡ false → (a ≡ false) × (b ≡ false)
  or_false false false c h = (refl, refl)
  or_false false true c h = absurd (false≢true (sym h))
  or_false true b c h = absurd (false≢true (sym h))

  -- If an outcome whose action has a signature (which is not empty) makes no progress, then the same
  -- outcome, observed after it and after `n` more of the same, makes none either: its counter is `n + 1` higher
  -- than at first, its action is blocked in its epoch, and no further fixed point is counted.
  pub observe-FixedPoint :
      (o : Observation) (p : ExecutionProgress) (n : ℕ)
      → (observe digest o p).0.meaningful_progress ≡ false
      → o.action_signature ≢ ""
      → FixedPoint o (observe digest o p).0.no_progress_repeat_count n (observe digest o p).1
  observe-FixedPoint o p n stuck named =
      let (no_effect, no_step) =
        or_false o.physical_progress o.task_state_progress (novel_now digest o p)
          (sym (meaningful-eq digest o p) ∙ stuck) in
      observe-again o (observe digest o p).1 named no_effect no_step
        (observe digest o p).0.no_progress_repeat_count (observe-Repeats o p stuck named) n
