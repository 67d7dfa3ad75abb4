-- ===== src/Queue/Taken.antt =====
-- eyle/runtime/queue.py: what the updates of `recuperar_interrompidos` do to a job that its SELECT
-- chose to requeue.
use mathlib.Core.Path.{refl}
use mathlib.Core.Bool.{false≢true}
use eyle.Base.Table.{find, find_test}
use eyle.Queue.Rows.{Db, Job, processing, same_status}
use eyle.Queue.Statements.{row, assign, requeue, recover_cancelled, has_id, write, Write, hits}
use eyle.Queue.Step.{row-write, Ascends}
use eyle.Queue.History.{find-below}
use eyle.Queue.Recovery.{
  scan, verdict, Verdict, cancel, recolocar, leave, enlist, recover, close_all, requeue_all,
}
use eyle.Base.{
  ℕ, Bool, String, ◌≡◌, some, none, [], ◌∷◌, true, false, List, any, Bool-cases, inl, inr, arith,
  ◌==◌, ◌∙◌, subst, suc, Option-cases,
}

abbrev pub closes : ℕ → List (ℕ × String) → Bool
closes i = any (λ c. c.0 == i)

abbrev pub takes : ℕ → List ℕ → Bool
takes i = any (λ k. k == i)

-- An UPDATE of another job leaves the row.
row-write_other :
    (agora k i : ℕ) (w : Write) (d : Db) → (k == i) ≡ false → row i (write agora k w d) ≡ row i d
row-write_other agora k i w d other = elim (Option-cases (row i d)) [
  | inl absent ↦ rw (row-write, absent) refl
  | inr (r, there) ↦
      let is_i : has_id i r ≡ true = find_test (has_id i) d.jobs r there in
      let missed : hits k w r ≡ false = ground arith in rw (row-write, there, missed) refl
]

close_all-row :
    (agora i : ℕ) (cancelados : List (ℕ × String)) (d : Db)
    → closes i cancelados ≡ false
    → row i (close_all agora cancelados d) ≡ row i d
unfolding close_all
close_all-row agora i [] d spared = refl
close_all-row agora i ((k, motivo) ∷ cancelados) d spared =
    let other : (k == i) ≡ false = ground arith in
    let rest : closes i cancelados ≡ false = ground arith in
    close_all-row agora i cancelados (write agora k (recover_cancelled motivo) d) rest
    ∙ row-write_other agora k i (recover_cancelled motivo) d other

-- What is no longer in processing is not requeued again.
requeue_all-row :
    (agora i : ℕ) (ids : List ℕ) (d : Db) (r : Job)
    → row i d ≡ some r
    → same_status r.status processing ≡ false
    → row i (requeue_all agora ids d).1 ≡ some r
unfolding requeue_all
requeue_all-row agora i [] d r there done = there
requeue_all-row agora i (k ∷ ids) d r there done =
    let missed : hits k requeue r ≡ false = ground arith in
    requeue_all-row agora i ids (write agora k requeue d) r (rw (row-write, there, missed) refl)
      done

requeue_all-takes :
    (agora i : ℕ) (ids : List ℕ) (d : Db) (r : Job)
    → takes i ids ≡ true
    → row i d ≡ some r
    → same_status r.status processing ≡ true
    → row i (requeue_all agora ids d).1 ≡ some (assign agora requeue r)
unfolding requeue_all assign
requeue_all-takes agora i [] d r taken there open_ = absurd (false≢true taken)
requeue_all-takes agora i (k ∷ ids) d r taken there open_ = elim (Bool-cases (k == i)) [
  | inl this ↦
      let is_i : has_id i r ≡ true = find_test (has_id i) d.jobs r there in
      let hit : hits k requeue r ≡ true = ground arith in
      requeue_all-row agora i ids (write agora k requeue d) (assign agora requeue r)
        (rw (row-write, there, hit) refl) refl
  | inr other ↦
      let rest : takes i ids ≡ true = rw other at taken in
      requeue_all-takes agora i ids (write agora k requeue d) r rest
        (row-write_other agora k i requeue d other ∙ there) open_
]

pub row-recover :
    (agora i : ℕ) (cancelados : List (ℕ × String)) (ids : List ℕ) (d : Db) (r : Job)
    → closes i cancelados ≡ false
    → takes i ids ≡ true
    → row i d ≡ some r
    → same_status r.status processing ≡ true
    → row i (recover agora (cancelados, ids) d).1 ≡ some (assign agora requeue r)
unfolding recover
row-recover agora i cancelados ids d r spared taken there open_ =
    let closed = close_all agora cancelados d in
    let done =
      requeue_all-takes agora i ids closed r taken
        (close_all-row agora i cancelados d spared ∙ there) open_ in
    elim (Bool-cases ((requeue_all agora ids closed).0 == 0)) [
      | inl e ↦ rw e done
      | inr e ↦ rw e done
    ]

-- A verdict on another job adds nothing of this one to those to close.
enlist-spares :
    (v : Verdict) (k i : ℕ) (r : List (ℕ × String) × List ℕ)
    → (k == i) ≡ false
    → closes i r.0 ≡ false
    → closes i (enlist v k r).0 ≡ false
unfolding enlist
enlist-spares (cancel motivo) k i r other spared = rw other spared
enlist-spares recolocar k i r other spared = spared
enlist-spares leave k i r other spared = spared

enlist-takes :
    (v : Verdict) (k i : ℕ) (r : List (ℕ × String) × List ℕ)
    → (k == i) ≡ false
    → takes i r.1 ≡ true
    → takes i (enlist v k r).1 ≡ true
unfolding enlist
enlist-takes (cancel motivo) k i r other taken = taken
enlist-takes recolocar k i r other taken = rw other taken
enlist-takes leave k i r other taken = taken

module _ (pid_ativo : ℕ → Bool) (clock stale_after : ℕ) (force : Bool) (db : Db) (i : ℕ) where
  abbrev found_in : List Job → List (ℕ × String) × List ℕ
  found_in t = scan pid_ativo clock stale_after force db t

  scan-spares : (t : List Job) → find (has_id i) t ≡ none → closes i (found_in t).0 ≡ false
  unfolding scan
  scan-spares [] absent = refl
  scan-spares (linha ∷ t) absent =
      let other : has_id i linha ≡ false = ground arith in
      let rest = scan-spares t (rw other at absent) in
      elim (Bool-cases (same_status linha.status processing)) [
        | inl running ↦ rw running (
            enlist-spares (verdict pid_ativo clock stale_after force db linha) linha.id i _ other
              rest)
        | inr idle ↦ rw idle rest
      ]

  -- The job that is requeued is on the one list, and not on the other.
  pub scan-takes :
      (lo hi : ℕ) (t : List Job) (j : Job)
      → Ascends lo hi t
      → find (has_id i) t ≡ some j
      → same_status j.status processing ≡ true
      → verdict pid_ativo clock stale_after force db j ≡ recolocar
      → (closes i (found_in t).0 ≡ false) × (takes i (found_in t).1 ≡ true)
  unfolding scan enlist
  scan-takes lo hi [] j ascends found running chosen = absurd (cc)
  scan-takes lo hi (linha ∷ t) j ascends found running chosen = elim (Bool-cases (has_id i linha)) [
    | inl this ↦
        let same : linha ≡ j = ground arith in
        let absent : find (has_id i) t ≡ none =
          find-below (suc linha.id) hi i t ascends.2 (ground arith) in
        let spared = scan-spares t absent in
        let is_i : (j.id == i) ≡ true = subst (λ k. has_id i k ≡ true) same this in
        rw (same, running, chosen) (spared, rw is_i refl)
    | inr other ↦
        let (spared, taken) =
          scan-takes (suc linha.id) hi t j ascends.2 (rw other at found) running chosen in
        elim (Bool-cases (same_status linha.status processing)) [
          | inl busy ↦
              let v = verdict pid_ativo clock stale_after force db linha in
              rw busy (
                enlist-spares v linha.id i (found_in t) other spared,
                enlist-takes v linha.id i (found_in t) other taken,
              )
          | inr idle ↦ rw idle (spared, taken)
        ]
  ]
