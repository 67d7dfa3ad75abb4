-- ===== src/Queue/Race.antt =====
-- eyle/runtime/queue.py: `recuperar_interrompidos` reads the jobs in processing by one statement and
-- requeues them by others, with no transaction around them, and the UPDATE that requeues a job does
-- not look at `cancel_requested`. A cancel request that arrives in between is lost.
use eyle.Queue.Step.{row-write, Ascends}
use eyle.Base.Table.{find_test, find}
use eyle.Queue.Cancel.{asked_row, row-cancelar_job}
use eyle.Queue.Control.{cancelar_job, cancelamento_solicitado, cancel_row}
use eyle.Queue.Recovery.{scan, recover, verdict, recolocar}
use eyle.Queue.Taken.{row-recover, scan-takes}
use eyle.Queue.Statements.{row, assign, requeue, has_id, write, writes, reserve, Write, guard, hits}
use eyle.Queue.Rows.{Db, Job, processing, same_status, agora_utc}
use eyle.Base.{
  ℕ, Bool, Option, String, ◌≡◌, some, [], ◌∷◌, true, arith, ◌≢◌, none, List, any, Bool-cases, refl,
  inl, inr,
}

any_hit :
    (i : ℕ) (w : Write) (t : List Job) (j : Job)
    → find (has_id i) t ≡ some j
    → guard w j ≡ true
    → any (hits i w) t ≡ true
any_hit i w [] j e g = cc
any_hit i w (k ∷ t) j e g = elim (Bool-cases (has_id i k)) [
  | inl this ↦
      let same : k ≡ j = ground arith in
      let open_ : guard w k ≡ true = rw same g in rw (this, open_)
  | inr other ↦ rw other (any_hit i w t j (rw other at e) g)
]

module _ (pid_ativo : ℕ → Bool) (stale_after : ℕ) (force : Bool) (clock i : ℕ)
    (motivo : Option String) (db : Db) (j : Job) (found : row i db ≡ some j)
    (running : j.status ≡ processing) (ids : Ascends 0 db.next_id db.jobs)
    (chosen : verdict pid_ativo clock stale_after force db j ≡ recolocar) where
  -- The database after the cancel request, and after the updates that the earlier SELECT chose.
  abbrev pub asked_db : Db
  asked_db = (cancelar_job clock i motivo db).1

  abbrev pub requeued_db : Db
  requeued_db =
      (recover (agora_utc clock) (scan pid_ativo clock stale_after force db db.jobs) asked_db).1

  requeued_row : Job
  requeued_row = assign (agora_utc clock) requeue (asked_row clock motivo j)

  row_requeued : row i requeued_db ≡ some requeued_row
  unfolding requeued_row
  row_requeued =
      let is_running : same_status j.status processing ≡ true = rw running refl in
      let (spared, taken) =
        scan-takes pid_ativo clock stale_after force db i 0 db.next_id db.jobs j ids found
          is_running chosen in
      let still : same_status (asked_row clock motivo j).status processing ≡ true =
        unfold asked_row assign in is_running in
      row-recover (agora_utc clock) i (scan pid_ativo clock stale_after force db db.jobs).0
        (scan pid_ativo clock stale_after force db db.jobs).1 asked_db (asked_row clock motivo j)
        spared taken (row-cancelar_job clock i motivo db j found running) still

  -- In a table whose ids ascend, a cancel request for a running job that arrives between the SELECT of a
  -- recovery that chose to requeue it and the updates, whatever other jobs it takes up, is lost: the request
  -- is acknowledged and on record after the updates, the job can be reserved, and its next reservation
  -- clears the request.
  pub request_lost :
      (later : ℕ) (worker : Option String)
      → ((cancelar_job clock i motivo db).0.changed ≡ true)
        × (cancelamento_solicitado i requeued_db ≢ none)
        × (writes i (reserve worker) requeued_db ≡ true)
        × (cancelamento_solicitado i (write later i (reserve worker) requeued_db) ≡ none)
  unfolding cancelamento_solicitado writes requeued_row asked_row assign
  request_lost later worker =
      let at_last = row_requeued in
      let id_kept : has_id i requeued_row ≡ true =
        find_test (has_id i) requeued_db.jobs requeued_row at_last in
      let restarted : row i (write later i (reserve worker) requeued_db)
          ≡ some (assign later (reserve worker) requeued_row) =
        rw (row-write, at_last) (rw id_kept refl) in
      (
        unfold cancelar_job cancel_row in rw (found, cancelar_job) (rw (running, cancel_row)),
        rw (at_last, cancelamento_solicitado) (λ e. cc),
        any_hit i (reserve worker) requeued_db.jobs requeued_row at_last refl,
        rw (restarted, cancelamento_solicitado),
      )
