-- ===== src/Queue/CancelTests.antt =====
-- Runs of cancellation, and of its race with the recovery.
use eyle.Queue.Statements.{row, writes, reserve, write}
use eyle.Queue.Cancel.{ClosedAs, cancelar_job-concluir, finish_after_request}
use eyle.Queue.Race.{requeued_db, request_lost}
use eyle.Queue.Recovery.{verdict, verdict_on, recolocar}
use eyle.Queue.Step.{Ascends}
use eyle.Queue.Control.{cancelar_job, concluir, cancelamento_solicitado, reason_or_default, falhar}
use mathlib.Core.Path.{refl}
use eyle.Base.Text.{crop}
use eyle.Queue.Rows.{processing, Db, Job, stored}
use eyle.Queue.Tests.{question, raw_job, running_job, with_jobs}
use eyle.Value.{text, obj, null}
use eyle.Base.{arith, none, some, true, ◌∷◌, [], false, ◌≡◌, ◌≢◌}

abbrev asked_job : Job
asked_job = raw_job 3 (stored (obj question)) processing true

finish_after_request_example :
    ((concluir 9 3 (text "feito") none (with_jobs (asked_job ∷ []))).0 ≡ false)
    × ClosedAs
        (crop 500 (reason_or_default none))
        none
        (row 3 (concluir 9 3 (text "feito") none (with_jobs (asked_job ∷ []))).1)
    × ((falhar 9 3 "erro" (some null) none (with_jobs (asked_job ∷ []))).0 ≡ false)
    × ClosedAs
        (crop 500 (reason_or_default none))
        (some null)
        (row 3 (falhar 9 3 "erro" (some null) none (with_jobs (asked_job ∷ []))).1)
finish_after_request_example =
    finish_after_request 3 (with_jobs (asked_job ∷ [])) asked_job 9 (text "feito") (some null)
      "erro" none refl refl refl

cancelar_job-concluir_example :
    ((cancelar_job 8 3 (some "pare") (with_jobs (running_job ∷ []))).0
      ≡ record { job_id = 3; status = some processing; changed = true })
    × ((concluir 9 3 null none (cancelar_job 8 3 (some "pare") (with_jobs (running_job ∷ []))).1).0
        ≡ false)
    × ClosedAs
        (crop 500 (reason_or_default (some (crop 500 (reason_or_default (some "pare"))))))
        none
        (row 3
          (concluir 9 3 null none
            (cancelar_job 8 3 (some "pare") (with_jobs (running_job ∷ []))).1).1)
cancelar_job-concluir_example =
    cancelar_job-concluir 8 3 (some "pare") (with_jobs (running_job ∷ [])) running_job refl refl 9
      null none

-- A job that runs, beside one that the same recovery closes.
abbrev two_running : Db
two_running = with_jobs (running_job ∷ raw_job 5 (stored (obj question)) processing true ∷ [])

requeues : verdict (λ p. true) 100 30 false two_running running_job ≡ recolocar
unfolding verdict verdict_on mathlib.Core.Option.bind
requeues = refl

two_ids : Ascends 0 two_running.next_id two_running.jobs
two_ids = omega arith

abbrev lost_db : Db
lost_db =
    requeued_db (λ p. true) 30 false 100 3 (some "pare") two_running running_job refl refl two_ids
      requeues

request_lost_example :
    ((cancelar_job 100 3 (some "pare") two_running).0.changed ≡ true)
    × (cancelamento_solicitado 3 lost_db ≢ none)
    × (writes 3 (reserve (some "w2")) lost_db ≡ true)
    × (cancelamento_solicitado 3 (write 200 3 (reserve (some "w2")) lost_db) ≡ none)
request_lost_example =
    request_lost (λ p. true) 30 false 100 3 (some "pare") two_running running_job refl refl two_ids
      requeues 200 (some "w2")
