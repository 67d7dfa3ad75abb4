-- ===== src/Queue/Cancel.antt =====
-- eyle/runtime/queue.py: what a cancel request does to a job.
use eyle.Queue.Step.{row-write}
use eyle.Base.Text.{crop}
use eyle.Base.Table.{find_test}
use eyle.Queue.Control.{
  marcar_cancelado, cancelamento_solicitado, reason_or_default, phase_update, concluir, falhar,
  cancelar_job, cancel_row,
}
use eyle.Value.{Value}
use eyle.Queue.Statements.{row, has_id, close_cancelled, assign, cancel_processing}
use eyle.Queue.Rows.{Db, Job, cancelled, processing, is_active, stored, agora_utc}
use mathlib.Core.Option
use eyle.Base.{ℕ, String, Option, ◌≡◌, some, true, none, Bool-cases, str_eq, false, inl, refl, inr}

-- The row is closed as cancelled, for this reason and with this result.
abbrev pub ClosedAs : String → Option Value → Option Job → Type 0
ClosedAs reason resultado o =
    (k : Job) × (o ≡ some k)
    × (k.status ≡ cancelled)
    × (k.cancel_reason ≡ some reason)
    × (k.resultado ≡ Option.map stored resultado)
    × (k.erro ≡ none)

module _ (i : ℕ) (db : Db) (j : Job) (found : row i db ≡ some j) where
  pub has_id_found : has_id i j ≡ true
  has_id_found = find_test (has_id i) db.jobs j found

  marcar_cancelado_closes :
      (clock : ℕ) (motivo : Option String) (resultado : Option Value)
      → is_active j.status ≡ true
      → ClosedAs
          (crop 500 (reason_or_default motivo))
          resultado
          (row i (marcar_cancelado clock i motivo resultado db).1)
  unfolding marcar_cancelado
  marcar_cancelado_closes clock motivo resultado active =
      let reason = crop 500 (reason_or_default motivo) in
      let agora = agora_utc clock in
      let w =
        close_cancelled reason resultado
          (phase_update "cancelled" "Tarefa cancelada" agora j.progresso) in
      (
        assign agora w j,
        rw (found, marcar_cancelado) (rw (row-write, found) (rw (has_id_found, active))),
        unfold assign in refl,
        unfold assign in refl,
        unfold assign in refl,
        unfold assign in refl,
      )

  module _ (running : j.status ≡ processing) (asked : j.cancel_requested ≡ true) where
    solicitado : cancelamento_solicitado i db ≡ some (reason_or_default j.cancel_reason)
    unfolding cancelamento_solicitado
    solicitado = rw (found, cancelamento_solicitado) (rw (running, asked))

reason_twice :
    (m : Option String) → reason_or_default (some (reason_or_default m)) ≡ reason_or_default m
reason_twice none = refl
reason_twice (some s) = elim (Bool-cases (str_eq s "")) [ inl e ↦ rw e | inr e ↦ rw e (rw e) ]

-- Once a running job has a cancel request, neither `concluir` nor `falhar` ends it with its own
-- status: both return false and close the row as cancelled, for the reason of the request and with
-- no error; `concluir` drops its result, and `falhar` keeps its own.
pub finish_after_request :
    (i : ℕ) (db : Db) (j : Job) (clock : ℕ) (resultado : Value) (parcial : Option Value)
    (detalhe : String) (duracao : Option ℕ)
    → row i db ≡ some j
    → j.status ≡ processing
    → j.cancel_requested ≡ true
    → ((concluir clock i resultado duracao db).0 ≡ false)
      × ClosedAs
          (crop 500 (reason_or_default j.cancel_reason))
          none
          (row i (concluir clock i resultado duracao db).1)
      × ((falhar clock i detalhe parcial duracao db).0 ≡ false)
      × ClosedAs
          (crop 500 (reason_or_default j.cancel_reason))
          parcial
          (row i (falhar clock i detalhe parcial duracao db).1)
unfolding concluir falhar
finish_after_request i db j clock resultado parcial detalhe duracao found running asked =
    let e = solicitado i db j found running asked in
    let active : is_active j.status ≡ true = rw running in
    let close = λ (r : Option Value).
      marcar_cancelado_closes i db j found clock (some (reason_or_default j.cancel_reason)) r
        active in
    (
      rw (e, concluir),
      rw (e, concluir) (rw (reason_twice j.cancel_reason) at (close none)),
      rw (e, falhar),
      rw (e, falhar) (rw (reason_twice j.cancel_reason) at (close parcial)),
    )

-- A cancel request on a running job: the row stays in processing, with the request and its reason.
unfoldable pub asked_row : (clock : ℕ) (motivo : Option String) (j : Job) → Job
asked_row clock motivo j =
    let agora = agora_utc clock in
    assign agora
      (cancel_processing (crop 500 (reason_or_default motivo))
        (phase_update "cancelling" "Cancelando a tarefa" agora j.progresso))
      j

module _ (clock i : ℕ) (motivo : Option String) (db : Db) (j : Job) (found : row i db ≡ some j)
    (running : j.status ≡ processing) where
  pub row-cancelar_job : row i (cancelar_job clock i motivo db).1 ≡ some (asked_row clock motivo j)
  unfolding cancelar_job cancel_row asked_row
  row-cancelar_job =
      rw (found, cancelar_job)
        (rw (running, cancel_row) (rw (row-write, found) (rw (has_id_found i db j found, running))))

  -- A running job that is asked to stop, and then reports its end before any other statement on
  -- it, is closed as cancelled for the reason that was given: `cancelar_job` answers that it
  -- changed a job in processing, and `concluir` returns false.
  pub cancelar_job-concluir :
      (later : ℕ) (resultado : Value) (duracao : Option ℕ)
      → ((cancelar_job clock i motivo db).0
          ≡ record { job_id = i; status = some processing; changed = true })
        × ((concluir later i resultado duracao (cancelar_job clock i motivo db).1).0 ≡ false)
        × ClosedAs
            (crop 500 (reason_or_default (some (crop 500 (reason_or_default motivo)))))
            none
            (row i (concluir later i resultado duracao (cancelar_job clock i motivo db).1).1)
  cancelar_job-concluir later resultado duracao =
      let done =
        finish_after_request i (cancelar_job clock i motivo db).1 (asked_row clock motivo j) later
          resultado none "" duracao row-cancelar_job (unfold asked_row assign in running)
          (unfold asked_row assign in refl) in
      (
        unfold cancelar_job cancel_row in rw (found, cancelar_job) (rw (running, cancel_row)),
        done.0,
        unfold asked_row assign in done.1,
      )
