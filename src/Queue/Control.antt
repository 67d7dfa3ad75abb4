-- ===== src/Queue/Control.antt =====
-- eyle/runtime/queue.py: progress, cancellation and the end of a job.
use mathlib.Core.Option
use eyle.Base.{ℕ, String, Bool, true, false, not, ◌||◌, Option, none, some, if◌then◌else◌, str_eq}
use eyle.Base.Text.{crop}
use eyle.Value.{Value, text, obj, instant, float, Fields, end, field, put, merge}
use eyle.Queue.Rows.{
  Status, pending, processing, cancelled, same_status, is_active, Column, Db, agora_utc,
}
use eyle.Queue.Statements.{
  progress, cancel_pending, cancel_processing, close_cancelled, complete, fail, write, writes, row,
  signal,
}
use eyle.Queue.Statements.{current_progress}

-- `progresso` and `campos` are joined into the patch.
unfoldable pub atualizar_progresso : ℕ → ℕ → Fields → Db → Bool × Db
atualizar_progresso clock i end db = (false, db)
atualizar_progresso clock i (field k v patch) db = elim (row i db) [
  | none ↦ (false, db)
  | some linha ↦
      if not (is_active linha.status) || linha.cancel_requested
      then (false, db)
      else let agora = agora_utc clock in
        let atual = merge (current_progress linha.progresso) (field k v patch) in
        let w = progress (obj (put "updated_at" (instant agora) atual)) in
        (writes i w db, write agora i w db)
]

-- `str(motivo or "cancelado pelo usuario")`
abbrev pub reason_or_default : Option String → String
reason_or_default none = "cancelado pelo usuario"
reason_or_default (some s) = if str_eq s "" then "cancelado pelo usuario" else s

unfoldable pub cancelamento_solicitado : ℕ → Db → Option String
cancelamento_solicitado i db = elim (row i db) [
  | none ↦ none
  | some linha ↦
      if same_status linha.status cancelled || linha.cancel_requested
      then some (reason_or_default linha.cancel_reason)
      else none
]

-- The dict that `cancelar_job` returns; a status `none` is "missing".
pub record CancelReply : Type 0 where
  pub job_id : ℕ
  pub status : Option Status
  pub changed : Bool

-- `progresso.update({"phase": …, "message": …, "updated_at": agora})`
unfoldable pub phase_update : String → String → ℕ → Option Column → Value
phase_update phase message agora c = obj (
    merge (current_progress c) (
      field "phase" (text phase)
        (field "message" (text message) (field "updated_at" (instant agora) end))))

-- The rest of `cancelar_job`, by the status that the row has.
unfoldable pub cancel_row : ℕ → ℕ → String → Status → Option Column → Db → CancelReply × Db
cancel_row agora i reason pending c db =
    let p = phase_update "cancelled" "Tarefa cancelada" agora c in
    (
      record { job_id = i; status = some cancelled; changed = true },
      signal true (write agora i (cancel_pending reason p) db),
    )
cancel_row agora i reason processing c db =
    let p = phase_update "cancelling" "Cancelando a tarefa" agora c in
    (
      record { job_id = i; status = some processing; changed = true },
      signal true (write agora i (cancel_processing reason p) db),
    )
cancel_row agora i reason s c db = (record { job_id = i; status = some s; changed = false }, db)

unfoldable pub cancelar_job : ℕ → ℕ → Option String → Db → CancelReply × Db
cancelar_job clock i motivo db =
    let reason = crop 500 (reason_or_default motivo) in
    elim (row i db) [
      | none ↦ (record { job_id = i; status = none; changed = false }, db)
      | some linha ↦ cancel_row (agora_utc clock) i reason linha.status linha.progresso db
    ]

unfoldable pub marcar_cancelado : ℕ → ℕ → Option String → Option Value → Db → Bool × Db
marcar_cancelado clock i motivo resultado db =
    let reason = crop 500 (reason_or_default motivo) in
    let agora = agora_utc clock in
    elim (row i db) [
      | none ↦ (false, db)
      | some linha ↦
          let p = phase_update "cancelled" "Tarefa cancelada" agora linha.progresso in
          let w = close_cancelled reason resultado p in (writes i w db, write agora i w db)
    ]

-- The two entries that `concluir` and `falhar` publish, and the duration, already clipped at 0 and
-- rounded, where one is given and is a number: the float duracao / 2^1074.
unfoldable pub final_fields : String → String → Fields → Option ℕ → Fields
final_fields phase message more duracao =
    let elapsed =
      Option.get_or (Option.map (λ h. field "elapsed_seconds" (float h) end) duracao) end in
    field "phase" (text phase) (field "message" (text message) (merge more elapsed))

unfoldable pub concluir : ℕ → ℕ → Value → Option ℕ → Db → Bool × Db
concluir clock i resultado duracao db = elim (cancelamento_solicitado i db) [
  | some motivo ↦ (false, (marcar_cancelado clock i (some motivo) none db).1)
  | none ↦
      let fields = final_fields "completed" "Tarefa concluida" end duracao in
      let published = (atualizar_progresso clock i fields db).1 in
      (
        writes i (complete resultado) published,
        write (agora_utc clock) i (complete resultado) published,
      )
]

-- `detalhe` is the text of the error, with its class in front where it is an exception.
unfoldable pub falhar : ℕ → ℕ → String → Option Value → Option ℕ → Db → Bool × Db
falhar clock i detalhe resultado duracao db = elim (cancelamento_solicitado i db) [
  | some motivo ↦ (false, (marcar_cancelado clock i (some motivo) resultado db).1)
  | none ↦
      let more = field "error" (text (crop 500 detalhe)) end in
      let fields = final_fields "failed" "A tarefa falhou" more duracao in
      let published = (atualizar_progresso clock i fields db).1 in
      (
        writes i (fail resultado detalhe) published,
        write (agora_utc clock) i (fail resultado detalhe) published,
      )
]
