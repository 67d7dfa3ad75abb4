-- ===== src/Queue/Tests.antt =====
-- Small databases, and what the operations of eyle/runtime/queue.py do on them.
use mathlib.Core.Option
use eyle.Queue.Programs.{concluir-Steps}
use eyle.Base.Text.{strip, crop}
use eyle.Queue.History.{Lasts, Steps-Lasts, Steps-finished}
use eyle.Queue.Fifo.{outcome, waiting, serve, waiting-adicionar, reservar_proximo-serve}
use eyle.Queue.Control.{
  atualizar_progresso, cancelamento_solicitado, phase_update, cancel_row, cancelar_job,
  marcar_cancelado, final_fields, concluir, falhar,
}
use eyle.Queue.Statements.{
  write, new_job, writes, assign, insert_job, loads_dict, current_progress, row, complete, progress,
}
use eyle.Value.{Fields, Value, field, obj, text, num, end, null, lookup, put, merge, truthy}
use eyle.Queue.Step.{IsQueue, Steps-IsQueue, next, here, update_job}
use eyle.Queue.Rows.{
  Column, Db, Job, agora_utc, Status, completed, malformed, stored, pending, processing,
}
use eyle.Queue.Reserve.{
  adicionar, reservar_proximo, added, value_error, registrar_heartbeat, type_error, tipo_of, tag,
  reservar_loop, proximo,
}
use eyle.Queue.Recovery.{
  recuperar_interrompidos, tamanho, verdict_on, verdict, scan, close_all, requeue_all, recover,
}
use eyle.Base.{
  ℕ, List, String, [], some, true, ◌∷◌, Bool, arith, false, ◌≡◌, none, refl, ◌≢◌, eq_iff, ◌++◌, max,
}

abbrev empty_db : Db
empty_db = record { jobs = []; next_id = 1; heartbeats = []; evento_disponivel = false }

abbrev as_text : Value → String
as_text v = "?"

abbrev why : Column → String
why c = "payload invalido"

abbrev pub question : Fields
question = field "type" (text " pergunta ") (field "mensagem_id" (num 7) end)

abbrev pub raw_job : ℕ → Column → Status → Bool → Job
raw_job i payload status asked = record {
  id = i;
  tipo = "pergunta";
  payload = payload;
  status = status;
  tentativas = 1;
  criado_em = 0;
  atualizado_em = 0;
  iniciado_em = some 0;
  concluido_em = none;
  resultado = none;
  erro = none;
  worker_id = some "w1";
  progresso = none;
  progresso_seq = 0;
  cancel_requested = asked;
  cancel_reason = none;
}

abbrev pub running_job : Job
running_job = raw_job 3 (stored (obj question)) processing false

abbrev pub done_job : Job
done_job = record running_job {
  id = 2;
  status = completed;
  resultado = some (stored (text "ok"));
  concluido_em = some 5;
}

abbrev pub with_jobs : List Job → Db
with_jobs js = record empty_db { jobs = js; next_id = 9 }

abbrev broken_job : Job
broken_job = record running_job {
  id = 4;
  payload = malformed;
  status = pending;
  iniciado_em = none;
  worker_id = none;
}

program : Unit {0}
unfolding agora_utc write writes assign insert_job loads_dict current_progress registrar_heartbeat
    tipo_of adicionar tag reservar_loop reservar_proximo proximo atualizar_progresso
    cancelamento_solicitado phase_update cancel_row cancelar_job marcar_cancelado final_fields
    concluir falhar verdict_on verdict scan close_all requeue_all recover recuperar_interrompidos
    tamanho lookup put merge truthy strip crop Option.bind
program = tt

abbrev two_added : Db
two_added =
    (adicionar as_text 5_000_001 (obj question) (adicionar as_text 1 (obj question) empty_db).1).1

add_twice :
    ((adicionar as_text 1 (obj question) two_added).0 ≡ added 3)
    × (tamanho two_added ≡ 2)
    × ((adicionar as_text 1 (obj end) two_added).0 ≡ value_error)
    × ((adicionar as_text 1 null two_added).0 ≡ type_error)
unfolding program
add_twice = (refl, refl, refl, refl)

-- The unreadable job in front is failed, and the next one is taken.
reserve_past_broken :
    (reservar_proximo why 7_000_000 100
      (some "w2")
      (with_jobs (broken_job ∷ new_job 5 "pergunta" (obj question) 0 ∷ []))).0
    ≡ some (
        field "type" (text " pergunta ") (
          field "mensagem_id"
            (num 7)
            (field "_job_id" (num 5) (field "_job_tentativa" (num 1) end))))
unfolding program
reserve_past_broken = refl

rescue_stale :
    (recuperar_interrompidos (λ p. true) 100 30 false (with_jobs (running_job ∷ []))).0 ≡ 1
unfolding program
rescue_stale = refl

running_valid : IsQueue (with_jobs (done_job ∷ running_job ∷ []))
running_valid = record {
  ids = omega arith;
  rows = ((omega arith, refl, refl, refl, refl), ((omega arith, refl, refl, refl), tt));
}

pending_valid : IsQueue (with_jobs (new_job 5 "pergunta" (obj question) 0 ∷ []))
pending_valid = record { ids = omega arith; rows = ((refl, refl, refl, refl), tt) }

abbrev after_running : Db
after_running =
    (concluir 9_000_000 3 (text "feito") (some 250) (with_jobs (done_job ∷ running_job ∷ []))).1

Steps-IsQueue_example : IsQueue after_running
Steps-IsQueue_example =
    Steps-IsQueue running_valid (concluir-Steps 9_000_000 3 (text "feito") (some 250) _)

abbrev one_running : Db
one_running = with_jobs (running_job ∷ [])

abbrev reported : Db
reported = write 8 3 (progress null) one_running

Steps-Lasts_example :
    Lasts running_job (row 3 reported) (row 3 (write 9 3 (complete (text "feito")) reported))
Steps-Lasts_example =
    Steps-Lasts 3 running_job (next here (update_job 8 3 (progress null) one_running))
      (update_job 9 3 (complete (text "feito")) reported) refl

Steps-finished_example : row 2 after_running ≡ some done_job
Steps-finished_example =
    Steps-finished 2 done_job
      (concluir-Steps 9_000_000 3 (text "feito") (some 250)
        (with_jobs (done_job ∷ running_job ∷ [])))
      refl refl

reservar_proximo-serve_example :
    outcome (
      reservar_proximo why 7 100
        (some "w2")
        (with_jobs (new_job 5 "pergunta" (obj question) 0 ∷ [])))
    ≡ serve (max 1 100) (new_job 5 "pergunta" (obj question) 0 ∷ [])
reservar_proximo-serve_example =
    reservar_proximo-serve why 7 100 (some "w2")
      (with_jobs (new_job 5 "pergunta" (obj question) 0 ∷ [])) pending_valid

question_has_type : tipo_of as_text question ≢ ""
unfolding program
question_has_type = ground (arith, eq_iff "pergunta" "")

waiting-adicionar_example :
    ((adicionar as_text 1 (obj question) two_added).0 ≡ added two_added.next_id)
    × (waiting (adicionar as_text 1 (obj question) two_added).1
        ≡ waiting two_added
          ++ new_job two_added.next_id (tipo_of as_text question) (obj question) (agora_utc 1) ∷ [])
waiting-adicionar_example = waiting-adicionar as_text 1 question two_added question_has_type
