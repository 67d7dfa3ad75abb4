-- ===== src/Queue/Calls.antt =====
-- eyle/runtime/queue.py: the operations that write to the database, as one type of calls, and what
-- any sequence of them keeps.
use eyle.Queue.Messages.{cancelar_jobs_da_mensagem}
use eyle.Queue.Recovery.{recuperar_interrompidos}
use eyle.Queue.History.{Steps-finished}
use eyle.Queue.Control.{atualizar_progresso, cancelar_job, marcar_cancelado, concluir, falhar}
use eyle.Queue.Statements.{row}
use eyle.Queue.Reserve.{registrar_heartbeat, adicionar, reservar_proximo}
use eyle.Queue.Programs.{
  registrar_heartbeat-Steps, adicionar-Steps, reservar_proximo-Steps, atualizar_progresso-Steps,
  cancelar_job-Steps, marcar_cancelado-Steps, concluir-Steps, falhar-Steps,
  recuperar_interrompidos-Steps, cancelar_jobs_da_mensagem-Steps,
}
use eyle.Queue.Rows.{Column, Db, Job, is_active}
use eyle.Value.{Value, Fields}
use eyle.Base.{ℕ, String, Option, Bool, List, ◌∷◌, [], ◌≡◌, some, false}
use eyle.Queue.Step.{Steps, Steps-trans, IsQueue, Steps-IsQueue, here}

-- A call with its arguments and its reading of the clock.
pub data Call : Type 0 where
  heartbeat : ℕ → String → String → Option ℕ → Option String → ℕ → Call
  add : ℕ → Value → Call
  take_next : ℕ → ℕ → Option String → Call
  publish : ℕ → ℕ → Fields → Call
  request_cancel : ℕ → ℕ → Option String → Call
  close : ℕ → ℕ → Option String → Option Value → Call
  conclude : ℕ → ℕ → Value → Option ℕ → Call
  give_up : ℕ → ℕ → String → Option Value → Option ℕ → Call
  rescue : ℕ → ℕ → Bool → Call
  cancel_message : (ℕ → ℕ) → ℕ → Option String → Call

-- `repr` and `erro_de` are Python's texts of a value and of an unreadable payload, `pid_ativo` the
-- operating system's answer.
module _ (repr : Value → String) (erro_de : Column → String) (pid_ativo : ℕ → Bool) where
  unfoldable pub run : Call → Db → Db
  run (heartbeat c w s j d p) db = registrar_heartbeat c w s j d p db
  run (add c evento) db = (adicionar repr c evento db).1
  run (take_next c most w) db = (reservar_proximo erro_de c most w db).1
  run (publish c i patch) db = (atualizar_progresso c i patch db).1
  run (request_cancel c i motivo) db = (cancelar_job c i motivo db).1
  run (close c i motivo resultado) db = (marcar_cancelado c i motivo resultado db).1
  run (conclude c i resultado duracao) db = (concluir c i resultado duracao db).1
  run (give_up c i detalhe resultado duracao) db = (falhar c i detalhe resultado duracao db).1
  run (rescue c stale force) db = (recuperar_interrompidos pid_ativo c stale force db).1
  run (cancel_message clock m motivo) db = (cancelar_jobs_da_mensagem clock m motivo db).1

  unfoldable pub run_all : List Call → Db → Db
  run_all [] db = db
  run_all (c ∷ cs) db = run_all cs (run c db)

  -- Every operation, on each of its branches, is a sequence of single statements: what holds of
  -- every interleaving of statements holds of every sequence of operations.
  pub run-Steps : (c : Call) (db : Db) → Steps db (run c db)
  unfolding run
  run-Steps (heartbeat c w s j d p) db = registrar_heartbeat-Steps c w s j d p db
  run-Steps (add c evento) db = adicionar-Steps repr c evento db
  run-Steps (take_next c most w) db = reservar_proximo-Steps erro_de c most w db
  run-Steps (publish c i patch) db = atualizar_progresso-Steps c i patch db
  run-Steps (request_cancel c i motivo) db = cancelar_job-Steps c i motivo db
  run-Steps (close c i motivo resultado) db = marcar_cancelado-Steps c i motivo resultado db
  run-Steps (conclude c i resultado duracao) db = concluir-Steps c i resultado duracao db
  run-Steps (give_up c i detalhe resultado duracao) db =
      falhar-Steps c i detalhe resultado duracao db
  run-Steps (rescue c stale force) db = recuperar_interrompidos-Steps pid_ativo c stale force db
  run-Steps (cancel_message clock m motivo) db = cancelar_jobs_da_mensagem-Steps clock m motivo db

  pub run_all-Steps : (cs : List Call) (db : Db) → Steps db (run_all cs db)
  unfolding run_all
  run_all-Steps [] db = here
  run_all-Steps (c ∷ cs) db = Steps-trans (run-Steps c db) (run_all-Steps cs (run c db))

  -- A job that is finished before any sequence of calls is the same row after it.
  pub run_all-finished :
      (cs : List Call) (db : Db) (i : ℕ) (j : Job)
      → row i db ≡ some j
      → is_active j.status ≡ false
      → row i (run_all cs db) ≡ some j
  run_all-finished cs db i j e done = Steps-finished i j (run_all-Steps cs db) e done

  -- Any sequence of calls on a database with a valid `jobs` table leaves it valid.
  pub run_all-IsQueue : (cs : List Call) (db : Db) → IsQueue db → IsQueue (run_all cs db)
  run_all-IsQueue cs db q = Steps-IsQueue q (run_all-Steps cs db)
