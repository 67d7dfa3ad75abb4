-- ===== src/Queue/Statements.antt =====
-- eyle/runtime/queue.py: each SQL statement that writes to `jobs`. A statement is atomic, and the
-- operations are made of them.
use eyle.Base.{
  ℕ, ◌+◌, String, Bool, true, false, not, ◌&&◌, Option, none, some, [], ◌∷◌, ◌++◌, ◌==◌, any,
}
use mathlib.Core.Option
use eyle.Base.Table.{update, find}
use eyle.Value.{Value, text, instant, obj, end, field, Fields}
use eyle.Queue.Rows.{
  pending, processing, completed, failed, cancelled, same_status, is_active, Column, stored, Job,
  Db,
}

-- `json.loads` of a column, kept if it is a dict.
unfoldable pub loads_dict : Column → Option Fields
loads_dict (stored (obj d)) = some d
loads_dict _ = none

-- The progress that is on record, or an empty dict.
unfoldable pub current_progress : Option Column → Fields
current_progress none = end
current_progress (some c) = elim (loads_dict c) [ none ↦ end | some d ↦ d ]

-- What an UPDATE of one job writes, apart from the time.
pub data Write : Type 0 where
  -- _reservar_proximo
  reject : (erro : String) → Write
  reserve : (worker_id : Option String) → Write
  -- atualizar_progresso
  progress : (progresso : Value) → Write
  -- cancelar_job, on a pending and on a processing job
  cancel_pending cancel_processing : (motivo : String) (progresso : Value) → Write
  -- marcar_cancelado
  close_cancelled : (motivo : String) (resultado : Option Value) (progresso : Value) → Write
  -- concluir
  complete : (resultado : Value) → Write
  -- falhar
  fail : (resultado : Option Value) (detalhe : String) → Write
  -- recuperar_interrompidos
  recover_cancelled : (motivo : String) → Write
  requeue : Write

abbrev pub starting : ℕ → Value
starting agora = obj (
    field "phase" (text "starting")
      (field "message" (text "Preparando a tarefa") (field "updated_at" (instant agora) end)))

-- The conditions beside `id = ?` in the WHERE of each UPDATE.
abbrev pub guard : Write → Job → Bool
guard (reject _) j = same_status j.status pending
guard (reserve _) j = same_status j.status pending
guard (progress _) j = is_active j.status && not j.cancel_requested
guard (cancel_pending _ _) j = same_status j.status pending
guard (cancel_processing _ _) j = same_status j.status processing
guard (close_cancelled _ _ _) j = is_active j.status
guard (complete _) j = same_status j.status processing && not j.cancel_requested
guard (fail _ _) j = same_status j.status processing && not j.cancel_requested
guard (recover_cancelled _) j = same_status j.status processing
guard requeue j = same_status j.status processing

-- The SET of each UPDATE.
unfoldable pub assign : ℕ → Write → Job → Job
assign agora (reject erro) j = record j {
  status = failed;
  erro = some erro;
  atualizado_em = agora;
  concluido_em = some agora;
}
assign agora (reserve worker) j = record j {
  status = processing;
  tentativas = j.tentativas + 1;
  iniciado_em = some agora;
  atualizado_em = agora;
  erro = none;
  worker_id = worker;
  progresso = some (stored (starting agora));
  progresso_seq = j.progresso_seq + 1;
  cancel_requested = false;
  cancel_reason = none;
}
assign agora (progress p) j = record j {
  progresso = some (stored p);
  progresso_seq = j.progresso_seq + 1;
  atualizado_em = agora;
}
assign agora (cancel_pending motivo p) j = record j {
  status = cancelled;
  cancel_requested = true;
  cancel_reason = some motivo;
  progresso = some (stored p);
  progresso_seq = j.progresso_seq + 1;
  atualizado_em = agora;
  concluido_em = some agora;
}
assign agora (cancel_processing motivo p) j = record j {
  cancel_requested = true;
  cancel_reason = some motivo;
  progresso = some (stored p);
  progresso_seq = j.progresso_seq + 1;
  atualizado_em = agora;
}
assign agora (close_cancelled motivo resultado p) j = record j {
  status = cancelled;
  cancel_requested = true;
  cancel_reason = some motivo;
  resultado = Option.map stored resultado;
  erro = none;
  progresso = some (stored p);
  progresso_seq = j.progresso_seq + 1;
  atualizado_em = agora;
  concluido_em = some agora;
}
assign agora (complete resultado) j = record j {
  status = completed;
  resultado = some (stored resultado);
  erro = none;
  atualizado_em = agora;
  concluido_em = some agora;
}
assign agora (fail resultado detalhe) j = record j {
  status = failed;
  resultado = Option.map stored resultado;
  erro = some detalhe;
  atualizado_em = agora;
  concluido_em = some agora;
}
assign agora (recover_cancelled motivo) j = record j {
  status = cancelled;
  cancel_reason = some motivo;
  atualizado_em = agora;
  concluido_em = some agora;
  worker_id = none;
}
assign agora requeue j = record j {
  status = pending;
  atualizado_em = agora;
  iniciado_em = none;
  worker_id = none;
  erro = some "worker anterior foi interrompido; job recolocado na fila";
}

abbrev pub has_id : ℕ → Job → Bool
has_id i j = j.id == i

abbrev pub hits : ℕ → Write → Job → Bool
hits i w j = j.id == i && guard w j

-- UPDATE jobs SET … WHERE id = i AND …
unfoldable pub write : ℕ → ℕ → Write → Db → Db
write agora i w db = record db { jobs = update (hits i w) (assign agora w) db.jobs }

-- Whether the same UPDATE has a row to change: `cursor.rowcount == 1`, since `id` is a primary key.
unfoldable pub writes : ℕ → Write → Db → Bool
writes i w db = any (hits i w) db.jobs

-- INSERT INTO jobs: the defaults of the schema, and the next number of AUTOINCREMENT.
abbrev pub new_job : ℕ → String → Value → ℕ → Job
new_job i tipo evento agora = record {
  id = i;
  tipo = tipo;
  payload = stored evento;
  status = pending;
  tentativas = 0;
  criado_em = agora;
  atualizado_em = agora;
  iniciado_em = none;
  concluido_em = none;
  resultado = none;
  erro = none;
  worker_id = none;
  progresso = none;
  progresso_seq = 0;
  cancel_requested = false;
  cancel_reason = none;
}

unfoldable pub insert_job : String → Value → ℕ → Db → Db
insert_job tipo evento agora db = record db {
  jobs = db.jobs ++ new_job db.next_id tipo evento agora ∷ [];
  next_id = db.next_id + 1;
}

-- SELECT * FROM jobs WHERE id = i
abbrev pub row : ℕ → Db → Option Job
row i db = find (has_id i) db.jobs

-- `_evento_disponivel.set()` and `.clear()`
abbrev pub signal : Bool → Db → Db
signal b db = record db { evento_disponivel = b }
