-- ===== src/Queue/Rows.antt =====
-- eyle/runtime/queue.py: the tables `jobs` and `worker_heartbeat`.
use eyle.Base.{ℕ, ◌*◌, ◌/◌, String, Bool, true, false, Option, List}
use eyle.Value.{Value}

pub data Status : Type 0 where
  pending processing completed failed cancelled : Status

abbrev pub same_status : Status → Status → Bool
same_status pending pending = true
same_status processing processing = true
same_status completed completed = true
same_status failed failed = true
same_status cancelled cancelled = true
same_status _ _ = false

-- status IN ('pending', 'processing')
abbrev pub is_active : Status → Bool
is_active pending = true
is_active processing = true
is_active _ = false

-- A TEXT column that holds JSON: what `json.loads` makes of it.
pub data Column : Type 0 where
  stored : Value → Column
  malformed : Column

-- A row of `jobs`. Instants are microseconds since the epoch, as the program's clock reads them.
pub record Job : Type 0 where
  pub id : ℕ
  pub tipo : String
  pub payload : Column
  pub status : Status
  pub tentativas : ℕ
  pub criado_em : ℕ
  pub atualizado_em : ℕ
  pub iniciado_em : Option ℕ
  pub concluido_em : Option ℕ
  pub resultado : Option Column
  pub erro : Option String
  pub worker_id : Option String
  pub progresso : Option Column
  pub progresso_seq : ℕ
  pub cancel_requested : Bool
  pub cancel_reason : Option String

-- A row of `worker_heartbeat`; `atualizado_em` is `none` where the text is no UTC instant.
pub record Heartbeat : Type 0 where
  pub worker_id : String
  pub status : String
  pub job_id : Option ℕ
  pub atualizado_em : Option ℕ
  pub detalhe : Option String
  pub pid : Option ℕ

-- The database, SQLite's AUTOINCREMENT counter, and the flag `_evento_disponivel`.
pub record Db : Type 0 where
  pub jobs : List Job
  pub next_id : ℕ
  pub heartbeats : List Heartbeat
  pub evento_disponivel : Bool

-- `_agora_utc()`: the clock, in whole seconds.
unfoldable pub agora_utc : ℕ → ℕ
agora_utc clock = clock / 1000000 * 1000000
