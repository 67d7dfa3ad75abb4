-- ===== src/Queue/Reserve.antt =====
-- eyle/runtime/queue.py: heartbeats, new jobs, and the reservation of the next job. Each operation
-- takes the reading of the clock, in microseconds; the readings that one makes are taken as one.
use mathlib.Core.Option
use eyle.Base.{
  ℕ, zero, suc, ◌+◌, ◌*◌, max, String, Bool, true, false, Option, none, some, List, [], ◌∷◌, ◌++◌,
  any, leb, if◌then◌else◌, str_eq,
}
use eyle.Base.Table.{find, update}
use eyle.Base.Text.{strip, crop}
use eyle.Value.{str_of, Value, obj, num, Fields, lookup, put, truthy}
use eyle.Queue.Rows.{pending, same_status, Column, Heartbeat, Db, agora_utc, Job}
use eyle.Queue.Statements.{reject, reserve, write, writes, insert_job, signal}
use eyle.Queue.Statements.{loads_dict}

-- `registrar_heartbeat`, an upsert by `worker_id`; `detalhe` is cropped.
unfoldable pub registrar_heartbeat : ℕ → String → String → Option ℕ → Option String → ℕ → Db → Db
registrar_heartbeat clock worker status job_id detalhe pid db =
    let beat : Heartbeat = record {
      worker_id = worker;
      status = status;
      job_id = job_id;
      atualizado_em = some (agora_utc clock);
      detalhe = Option.map (crop 1000) detalhe;
      pid = some pid;
    } in
    let same : Heartbeat → Bool = λ h. str_eq h.worker_id worker in
    record db {
      heartbeats =
          if any same db.heartbeats
          then update same (λ h. beat) db.heartbeats
          else db.heartbeats ++ beat ∷ [];
    }

pub data Added : Type 0 where
  added : ℕ → Added
  type_error value_error : Added

-- `str(evento.get("type") or "").strip()`
unfoldable pub tipo_of : (Value → String) → Fields → String
tipo_of repr d = elim (lookup "type" d) [
  | none ↦ ""
  | some v ↦ if truthy v then strip (str_of repr v) else ""
]

unfoldable pub adicionar : (Value → String) → ℕ → Value → Db → Added × Db
adicionar repr clock (obj d) db =
    let tipo = tipo_of repr d in
    if str_eq tipo ""
    then (value_error, db)
    else (added db.next_id, signal true (insert_job tipo (obj d) (agora_utc clock) db))
adicionar repr clock _ db = (type_error, db)

-- evento["_job_id"] = …; evento["_job_tentativa"] = …
unfoldable pub tag : Job → Fields → Fields
tag linha evento =
    put "_job_tentativa" (num (linha.tentativas + 1)) (put "_job_id" (num linha.id) evento)

-- The loop of `_reservar_proximo`. `erro_de` is the message for a payload that cannot be read.
module _ (erro_de : Column → String) (clock max_invalid : ℕ) (worker : Option String) where
  unfoldable pub reservar_loop : ℕ → ℕ → Db → Option Fields × Db
  reservar_loop zero invalidos db = (none, db)
  reservar_loop (suc ciclos) invalidos db =
      elim (find (λ j. same_status j.status pending) db.jobs) [
        | none ↦ (none, db)
        | some linha ↦ elim (loads_dict linha.payload) [
          | none ↦
              let failed_db =
                write (agora_utc clock) linha.id (reject (erro_de linha.payload)) db in
              let next = reservar_loop ciclos (invalidos + 1) failed_db in
              if leb max_invalid (invalidos + 1) then (none, failed_db) else next
          | some evento ↦
              let next = reservar_loop ciclos invalidos db in
              if writes linha.id (reserve worker) db
              then (some (tag linha evento), write (agora_utc clock) linha.id (reserve worker) db)
              else next
        ]
      ]

unfoldable pub reservar_proximo :
    (Column → String) → ℕ → ℕ → Option String → Db → Option Fields × Db
reservar_proximo erro_de clock max_invalid_jobs worker db =
    let most = max 1 max_invalid_jobs in
    reservar_loop erro_de clock most worker (max 4 (most * 2 + 2)) 0 db

-- `proximo`: attempts until one succeeds or the time is over. The list has, for each wait, what
-- other processes do to the database meanwhile.
module _ (erro_de : Column → String) (clock max_invalid_jobs : ℕ) (worker : Option String) where
  unfoldable pub proximo : List (Db → Db) → Db → Option Fields × Db
  proximo [] db =
      let (evento, after) = reservar_proximo erro_de clock max_invalid_jobs worker db in
      elim evento [ none ↦ (none, signal false after) | some e ↦ (some e, after) ]
  proximo (wait ∷ waits) db =
      let (evento, after) = reservar_proximo erro_de clock max_invalid_jobs worker db in
      elim evento [ none ↦ proximo waits (signal false (wait after)) | some e ↦ (some e, after) ]
