-- ===== src/Queue/Programs.antt =====
-- eyle/runtime/queue.py: every operation is a sequence of the statements of `Queue.Step`, so what
-- holds of every interleaving of statements holds of the operations.
use eyle.Queue.Messages.{cancel_each, cancelar_jobs_da_mensagem, Ativo, jobs_da_mensagem_ativos}
use eyle.Queue.Recovery.{close_all, recover, recuperar_interrompidos, requeue_all}
use eyle.Queue.Control.{
  atualizar_progresso, cancelar_job, concluir, falhar, marcar_cancelado, cancelamento_solicitado,
  cancel_row,
}
use eyle.Base.Table.{find}
use eyle.Value.{Value, obj, null, Fields, field, end}
use eyle.Queue.Statements.{Write, write, reject, loads_dict, writes, reserve, row}
use eyle.Queue.Rows.{Column, Db, same_status, pending, agora_utc, Status, is_active, processing}
use eyle.Queue.Reserve.{
  adicionar, registrar_heartbeat, reservar_loop, tipo_of, reservar_proximo, proximo,
}
use eyle.Base.{
  ℕ, String, Option, Bool-cases, str_eq, suc, inl, inr, true, zero, Option-cases, leb, ◌+◌, List,
  Bool, ◌==◌, ◌∷◌, [], some, none, not, ◌||◌, All, false,
}
use eyle.Queue.Step.{Step, Steps, here, next, Steps-trans, update_job, beat, set_event, insert}

one : {a b : Db} → Step a b → Steps a b
one s = next here s

write-Steps : (agora i : ℕ) (w : Write) (db : Db) → Steps db (write agora i w db)
write-Steps agora i w db = one (update_job agora i w db)

pub registrar_heartbeat-Steps :
    (clock : ℕ) (worker status : String) (job_id : Option ℕ) (detalhe : Option String) (pid : ℕ)
    (db : Db)
    → Steps db (registrar_heartbeat clock worker status job_id detalhe pid db)
unfolding registrar_heartbeat
registrar_heartbeat-Steps clock worker status job_id detalhe pid db = one (beat _ db)

pub adicionar-Steps :
    (repr : Value → String) (clock : ℕ) (evento : Value) (db : Db)
    → Steps db (adicionar repr clock evento db).1
unfolding adicionar
adicionar-Steps repr clock (obj d) db = elim (Bool-cases (str_eq (tipo_of repr d) "")) [
  | inl e ↦ rw e here
  | inr e ↦ rw e (next (one (insert _ _ _ db)) (set_event true _))
]
adicionar-Steps repr clock null db = here
adicionar-Steps repr clock _ db = here

module _ (erro_de : Column → String) (clock most : ℕ) (worker : Option String) where
  reservar_loop-Steps :
      (ciclos invalidos : ℕ) (db : Db)
      → Steps db (reservar_loop erro_de clock most worker ciclos invalidos db).1
  unfolding reservar_loop
  reservar_loop-Steps zero invalidos db = here
  reservar_loop-Steps (suc ciclos) invalidos db =
      elim (Option-cases (find (λ j. same_status j.status pending) db.jobs)) [
        | inl e ↦ rw (e, reservar_loop) here
        | inr (linha, e) ↦
            let failed_db = write (agora_utc clock) linha.id (reject (erro_de linha.payload)) db in
            elim (Option-cases (loads_dict linha.payload)) [
              | inl bad ↦ elim (Bool-cases (leb most (invalidos + 1))) [
                | inl last ↦ rw (e, bad, last, reservar_loop) (write-Steps _ _ _ db)
                | inr more ↦
                    rw (e, bad, more, reservar_loop)
                      (Steps-trans (write-Steps _ _ _ db)
                        (reservar_loop-Steps ciclos (invalidos + 1) failed_db))
              ]
              | inr (evento, good) ↦ elim (Bool-cases (writes linha.id (reserve worker) db)) [
                | inl free ↦ rw (e, good, free, reservar_loop) (write-Steps _ _ _ db)
                | inr taken ↦
                    rw (e, good, taken, reservar_loop) (reservar_loop-Steps ciclos invalidos db)
              ]
            ]
      ]

module _ (erro_de : Column → String) (clock max_invalid_jobs : ℕ) (worker : Option String) where
  pub reservar_proximo-Steps :
      (db : Db) → Steps db (reservar_proximo erro_de clock max_invalid_jobs worker db).1
  unfolding reservar_proximo
  reservar_proximo-Steps db = reservar_loop-Steps erro_de clock _ worker _ 0 db

  -- Where each wait of the list is some statements of other processes.
  pub proximo-Steps :
      (waits : List (Db → Db)) (db : Db)
      → All (λ wait. (d : Db) → Steps d (wait d)) waits
      → Steps db (proximo erro_de clock max_invalid_jobs worker waits db).1
  unfolding proximo
  proximo-Steps [] db h =
      elim (Option-cases (reservar_proximo erro_de clock max_invalid_jobs worker db).0) [
        | inl e ↦ rw (e, proximo) (next (reservar_proximo-Steps db) (set_event false _))
        | inr (evento, e) ↦ rw (e, proximo) (reservar_proximo-Steps db)
      ]
  proximo-Steps (wait ∷ waits) db h =
      elim (Option-cases (reservar_proximo erro_de clock max_invalid_jobs worker db).0) [
        | inl e ↦
            rw (e, proximo)
              (Steps-trans
                (next (Steps-trans (reservar_proximo-Steps db) (h.0 _)) (set_event false _))
                (proximo-Steps waits _ h.1))
        | inr (evento, e) ↦ rw (e, proximo) (reservar_proximo-Steps db)
      ]

pub atualizar_progresso-Steps :
    (clock i : ℕ) (patch : Fields) (db : Db) → Steps db (atualizar_progresso clock i patch db).1
unfolding atualizar_progresso
atualizar_progresso-Steps clock i end db = here
atualizar_progresso-Steps clock i (field k v patch) db = elim (Option-cases (row i db)) [
  | inl e ↦ rw (e, atualizar_progresso) here
  | inr (linha, e) ↦ elim (Bool-cases (not (is_active linha.status) || linha.cancel_requested)) [
    | inl shut ↦ rw (e, atualizar_progresso) (rw shut here)
    | inr free ↦ rw (e, atualizar_progresso) (rw free (write-Steps _ _ _ db))
  ]
]

pub marcar_cancelado-Steps :
    (clock i : ℕ) (motivo : Option String) (resultado : Option Value) (db : Db)
    → Steps db (marcar_cancelado clock i motivo resultado db).1
unfolding marcar_cancelado
marcar_cancelado-Steps clock i motivo resultado db = elim (Option-cases (row i db)) [
  | inl e ↦ rw (e, marcar_cancelado) here
  | inr (linha, e) ↦ rw (e, marcar_cancelado) (write-Steps _ _ _ db)
]

cancel_row-Steps :
    (agora i : ℕ) (reason : String) (s : Status) (c : Option Column) (db : Db)
    → Steps db (cancel_row agora i reason s c db).1
unfolding cancel_row
cancel_row-Steps agora i reason pending c db = next (write-Steps _ _ _ db) (set_event true _)
cancel_row-Steps agora i reason processing c db = next (write-Steps _ _ _ db) (set_event true _)
cancel_row-Steps agora i reason s c db = here

pub cancelar_job-Steps :
    (clock i : ℕ) (motivo : Option String) (db : Db) → Steps db (cancelar_job clock i motivo db).1
unfolding cancelar_job
cancelar_job-Steps clock i motivo db = elim (Option-cases (row i db)) [
  | inl e ↦ rw (e, cancelar_job) here
  | inr (linha, e) ↦ rw (e, cancelar_job) (cancel_row-Steps _ i _ linha.status linha.progresso db)
]

pub concluir-Steps :
    (clock i : ℕ) (resultado : Value) (duracao : Option ℕ) (db : Db)
    → Steps db (concluir clock i resultado duracao db).1
unfolding concluir
concluir-Steps clock i resultado duracao db = elim (Option-cases (cancelamento_solicitado i db)) [
  | inl e ↦
      rw (e, concluir) (Steps-trans (atualizar_progresso-Steps clock i _ db) (write-Steps _ _ _ _))
  | inr (motivo, e) ↦ rw (e, concluir) (marcar_cancelado-Steps clock i (some motivo) none db)
]

pub falhar-Steps :
    (clock i : ℕ) (detalhe : String) (resultado : Option Value) (duracao : Option ℕ) (db : Db)
    → Steps db (falhar clock i detalhe resultado duracao db).1
unfolding falhar
falhar-Steps clock i detalhe resultado duracao db =
    elim (Option-cases (cancelamento_solicitado i db)) [
      | inl e ↦
          rw (e, falhar)
            (Steps-trans (atualizar_progresso-Steps clock i _ db) (write-Steps _ _ _ _))
      | inr (motivo, e) ↦ rw (e, falhar) (marcar_cancelado-Steps clock i (some motivo) resultado db)
    ]

close_all-Steps :
    (agora : ℕ) (cancelados : List (ℕ × String)) (db : Db)
    → Steps db (close_all agora cancelados db)
unfolding close_all
close_all-Steps agora [] db = here
close_all-Steps agora ((i, motivo) ∷ cancelados) db =
    Steps-trans (write-Steps agora i _ db) (close_all-Steps agora cancelados _)

requeue_all-Steps : (agora : ℕ) (ids : List ℕ) (db : Db) → Steps db (requeue_all agora ids db).1
unfolding requeue_all
requeue_all-Steps agora [] db = here
requeue_all-Steps agora (i ∷ ids) db =
    Steps-trans (write-Steps agora i _ db) (requeue_all-Steps agora ids _)

pub recover-Steps :
    (agora : ℕ) (cancelados : List (ℕ × String)) (ids : List ℕ) (db : Db)
    → Steps db (recover agora (cancelados, ids) db).1
unfolding recover
recover-Steps agora cancelados ids db =
    let both =
      Steps-trans (close_all-Steps agora cancelados db)
        (requeue_all-Steps agora ids (close_all agora cancelados db)) in
    elim (Bool-cases ((requeue_all agora ids (close_all agora cancelados db)).0 == 0)) [
      | inl e ↦ rw e both
      | inr e ↦ rw e (next both (set_event true _))
    ]

pub recuperar_interrompidos-Steps :
    (pid_ativo : ℕ → Bool) (clock stale_after : ℕ) (force : Bool) (db : Db)
    → Steps db (recuperar_interrompidos pid_ativo clock stale_after force db).1
unfolding recuperar_interrompidos
recuperar_interrompidos-Steps pid_ativo clock stale_after force db = recover-Steps _ _ _ db

cancel_each-Steps :
    (clock : ℕ → ℕ) (motivo : Option String) (l : List Ativo) (db : Db)
    → Steps db (cancel_each clock motivo l db).1
unfolding cancel_each
cancel_each-Steps clock motivo [] db = here
cancel_each-Steps clock motivo (a ∷ rest) db =
    Steps-trans (cancelar_job-Steps (clock a.id) a.id motivo db)
      (cancel_each-Steps clock motivo rest (cancelar_job (clock a.id) a.id motivo db).1)

pub cancelar_jobs_da_mensagem-Steps :
    (clock : ℕ → ℕ) (m : ℕ) (motivo : Option String) (db : Db)
    → Steps db (cancelar_jobs_da_mensagem clock m motivo db).1
unfolding cancelar_jobs_da_mensagem
cancelar_jobs_da_mensagem-Steps clock m motivo db =
    cancel_each-Steps clock motivo (jobs_da_mensagem_ativos m db) db
