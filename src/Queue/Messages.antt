-- ===== src/Queue/Messages.antt =====
-- eyle/runtime/queue.py: the active jobs of a message of the chat, and their cancellation.
use eyle.Base.Text.{crop}
use eyle.Queue.Step.{row-write}
use eyle.Base.Table.{select, set_if, find_test}
use eyle.Value.{Items, Fields, Value, arr, cons, equals_num, lookup, obj, nil, null}
use eyle.Queue.Statements.{
  Write, assign, cancel_pending, row, cancel_processing, hits, write, has_id,
}
use eyle.Queue.Rows.{Db, Status, Column, Job, stored, is_active, pending, processing, agora_utc}
use eyle.Queue.Control.{cancel_row, CancelReply, cancelar_job, reason_or_default}
use mathlib.Core.Path.{refl}
use eyle.Base.{
  ℕ, List, Option, Bool, String, false, some, ◌∷◌, ◌≡◌, [], inr, not, str_eq, true, any, none, ◌&&◌,
  ◌||◌, ◌==◌, ◌⊎◌, Option-cases, inl, arith, Bool-cases, sym,
}

pub record Ativo : Type 0 where
  pub id : ℕ
  pub status : Status
  pub payload : Fields

abbrev pub ativo_of : ℕ → Status → Column → List Ativo → List Ativo
ativo_of id status (stored (obj d)) rest = record { id = id; status = status; payload = d } ∷ rest
ativo_of id status _ rest = rest

-- The rows whose payload is no dict are passed over.
unfoldable pub ativos_of : List Job → List Ativo
ativos_of [] = []
ativos_of (j ∷ js) = let rest = ativos_of js in ativo_of j.id j.status j.payload rest

unfoldable pub jobs_pergunta_ativos : Db → List Ativo
jobs_pergunta_ativos db =
    ativos_of (select (λ j. str_eq j.tipo "pergunta" && is_active j.status) db.jobs)

abbrev pub is_num : Option Value → ℕ → Bool
is_num none n = false
is_num (some v) n = equals_num v n

unfoldable pub jobs_da_mensagem_ativos : ℕ → Db → List Ativo
jobs_da_mensagem_ativos mensagem_id db =
    select (λ a. is_num (lookup "mensagem_id" a.payload) mensagem_id) (jobs_pergunta_ativos db)

-- Some dict of the list has the id.
unfoldable pub mentions : ℕ → Items → Bool
mentions n nil = false
mentions n (cons (obj d) xs) = is_num (lookup "id" d) n || mentions n xs
mentions n (cons null xs) = mentions n xs
mentions n (cons _ xs) = mentions n xs

-- A snapshot that is no list has no dicts in it here; iterating over a number raises in the source.
abbrev pub snapshot_mentions : Option Value → ℕ → Bool
snapshot_mentions (some (arr xs)) n = mentions n xs
snapshot_mentions _ n = false

unfoldable pub jobs_ativos_usando_mensagem : ℕ → List ℕ → Db → List Ativo
jobs_ativos_usando_mensagem mensagem_id excluidos db =
    select
      (λ a.
        not (any (λ i. i == a.id) excluidos)
        && snapshot_mentions (lookup "historico_snapshot" a.payload) mensagem_id)
      (jobs_pergunta_ativos db)

-- `clocks` are the readings of the clock, one for each job.
unfoldable pub cancel_each : (ℕ → ℕ) → Option String → List Ativo → Db → List CancelReply × Db
cancel_each clock motivo [] db = ([], db)
cancel_each clock motivo (a ∷ rest) db =
    let (reply, db1) = cancelar_job (clock a.id) a.id motivo db in
    let (replies, db2) = cancel_each clock motivo rest db1 in (reply ∷ replies, db2)

unfoldable pub cancelar_jobs_da_mensagem : (ℕ → ℕ) → ℕ → Option String → Db → List CancelReply × Db
cancelar_jobs_da_mensagem clock mensagem_id motivo db =
    cancel_each clock motivo (jobs_da_mensagem_ativos mensagem_id db) db

-- If the job is still active, it has been asked to stop.
pub Asked : ℕ → Db → Type 0
Asked i db = (j : Job) → row i db ≡ some j → is_active j.status ≡ true → j.cancel_requested ≡ true

-- A job that is active has been asked to stop, from then on.
write-asks :
    (agora k : ℕ) (w : Write) (i : ℕ) (db : Db)
    → ((j : Job) → (assign agora w j).cancel_requested ≡ true)
    → ((r : Job)
        → row i db ≡ some r
        → (hits k w r ≡ true) ⊎ (is_active r.status ≡ true → r.cancel_requested ≡ true))
    → Asked i (write agora k w db)
unfolding Asked
write-asks agora k w i db sets old j e active = elim (Option-cases (row i db)) [
  | inl absent ↦ let e' = rw (row-write agora k w i db, absent) at e in ground arith
  | inr (r, there) ↦
      let e' = rw (row-write agora k w i db, there) at e in
      let is_j : set_if (hits k w) (assign agora w) r ≡ j = ground (arith, e') in
      elim (Bool-cases (hits k w r)) [
        | inl hit ↦ let is : assign agora w r ≡ j = rw hit at is_j in rw (sym is) (sets r)
        | inr miss ↦
            let is : r ≡ j = rw miss at is_j in
            elim (old r there) [
              | inl hit ↦ ground (arith, hit, miss)
              | inr asked ↦ rw (sym is) (asked (rw is active))
            ]
      ]
]

cancel_row-Asked :
    (agora k : ℕ) (reason : String) (s : Status) (c : Option Column) (i : ℕ) (db : Db)
    → Asked i db
    → Asked i (cancel_row agora k reason s c db).1
unfolding Asked cancel_row assign
cancel_row-Asked agora k reason pending c i db h =
    write-asks agora k (cancel_pending reason _) i db (λ j. refl) (λ r e. inr (h r e))
cancel_row-Asked agora k reason processing c i db h =
    write-asks agora k (cancel_processing reason _) i db (λ j. refl) (λ r e. inr (h r e))
cancel_row-Asked agora k reason _ c i db h = h

pub cancelar_job-Asked :
    (clock k : ℕ) (motivo : Option String) (i : ℕ) (db : Db)
    → Asked i db
    → Asked i (cancelar_job clock k motivo db).1
unfolding cancelar_job Asked
cancelar_job-Asked clock k motivo i db h = elim (Option-cases (row k db)) [
  | inl absent ↦ rw (absent, cancelar_job) h
  | inr (r, there) ↦
      rw (there, cancelar_job)
        (cancel_row-Asked (agora_utc clock) k (crop 500 (reason_or_default motivo)) r.status
          r.progresso i db h)
]

cancel_row-asks :
    (agora i : ℕ) (reason : String) (s : Status) (c : Option Column) (db : Db) (r : Job)
    → row i db ≡ some r
    → r.status ≡ s
    → Asked i (cancel_row agora i reason s c db).1
unfolding cancel_row assign Asked
cancel_row-asks agora i reason pending c db r there is =
    let id_is = find_test (has_id i) db.jobs r there in
    write-asks agora i (cancel_pending reason _) i db (λ j. refl)
      (λ r' e. inl (ground (arith, e, there, id_is, is)))
cancel_row-asks agora i reason processing c db r there is =
    let id_is = find_test (has_id i) db.jobs r there in
    write-asks agora i (cancel_processing reason _) i db (λ j. refl)
      (λ r' e. inl (ground (arith, e, there, id_is, is)))
cancel_row-asks agora i reason _ c db r there is =
    λ j e active. ground (arith, e, there, is, active)

pub cancelar_job-asks :
    (clock i : ℕ) (motivo : Option String) (db : Db) → Asked i (cancelar_job clock i motivo db).1
unfolding cancelar_job Asked
cancelar_job-asks clock i motivo db = elim (Option-cases (row i db)) [
  | inl absent ↦ rw (absent, cancelar_job) (λ j e active. ground (arith, e, absent))
  | inr (r, there) ↦
      rw (there, cancelar_job)
        (cancel_row-asks (agora_utc clock) i (crop 500 (reason_or_default motivo)) r.status
          r.progresso db r there refl)
]
