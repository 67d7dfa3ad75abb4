-- ===== src/Queue/Recovery.antt =====
-- eyle/runtime/queue.py: the recovery of jobs whose worker is gone, and the length of the queue.
use mathlib.Core.Option
use eyle.Base.{
  ℕ, ◌+◌, ◌-◌, String, Bool, true, false, not, ◌||◌, Option, none, some, List, [], ◌∷◌, ◌==◌, leb,
  if◌then◌else◌, str_eq,
}
use eyle.Base.Table.{find, count}
use eyle.Queue.Rows.{pending, processing, same_status, Job, Heartbeat, Db, agora_utc}
use eyle.Queue.Statements.{recover_cancelled, requeue, write, writes, signal}
use eyle.Queue.Control.{reason_or_default}

-- `_idade_segundos`, in microseconds: the age is clipped at 0.
abbrev pub idade : ℕ → Option ℕ → Option ℕ
idade clock valor = Option.map (λ dt. clock - dt) valor

pub data Verdict : Type 0 where
  cancel : String → Verdict
  recolocar leave : Verdict

-- `not worker_id`
abbrev pub no_text : Option String → Bool
no_text none = true
no_text (some s) = str_eq s ""

abbrev pub same_worker : Option String → Heartbeat → Bool
same_worker none h = false
same_worker (some w) h = str_eq h.worker_id w

-- A verdict on a job, put on the lists.
unfoldable pub enlist : Verdict → ℕ → List (ℕ × String) × List ℕ → List (ℕ × String) × List ℕ
enlist (cancel motivo) i (cancelados, ids) = ((i, motivo) ∷ cancelados, ids)
enlist recolocar i (cancelados, ids) = (cancelados, i ∷ ids)
enlist leave i (cancelados, ids) = (cancelados, ids)

-- What `recuperar_interrompidos` decides about one job in processing. `pid_ativo` asks the
-- operating system.
module _ (pid_ativo : ℕ → Bool) (clock stale_after : ℕ) (force : Bool) where
  unfoldable pub verdict_on : Option Heartbeat → Job → Verdict
  verdict_on beat linha =
      let stale = idade clock (Option.bind beat (λ h. h.atualizado_em)) in
      let pid = Option.bind beat (λ h. h.pid) in
      let morto : Bool = elim pid [ none ↦ false | some p ↦ not (pid_ativo p) ] in
      let old : Bool = elim stale [ none ↦ true | some age ↦ leb stale_after age ] in
      if linha.cancel_requested
      then cancel (reason_or_default linha.cancel_reason)
      else if force || no_text linha.worker_id || morto || old
      then recolocar
      else leave

  unfoldable pub verdict : Db → Job → Verdict
  verdict db linha = verdict_on (find (same_worker linha.worker_id) db.heartbeats) linha

  -- The SELECT with its LEFT JOIN: the ids to cancel, with their reasons, and the ids to requeue.
  unfoldable pub scan : Db → List Job → List (ℕ × String) × List ℕ
  unfolding enlist
  scan db [] = ([], [])
  scan db (linha ∷ linhas) =
      let rest = scan db linhas in
      if same_status linha.status processing then enlist (verdict db linha) linha.id rest else rest

-- for job_id, motivo in cancelados: UPDATE …
unfoldable pub close_all : ℕ → List (ℕ × String) → Db → Db
close_all agora [] db = db
close_all agora ((i, motivo) ∷ cancelados) db =
    close_all agora cancelados (write agora i (recover_cancelled motivo) db)

-- for job_id in ids: UPDATE …; recuperados += cursor.rowcount
unfoldable pub requeue_all : ℕ → List ℕ → Db → ℕ × Db
requeue_all agora [] db = (0, db)
requeue_all agora (i ∷ ids) db =
    let (recuperados, after) = requeue_all agora ids (write agora i requeue db) in
    ((if writes i requeue db then 1 else 0) + recuperados, after)

-- The updates of `recuperar_interrompidos`, from what its SELECT found.
unfoldable pub recover : ℕ → List (ℕ × String) × List ℕ → Db → ℕ × Db
recover agora (cancelados, ids) db =
    let (recuperados, after) = requeue_all agora ids (close_all agora cancelados db) in
    (recuperados, if recuperados == 0 then after else signal true after)

unfoldable pub recuperar_interrompidos : (ℕ → Bool) → ℕ → ℕ → Bool → Db → ℕ × Db
recuperar_interrompidos pid_ativo clock stale_after force db =
    recover (agora_utc clock) (scan pid_ativo clock stale_after force db db.jobs) db

unfoldable pub tamanho : Db → ℕ
tamanho db = count (λ j. same_status j.status pending) db.jobs
