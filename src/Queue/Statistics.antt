-- ===== src/Queue/Statistics.antt =====
-- eyle/runtime/queue.py: `obter` and `estatisticas`, which only read.
use eyle.Queue.Statements.{row}
use eyle.Value.{Value}
use mathlib.Core.Option
use eyle.Base.Table.{count, find, count-le}
use eyle.Queue.Recovery.{idade}
use eyle.Queue.Rows.{
  Heartbeat, Status, Db, Job, pending, processing, same_status, completed, failed, cancelled,
  Column, stored, malformed,
}
use eyle.Base.{
  ℕ, Bool, List, Option, false, some, is_none, leb, min, none, true, ◌+◌, ◌||◌, ◌∷◌, if◌then◌else◌,
  max, ◌≡◌, [], length, ◌==◌, arith, not, ◌&&◌, map, suc, ◌∙◌, ◌≤◌, ap, str_eq, ◌<◌, ltb,
  length-map,
}

-- A JSON column as `obter` returns it; `raw` is the text of one that cannot be read.
abbrev pub shown : (Column → Value) → Column → Value
shown raw (stored v) = v
shown raw malformed = raw malformed

-- The row, with its three JSON columns read.
pub record Obtido : Type 0 where
  pub linha : Job
  pub payload : Value
  pub resultado : Option Value
  pub progresso : Option Value

unfoldable pub obter : (Column → Value) → ℕ → Db → Option Obtido
obter raw i db =
    Option.map
      (λ j. record {
        linha = j;
        payload = shown raw j.payload;
        resultado = Option.map (shown raw) j.resultado;
        progresso = Option.map (shown raw) j.progresso;
      })
      (row i db)

-- The instant of the first pending row, in the order of ids.
unfoldable pub oldest_pending : List Job → Option ℕ
oldest_pending jobs = Option.map (λ j. j.criado_em) (find (λ j. same_status j.status pending) jobs)

-- The first of two instants; SQLite sorts NULL before any text.
abbrev pub earlier : Option ℕ → Option ℕ → Option ℕ
earlier none b = none
earlier (some a) none = none
earlier (some a) (some b) = some (min a b)

-- `ORDER BY iniciado_em LIMIT 1` over the jobs in processing; `none` for no row.
unfoldable pub oldest_processing : List Job → Option (Option ℕ)
oldest_processing [] = none
oldest_processing (j ∷ js) =
    let rest = oldest_processing js in
    if same_status j.status processing
    then (elim rest [ none ↦ some j.iniciado_em | some t ↦ some (earlier j.iniciado_em t) ])
    else rest

pub record Worker : Type 0 where
  pub heartbeat : Heartbeat
  pub stale : Bool
  pub pid_alive : Option Bool
  pub live : Bool

pub record Estatisticas : Type 0 where
  pub contagens : Status → ℕ
  pub total : ℕ
  pub ultima_falha : Option Job
  pub pending_age : Option ℕ
  pub processing_age : Option ℕ
  pub workers : List Worker
  pub live_workers : ℕ
  pub live_idle_workers : ℕ
  pub head_of_line_blocked : Bool

abbrev pub at_least : ℕ → Option ℕ → Bool
at_least n none = false
at_least n (some age) = leb n age

abbrev pub is_false : Option Bool → Bool
is_false (some false) = true
is_false _ = false

-- `ORDER BY id DESC LIMIT 1` of a table in the order of ids.
unfoldable pub last_failed : List Job → Option Job
last_failed [] = none
last_failed (j ∷ js) =
    let rest = last_failed js in
    if is_none rest then (if same_status j.status failed then some j else none) else rest

unfoldable pub total_of : (Status → ℕ) → ℕ
total_of n = n pending + n processing + n completed + n failed + n cancelled

-- `seconds` and ages are in microseconds; `max(1, …)` is one second. A pid of 0 is no pid.
module _ (pid_ativo : ℕ → Bool) (clock stale_after blocked_after : ℕ) where
  unfoldable pub worker_of : Heartbeat → Worker
  worker_of h =
      let age = idade clock h.atualizado_em in
      let stale = is_none age || at_least (max 1000000 stale_after) age in
      let pid_alive : Option Bool = elim h.pid [
        | none ↦ none
        | some p ↦ if p == 0 then none else some (pid_ativo p)
      ] in
      record {
        heartbeat = h;
        stale = stale;
        pid_alive = pid_alive;
        live = not stale && not (is_false pid_alive);
      }

  unfoldable pub estatisticas : Db → Estatisticas
  estatisticas db =
      let contagens : Status → ℕ = λ s. count (λ j. same_status j.status s) db.jobs in
      let processing_age = Option.bind (oldest_processing db.jobs) (idade clock) in
      let workers = map worker_of db.heartbeats in
      let live_idle = count (λ w. w.live && str_eq w.heartbeat.status "idle") workers in
      record {
        contagens = contagens;
        total = total_of contagens;
        ultima_falha = last_failed db.jobs;
        pending_age = idade clock (oldest_pending db.jobs);
        processing_age = processing_age;
        workers = workers;
        live_workers = count (λ w. w.live) workers;
        live_idle_workers = live_idle;
        head_of_line_blocked =
            ltb 0 (contagens pending)
            && ltb 0 (contagens processing)
            && at_least (max 1000000 blocked_after) processing_age
            && live_idle == 0;
      }

total_of-one :
    (t : Status) (n : Status → ℕ)
    → total_of (λ s. (if same_status t s then 1 else 0) + n s) ≡ suc (total_of n)
unfolding total_of
total_of-one pending n = omega arith
total_of-one processing n = omega arith
total_of-one completed n = omega arith
total_of-one failed n = omega arith
total_of-one cancelled n = omega arith

counts-total :
    (jobs : List Job) → total_of (λ s. count (λ j. same_status j.status s) jobs) ≡ length jobs
unfolding total_of
counts-total [] = omega arith
counts-total (j ∷ jobs) =
    total_of-one j.status (λ s. count (λ j. same_status j.status s) jobs)
    ∙ ap suc (counts-total jobs)

count-narrower : {A : Type 0} (p q : A → Bool) (t : List A) → count (λ r. p r && q r) t ≤ count p t
count-narrower p q [] = omega arith
count-narrower p q (r ∷ t) = ground (arith, count-narrower p q t)

-- The total is the number of jobs; of the workers on record some live, and of those some are idle;
-- and the head of the line is only said to be blocked while a job is pending, one is in processing
-- and no live worker is idle.
pub estatisticas-counts :
    (pid_ativo : ℕ → Bool) (clock stale_after blocked_after : ℕ) (db : Db)
    → (let e = estatisticas pid_ativo clock stale_after blocked_after db in
        (e.total ≡ length db.jobs)
        × (e.live_idle_workers ≤ e.live_workers)
        × (e.live_workers ≤ length db.heartbeats)
        × (e.head_of_line_blocked ≡ true
            → (0 < e.contagens pending) × (0 < e.contagens processing) × (e.live_idle_workers ≡ 0)))
unfolding estatisticas
estatisticas-counts pid_ativo clock stale_after blocked_after db =
    let w = map (worker_of pid_ativo clock stale_after blocked_after) db.heartbeats in
    let few : count (λ x. x.live) w ≤ length w = count-le (λ x. x.live) w in
    let same = length-map (worker_of pid_ativo clock stale_after blocked_after) db.heartbeats in
    (
      counts-total db.jobs,
      count-narrower (λ x. x.live) (λ x. str_eq x.heartbeat.status "idle") w,
      omega (arith, few, same),
      λ blocked. ground (arith, blocked),
    )
