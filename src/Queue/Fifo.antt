-- ===== src/Queue/Fifo.antt =====
-- eyle/runtime/queue.py: the pending jobs are a first-in first-out queue, and the loop of
-- `_reservar_proximo` serves it.
use eyle.Queue.Reserve.{tag, reservar_loop, adicionar, reservar_proximo, tipo_of, added}
use eyle.Value.{Fields, Value, obj}
use eyle.Queue.Step.{Ascends, IsQueue, write-IsQueue}
use eyle.Base.Table.{find, select, update}
use eyle.Queue.Statements.{
  Write, guard, reject, assign, hits, loads_dict, reserve, write, writes, insert_job, new_job,
}
use eyle.Queue.Rows.{Db, Job, same_status, pending, Column, agora_utc}
use eyle.Base.{
  ℕ, List, Bool, Option, ◌<◌, ◌≡◌, none, [], false, suc, some, ◌∷◌, Bool-cases, any, arith, inl,
  refl, true, inr, zero, subst, String, ◌+◌, ◌≤◌, Option-cases, leb, ◌-◌, ◌++◌, max, ◌≢◌, str_eq,
  eq_iff, ◌*◌,
}

abbrev pub is_pending : Job → Bool
is_pending j = same_status j.status pending

-- The abstract queue: the pending jobs, the oldest first.
abbrev pub waiting : Db → List Job
waiting db = select is_pending db.jobs

-- What a reservation is to do: drop at most `most` jobs whose payload is no JSON object, and take
-- the first other one.
pub serve : ℕ → List Job → Option Fields × List Job
serve zero t = (none, t)
serve (suc most) [] = (none, [])
serve (suc most) (j ∷ t) = elim (loads_dict j.payload) [
  | none ↦ serve most t
  | some evento ↦ (some (tag j evento), t)
]

update-below :
    (agora i : ℕ) (w : Write) (lo hi : ℕ) (t : List Job)
    → Ascends lo hi t
    → i < lo
    → update (hits i w) (assign agora w) t ≡ t
update-below agora i w lo hi [] h lt = refl
update-below agora i w lo hi (j ∷ t) h lt =
    ground (arith, update-below agora i w (suc j.id) hi t h.2)

-- An UPDATE by the id of the oldest pending job, of pending jobs, and into another status.
module _ (agora : ℕ) (w : Write) (guarded : (k : Job) → guard w k ≡ is_pending k)
    (leaves : (k : Job) → is_pending (assign agora w k) ≡ false) where
  select_oldest :
      (lo hi : ℕ) (t : List Job) (j : Job)
      → Ascends lo hi t
      → find is_pending t ≡ some j
      → select is_pending t ≡ j ∷ select is_pending (update (hits j.id w) (assign agora w) t)
  select_oldest lo hi [] j h e = absurd (cc)
  select_oldest lo hi (k ∷ t) j h e = elim (Bool-cases (is_pending k)) [
    | inl p ↦
        let same : k ≡ j = ground arith in
        let rest = update-below agora k.id w (suc k.id) hi t h.2 (omega arith) in
        subst
          (λ x.
            select is_pending (k ∷ t)
            ≡ x ∷ select is_pending (update (hits x.id w) (assign agora w) (k ∷ t)))
          same (ground (arith, guarded k, leaves k, rest))
    | inr p ↦ ground (arith, guarded k, select_oldest (suc k.id) hi t j h.2)
  ]

  writes_oldest : (t : List Job) (j : Job) → find is_pending t ≡ some j → any (hits j.id w) t ≡ true
  writes_oldest [] j e = cc
  writes_oldest (k ∷ t) j e = ground (arith, guarded k, writes_oldest t j)

select-none : (t : List Job) → find is_pending t ≡ none → select is_pending t ≡ []
select-none [] e = refl
select-none (k ∷ t) e = ground (arith, select-none t)

reject_leaves :
    (agora : ℕ) (erro : String) (k : Job) → is_pending (assign agora (reject erro) k) ≡ false
unfolding assign
reject_leaves agora erro k = refl

reserve_leaves :
    (agora : ℕ) (worker : Option String) (k : Job)
    → is_pending (assign agora (reserve worker) k) ≡ false
unfolding assign
reserve_leaves agora worker k = refl

module _ (agora : ℕ) {db : Db} (q : IsQueue db) (j : Job)
    (found : find is_pending db.jobs ≡ some j) where
  waiting_reject : (erro : String) → waiting db ≡ j ∷ waiting (write agora j.id (reject erro) db)
  unfolding write
  waiting_reject erro =
      select_oldest agora (reject erro) (λ k. refl) (reject_leaves agora erro) 0 db.next_id db.jobs
        j q.ids found

  waiting_reserve :
      (worker : Option String) → waiting db ≡ j ∷ waiting (write agora j.id (reserve worker) db)
  unfolding write
  waiting_reserve worker =
      select_oldest agora (reserve worker) (λ k. refl) (reserve_leaves agora worker) 0 db.next_id
        db.jobs j q.ids found

  writes_reserve : (worker : Option String) → writes j.id (reserve worker) db ≡ true
  unfolding writes
  writes_reserve worker =
      writes_oldest agora (reserve worker) (λ k. refl) (reserve_leaves agora worker) db.jobs j found

-- What a reservation returns, and the jobs that are left pending.
abbrev pub outcome : Option Fields × Db → Option Fields × List Job
outcome (evento, db) = (evento, waiting db)

module _ (erro_de : Column → String) (clock most : ℕ) (worker : Option String) where
  reservar_loop-serve :
      (left ciclos invalidos : ℕ) (db : Db)
      → IsQueue db
      → invalidos + suc left ≡ most
      → suc left ≤ ciclos
      → outcome (reservar_loop erro_de clock most worker ciclos invalidos db)
        ≡ serve (suc left) (waiting db)
  unfolding reservar_loop serve
  reservar_loop-serve left zero invalidos db q e enough = absurd (omega arith)
  reservar_loop-serve left (suc ciclos) invalidos db q e enough =
      elim (Option-cases (find is_pending db.jobs)) [
        | inl none_left ↦ rw (none_left, reservar_loop) (rw (select-none db.jobs none_left, serve))
        | inr (linha, found) ↦
            let agora = agora_utc clock in
            let erro = erro_de linha.payload in
            let failed_db = write agora linha.id (reject erro) db in
            elim (Option-cases (loads_dict linha.payload)) [
              | inl bad ↦ elim (Bool-cases (leb most (invalidos + 1))) [
                | inl last ↦
                    let all_used : left ≡ 0 = ground arith in
                    rw (found, bad, last, reservar_loop)
                      (rw (waiting_reject agora q linha found erro, serve)
                        (rw (bad, serve) (rw (all_used, serve))))
                | inr more ↦
                    let again =
                      reservar_loop-serve (left - 1) ciclos (invalidos + 1) failed_db
                        (write-IsQueue agora linha.id (reject erro) q) (ground arith)
                        (ground arith) in
                    let one_used : suc (left - 1) ≡ left = ground arith in
                    rw (found, bad, more, reservar_loop)
                      (rw (waiting_reject agora q linha found erro, serve)
                        (rw (bad, serve) (rw one_used at again)))
              ]
              | inr (evento, good) ↦
                  rw (found, good, writes_reserve agora q linha found worker, reservar_loop)
                    (rw (waiting_reserve agora q linha found worker, serve) (rw (good, serve)))
            ]
      ]

-- On a valid table `_reservar_proximo` serves the pending jobs first in first out, whatever limit of
-- unreadable payloads it is given: it drops those in front that cannot be read, up to the limit,
-- and returns the first other one; what is left pending is the rest, in order. So its ceiling on
-- cycles never ends the loop.
pub reservar_proximo-serve :
    (erro_de : Column → String) (clock max_invalid_jobs : ℕ) (worker : Option String) (db : Db)
    → IsQueue db
    → outcome (reservar_proximo erro_de clock max_invalid_jobs worker db)
      ≡ serve (max 1 max_invalid_jobs) (waiting db)
unfolding reservar_proximo
reservar_proximo-serve erro_de clock max_invalid_jobs worker db q =
    let positive : suc (max 1 max_invalid_jobs - 1) ≡ max 1 max_invalid_jobs = omega arith in
    rw positive at (
      reservar_loop-serve erro_de clock (max 1 max_invalid_jobs) worker (max 1 max_invalid_jobs - 1)
        (max 4 (max 1 max_invalid_jobs * 2 + 2)) 0 db q (omega arith) (omega arith))

select-append {ℓ} :
    {A : Type ℓ} (p : A → Bool) (t u : List A) → select p (t ++ u) ≡ select p t ++ select p u
select-append p [] u = refl
select-append p (r ∷ t) u = ground (arith, select-append p t u)

-- A new event with a type stands behind all jobs that are pending, under the next id.
pub waiting-adicionar :
    (repr : Value → String) (clock : ℕ) (d : Fields) (db : Db)
    → tipo_of repr d ≢ ""
    → ((adicionar repr clock (obj d) db).0 ≡ added db.next_id)
      × (waiting (adicionar repr clock (obj d) db).1
          ≡ waiting db ++ new_job db.next_id (tipo_of repr d) (obj d) (agora_utc clock) ∷ [])
unfolding adicionar insert_job
waiting-adicionar repr clock d db typed =
    let typed_eq : str_eq (tipo_of repr d) "" ≡ false =
      ground (arith, eq_iff (tipo_of repr d) "") in
    (rw typed_eq, rw typed_eq (rw select-append))
