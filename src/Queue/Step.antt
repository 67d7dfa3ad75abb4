-- ===== src/Queue/Step.antt =====
-- eyle/runtime/queue.py run by several processes: between two statements of one process, any
-- statement of another may run. A step is one statement.
use mathlib.Core.Option
use eyle.Queue.Row.{IsRow, assign-IsRow, assign-Keeps}
use eyle.Base.Table.{All-update, update, set_if, All-append, find-update}
use eyle.Base.{
  ℕ, suc, ◌≤◌, ◌<◌, String, ◌≡◌, Bool, List, [], ◌∷◌, arith, All, Bool-cases, ◌+◌, inl, ◌++◌, refl,
  inr,
}
use eyle.Queue.Rows.{Job, Heartbeat, Db}
use eyle.Queue.Statements.{Write, assign, write, insert_job, signal, hits, row, has_id}
use eyle.Value.{Value}

pub data Step : Db → Db → Type 0 where
  insert :
      (tipo : String) (evento : Value) (agora : ℕ) (db : Db)
      → Step db (insert_job tipo evento agora db)
  update_job : (agora i : ℕ) (w : Write) (db : Db) → Step db (write agora i w db)
  beat : (hs : List Heartbeat) (db : Db) → Step db (record db { heartbeats = hs })
  set_event : (b : Bool) (db : Db) → Step db (signal b db)

pub data Steps (db : Db) : Db → Type 0 where
  here : Steps db db
  next : {mid last : Db} → Steps db mid → Step mid last → Steps db last

pub Steps-trans : {a b c : Db} → Steps a b → Steps b c → Steps a c
Steps-trans h here = h
Steps-trans h (next k s) = next (Steps-trans h k) s

-- The ids ascend from `lo`, all of them below `hi`.
abbrev pub Ascends : ℕ → ℕ → List Job → Type 0
Ascends lo hi [] = Unit
Ascends lo hi (j ∷ t) = (lo ≤ j.id) × (j.id < hi) × Ascends (suc j.id) hi t

pub record IsQueue (db : Db) : Type 0 where
  pub ids : Ascends 0 db.next_id db.jobs
  pub rows : All IsRow db.jobs

module _ (agora i : ℕ) (w : Write) where
  Ascends-write :
      (lo hi : ℕ) (t : List Job)
      → Ascends lo hi t
      → Ascends lo hi (update (hits i w) (assign agora w) t)
  Ascends-write lo hi [] h = tt
  Ascends-write lo hi (j ∷ t) h =
      let rest = Ascends-write (suc j.id) hi t h.2 in
      elim (Bool-cases (hits i w j)) [
        | inl e ↦ rw (e, (assign-Keeps agora j w).0) (h.0, h.1, rest)
        | inr e ↦ rw e (h.0, h.1, rest)
      ]

  pub write-IsQueue : {db : Db} → IsQueue db → IsQueue (write agora i w db)
  unfolding write
  write-IsQueue {db} q = record {
    ids = Ascends-write 0 db.next_id db.jobs q.ids;
    rows =
        All-update IsRow (hits i w) (assign agora w) db.jobs
          (λ j hit. assign-IsRow agora j w (ground arith)) q.rows;
  }

  -- The row with id `k`, after the statement.
  pub row-write :
      (k : ℕ) (db : Db)
      → row k (write agora i w db) ≡ Option.map (set_if (hits i w) (assign agora w)) (row k db)
  unfolding write
  row-write k db =
      find-update (has_id k) (hits i w) (assign agora w) db.jobs
        (λ j. rw (assign-Keeps agora j w).0)

Ascends-insert :
    (lo hi : ℕ) (t : List Job) (j : Job)
    → Ascends lo hi t
    → lo ≤ hi
    → j.id ≡ hi
    → Ascends lo (hi + 1) (t ++ j ∷ [])
Ascends-insert lo hi [] j h le e = (omega arith, omega arith, tt)
Ascends-insert lo hi (k ∷ t) j h le e =
    (h.0, omega arith, Ascends-insert (suc k.id) hi t j h.2 h.1 e)

pub insert-IsQueue :
    (tipo : String) (evento : Value) (agora : ℕ) {db : Db}
    → IsQueue db
    → IsQueue (insert_job tipo evento agora db)
unfolding insert_job
insert-IsQueue tipo evento agora {db} q = record {
  ids = Ascends-insert 0 db.next_id db.jobs _ q.ids (omega arith) refl;
  rows = All-append IsRow db.jobs _ q.rows ((refl, refl, refl, refl), tt);
}

Step-IsQueue : {db after : Db} → Step db after → IsQueue db → IsQueue after
Step-IsQueue (insert tipo evento agora db) q = insert-IsQueue tipo evento agora q
Step-IsQueue (update_job agora i w db) q = write-IsQueue agora i w q
Step-IsQueue (beat hs db) q = record { ids = q.ids; rows = q.rows }
Step-IsQueue (set_event b db) q = record { ids = q.ids; rows = q.rows }

-- However the statements of any number of processes interleave, the ids of the table ascend below
-- the next free one, and the columns of each row agree with its status: a pending job has no
-- worker, start, end or result; a running or completed one has been attempted; only a job without a
-- cancel request is completed, with a result and no error; every finished job has its end on record.
pub Steps-IsQueue : {db after : Db} → IsQueue db → Steps db after → IsQueue after
Steps-IsQueue q here = q
Steps-IsQueue q (next h s) = Step-IsQueue s (Steps-IsQueue q h)
