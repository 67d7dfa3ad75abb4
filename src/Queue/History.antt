-- ===== src/Queue/History.antt =====
-- eyle/runtime/queue.py: what becomes of a job, however the processes interleave.
use eyle.Queue.Row.{assign-Keeps, Edge, assign-Edge, stay, Keeps, guard_active}
use eyle.Base.Table.{set_if, find, find-append}
use eyle.Base.{
  ℕ, suc, ◌<◌, ◌≡◌, true, false, none, List, [], ◌∷◌, arith, Bool-cases, Option, inl, refl, inr,
  some, ◌∙◌, ap,
}
use eyle.Queue.Rows.{Job, Db, is_active}
use eyle.Queue.Statements.{Write, guard, assign, insert_job, hits, row, has_id}
use eyle.Queue.Step.{
  Step, Ascends, insert, update_job, row-write, beat, set_event, Steps, next, here, next,
}

-- Ids below `lo` are not in a table that ascends from `lo`.
pub find-below : (lo hi k : ℕ) (t : List Job) → Ascends lo hi t → k < lo → find (has_id k) t ≡ none
find-below lo hi k [] h lt = refl
find-below lo hi k (j ∷ t) h lt = ground (arith, find-below (suc j.id) hi k t h.2)

-- One step takes each row that is there to a row that follows it.
pub data Follows (j : Job) (o : Option Job) : Type 0 where
  follows :
      (k : Job)
      → o ≡ some k
      → Edge j.status k.status
      → Keeps j k
      → (is_active j.status ≡ false → k ≡ j)
      → Follows j o

Keeps-refl : (j : Job) → Keeps j j
Keeps-refl j = (refl, refl, refl, refl, omega arith, omega arith)

Keeps-trans : (a b c : Job) → Keeps a b → Keeps b c → Keeps a c
Keeps-trans a b c h k = ground arith

Follows-same : (j : Job) (o : Option Job) → o ≡ some j → Follows j o
Follows-same j o e = follows j e (stay j.status) (Keeps-refl j) (λ _. refl)

Follows-assign :
    (agora i : ℕ) (w : Write) (j : Job) → Follows j (some (set_if (hits i w) (assign agora w) j))
Follows-assign agora i w j = elim (Bool-cases (hits i w j)) [
  | inl e ↦
      let g : guard w j ≡ true = ground arith in
      rw e (
        follows (assign agora w j) refl (assign-Edge agora j w g) (assign-Keeps agora j w)
          (λ done. absurd (cc (guard_active agora j w g))))
  | inr e ↦ rw e (Follows-same j (some j) refl)
]

Step-Follows :
    {db after : Db} (k : ℕ) (j : Job) → Step db after → row k db ≡ some j → Follows j (row k after)
Step-Follows k j (insert tipo evento agora db) e =
    Follows-same j _ (unfold insert_job in simp (find-append, e))
Step-Follows k j (update_job agora i w db) e =
    rw (row-write agora i w k db, e) (Follows-assign agora i w j)
Step-Follows k j (beat hs db) e = Follows-same j _ e
Step-Follows k j (set_event b db) e = Follows-same j _ e

-- Any number of statements take a row that is there to one that is there.
data Survives (j : Job) (o : Option Job) : Type 0 where
  survives : (k : Job) → o ≡ some k → Keeps j k → Survives j o

Survives-Follows : {j k : Job} {o : Option Job} → Keeps j k → Follows k o → Survives j o
Survives-Follows {j} {k} h (follows k' e _ h' _) = survives k' e (Keeps-trans j k k' h h')

Survives-Step :
    (i : ℕ) {j : Job} {db after : Db}
    → Step db after
    → Survives j (row i db)
    → Survives j (row i after)
Survives-Step i st (survives k e h) = Survives-Follows h (Step-Follows i k st e)

Steps-Survives :
    {db after : Db} (i : ℕ) (j : Job)
    → Steps db after
    → row i db ≡ some j
    → Survives j (row i after)
Steps-Survives i j here e = survives j e (Keeps-refl j)
Steps-Survives i j (next h st) e = Survives-Step i st (Steps-Survives i j h e)

-- The rows of a job before and after a statement that comes later.
pub data Lasts (j : Job) (before after : Option Job) : Type 0 where
  lasts :
      (k l : Job)
      → before ≡ some k
      → after ≡ some l
      → Edge k.status l.status
      → Keeps j l
      → Lasts j before after

Survives-Lasts :
    {j : Job} {mid after : Db} (i : ℕ)
    → Step mid after
    → Survives j (row i mid)
    → Lasts j (row i mid) (row i after)
Survives-Lasts {j} {mid} {after} i st (survives k e h) = last_step (Step-Follows i k st e)
  where
    last_step : Follows k (row i after) → Lasts j (row i mid) (row i after)
    last_step (follows l e' edge h' _) = lasts k l e e' edge (Keeps-trans j k l h h')

-- However the statements of any number of processes interleave, a job that is in the table stays in it;
-- its type, payload and time of creation never change, and its counters of attempts and of progress never
-- fall. Each statement leaves its status or takes it along one edge of `Edge`: from pending to processing,
-- failed or cancelled, and from processing to completed, failed, cancelled or back to pending.
pub Steps-Lasts :
    {db mid after : Db} (i : ℕ) (j : Job)
    → Steps db mid
    → Step mid after
    → row i db ≡ some j
    → Lasts j (row i mid) (row i after)
Steps-Lasts i j h st e = Survives-Lasts i st (Steps-Survives i j h e)

Step-finished : {j : Job} {o : Option Job} → Follows j o → is_active j.status ≡ false → o ≡ some j
Step-finished (follows k e _ _ same) done = e ∙ ap some (same done)

-- A finished job (completed, failed or cancelled) is never written again: every column of its row
-- stays as it is, whatever any number of processes do.
pub Steps-finished :
    {db after : Db} (i : ℕ) (j : Job)
    → Steps db after
    → row i db ≡ some j
    → is_active j.status ≡ false
    → row i after ≡ some j
Steps-finished i j here e done = e
Steps-finished i j (next h st) e done =
    Step-finished (Step-Follows i j st (Steps-finished i j h e done)) done
