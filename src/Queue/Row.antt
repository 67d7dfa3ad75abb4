-- ===== src/Queue/Row.antt =====
-- eyle/runtime/queue.py: what an UPDATE does to the row that it hits.
use eyle.Base.{ℕ, ◌≤◌, ◌≡◌, true, false, none, arith, is_none, subst, sym, refl}
use eyle.Queue.Rows.{Status, pending, processing, completed, failed, cancelled, Job, is_active}
use eyle.Queue.Statements.{
  Write, progress, guard, assign, reject, reserve, cancel_pending, cancel_processing,
  close_cancelled, complete, fail, recover_cancelled, requeue,
}

-- The changes of status that the program makes, one statement each.
pub data Edge : Status → Status → Type 0 where
  start : Edge pending processing
  unreadable : Edge pending failed
  drop : Edge pending cancelled
  finish : Edge processing completed
  break : Edge processing failed
  stop : Edge processing cancelled
  again : Edge processing pending
  stay : (s : Status) → Edge s s

-- What the columns of a row say of its status.
abbrev pub IsRowAt : Status → Job → Type 0
IsRowAt pending j =
    (j.iniciado_em ≡ none) × (j.concluido_em ≡ none) × (j.worker_id ≡ none) × (j.resultado ≡ none)
IsRowAt processing j =
    (1 ≤ j.tentativas)
    × (is_none j.iniciado_em ≡ false)
    × (j.concluido_em ≡ none)
    × (j.resultado ≡ none)
IsRowAt completed j =
    (1 ≤ j.tentativas)
    × (is_none j.resultado ≡ false)
    × (j.erro ≡ none)
    × (is_none j.concluido_em ≡ false)
    × (j.cancel_requested ≡ false)
IsRowAt failed j = (is_none j.erro ≡ false) × (is_none j.concluido_em ≡ false)
IsRowAt cancelled j = (is_none j.cancel_reason ≡ false) × (is_none j.concluido_em ≡ false)

abbrev pub IsRow : Job → Type 0
IsRow j = IsRowAt j.status j

-- A row that an UPDATE may write, by the status that it has.
module _ (agora : ℕ) (j : Job) where
  assign-IsRow_at :
      (s : Status) (w : Write)
      → j.status ≡ s
      → guard w j ≡ true
      → IsRowAt s j
      → IsRow (assign agora w j)
  unfolding assign
  assign-IsRow_at pending (progress p) e g h = ground arith
  assign-IsRow_at pending w e g h = ground arith
  assign-IsRow_at processing w e g h = ground arith
  assign-IsRow_at s w e g h = ground arith

-- How one statement may change a row: by an edge; the facts of its creation stay, and the
-- counters never fall.
abbrev pub Keeps : Job → Job → Type 0
Keeps j k =
    (k.id ≡ j.id)
    × (k.tipo ≡ j.tipo)
    × (k.payload ≡ j.payload)
    × (k.criado_em ≡ j.criado_em)
    × (j.tentativas ≤ k.tentativas)
    × (j.progresso_seq ≤ k.progresso_seq)

Edge-cast : {s s' t : Status} → s ≡ s' → Edge s' t → Edge s t
Edge-cast {t = t} e h = subst (λ a. Edge a t) (sym e) h

Edge_closing : (s : Status) → is_active s ≡ true → Edge s cancelled
Edge_closing pending g = drop
Edge_closing processing g = stop
Edge_closing s g = absurd (cc)

module _ (agora : ℕ) (j : Job) where
  -- A finished row passes no guard.
  pub guard_active : (w : Write) → guard w j ≡ true → is_active j.status ≡ true
  guard_active (reject _) g = ground arith
  guard_active _ g = ground arith

  pub assign-Edge : (w : Write) → guard w j ≡ true → Edge j.status (assign agora w j).status
  unfolding assign
  assign-Edge (reject _) g = Edge-cast (ground arith) unreadable
  assign-Edge (reserve _) g = Edge-cast (ground arith) start
  assign-Edge (progress _) g = stay j.status
  assign-Edge (cancel_pending _ _) g = Edge-cast (ground arith) drop
  assign-Edge (cancel_processing _ _) g = stay j.status
  assign-Edge (close_cancelled _ _ _) g = Edge_closing j.status g
  assign-Edge (complete _) g = Edge-cast (ground arith) finish
  assign-Edge (fail _ _) g = Edge-cast (ground arith) break
  assign-Edge (recover_cancelled _) g = Edge-cast (ground arith) stop
  assign-Edge requeue g = Edge-cast (ground arith) again

  pub assign-Keeps : (w : Write) → Keeps j (assign agora w j)
  unfolding assign
  assign-Keeps (reject _) = ground arith
  assign-Keeps _ = ground arith

  pub assign-IsRow : (w : Write) → guard w j ≡ true → IsRow j → IsRow (assign agora w j)
  assign-IsRow w g h = assign-IsRow_at agora j j.status w refl g h
