-- ===== src/Binding/Bound.antt =====
-- eyle/core/memory.py: which tasks `apply_task_binding` accepts.
use mathlib.Core.Path.{refl}
use mathlib.Core.Bool.{false≢true}
use mathlib.Core.Option.{some-injective, none-ne-some}
use Prim.Native.String.{String}
use eyle.Base.Dict.{Dict}
use eyle.Base.Keyed.{keyed_sound}
use eyle.Base.Table.{find_test}
use eyle.Value.{Value, Fields, null, obj, keys_within, has_key}
use eyle.Memory.{
  Node, Task, TaskState, active, blocked, resolved, cancelled, Graph, Try, done, raised,
}
use eyle.Memory.Tables.{node_row}
use eyle.Memory.Ops.{is_current, is_over, is_terminal}
use eyle.Memory.Holds.{Holds, Holds-bind, Holds-the, Holds-demand, Holds-done}
use eyle.Memory.Lookup.{node_id, node_of, task_of, is_task}
use eyle.Memory.Sound.{Sound, Fits}
use eyle.Binding.{
  unasked, rejected, unbound, is_bound_to, apply_task_binding, Reply, bound, bind_to, target,
  task_record, is_open, rejection, unbind, bind, act,
}
use eyle.Base.{
  [], ◌∷◌, Option, none, some, Bool, sym, true, false, ◌&&◌, ◌||◌, if◌then◌else◌, ◌≡◌, str_eq,
  arith, subst, Bool-cases, inl, inr, not, is_none,
}

-- An id that may be bound: in the storage, its node is a task of the domain "task" that goes on.
abbrev pub MayBind : Option Graph → String → Type 0
MayBind storage id =
    (g : Graph) × (n : Node) × (t : Task) × (storage ≡ some g)
    × (node_of id g ≡ some n)
    × (task_of id g ≡ some t)
    × (is_task n ≡ true)
    × (str_eq n.domain "task" ≡ true)
    × (is_open t.state ≡ true)

task_record-find :
    (n : Node) (g : Graph) (t : Task)
    → task_record n g ≡ some t
    → (is_task n ≡ true) × (str_eq n.domain "task" ≡ true) × (task_of n.id g ≡ some t)
unfolding task_record
task_record-find n g t e = elim (Bool-cases (is_task n && str_eq n.domain "task")) [
  | inl both ↦ (ground arith, ground arith, rw both at e)
  | inr neither ↦ absurd (none-ne-some t (rw neither at e))
]

target-MayBind :
    (aliases : Dict String) (storage : Option Graph) (ref : String)
    → Holds (MayBind storage) (target aliases storage ref)
unfolding target node_row
target-MayBind aliases storage ref =
    let end : String → Type 0 = MayBind storage in
    Holds-demand end _ _ _ λ _. Holds-bind end _ _ λ id _. Holds-the end storage _ _ λ g stored.
      Holds-the end (node_of id g) _ _ λ n there. Holds-the end (task_record n g) _ _ λ t found.
        Holds-demand end (is_open t.state) _ _ λ is_going.
          let key : n.id ≡ id = keyed_sound node_id id n (find_test _ g.nodes n there) in
          let (task, domain, row) = task_record-find n g t found in
          Holds-done end id (
            g,
            n,
            t,
            stored,
            there,
            subst (λ i. task_of i g ≡ some t) key row,
            task,
            domain,
            is_going,
          )

not_over : (s : TaskState) → is_open s ≡ true → is_terminal s ≡ false
unfolding is_open is_terminal
not_over active h = refl
not_over blocked h = refl
not_over resolved h = absurd (false≢true h)
not_over cancelled h = absurd (false≢true h)

-- A node whose task goes on is current.
open_node :
    (n : Node) (t : Task)
    → Sound (some n) (some t)
    → is_open t.state ≡ true
    → is_current n.status ≡ true
unfolding Fits is_over
open_node n t (fits, timed) going =
    let over : is_terminal t.state ≡ false = not_over t.state going in
    let either : (is_current n.status || is_terminal t.state) ≡ true = fits.1 in ground arith

-- What a reply says of the session before and after it. An error, or nothing that was asked, changes nothing.
unfoldable pub Agrees : Option Graph → Option String → Reply → Option String → Type 0
unfolding is_bound_to
Agrees storage session unasked after = after ≡ session
Agrees storage session (rejected code) after = after ≡ session
Agrees storage session (unbound changed) after = (after ≡ none) × (changed ≡ not (is_none session))
Agrees storage session (bound id changed) after =
    (after ≡ some id) × (changed ≡ not (is_bound_to id session)) × MayBind storage id

abbrev Agreed : Option Graph → Option String → Reply × Option String → Type 0
Agreed storage session r = Agrees storage session r.0 r.1

if-Agreed :
    (storage : Option Graph) (session : Option String) (b : Bool) (r s : Reply × Option String)
    → Agreed storage session r
    → Agreed storage session s
    → Agreed storage session (if b then r else s)
if-Agreed storage session true r s h k = h
if-Agreed storage session false r s h k = k

rejection-Agreed :
    (storage : Option Graph) (session : Option String) → Agreed storage session (rejection session)
unfolding rejection Agrees
rejection-Agreed storage session = refl

bind_to-Agreed :
    (storage : Option Graph) (session : Option String) (r : Try String)
    → Holds (MayBind storage) r
    → Agreed storage session (bind_to session r)
unfolding bind_to Holds Agrees
bind_to-Agreed storage session (raised code) h = refl
bind_to-Agreed storage session (done id) h = (refl, refl, h)

unbind-Agreed :
    (storage : Option Graph) (d : Fields) (session : Option String)
    → Agreed storage session (unbind d session)
unfolding unbind Agrees
unbind-Agreed storage d session =
    if-Agreed storage session (keys_within ("action" ∷ []) d) _ _ (refl, refl)
      (rejection-Agreed storage session)

module _ (repr : Value → String) (aliases : Dict String) (storage : Option Graph) where
  bind-Agreed :
      (d : Fields) (session : Option String)
      → Agreed storage session (bind repr aliases storage d session)
  unfolding bind
  bind-Agreed d session =
      if-Agreed storage session (keys_within ("action" ∷ "ref" ∷ []) d && has_key "ref" d) _ _
        (bind_to-Agreed storage session _ (target-MayBind aliases storage _))
        (rejection-Agreed storage session)

  act-Agreed :
      (d : Fields) (session : Option String)
      → Agreed storage session (act repr aliases storage d session)
  unfolding act
  act-Agreed d session =
      if-Agreed storage session _ _ _ (unbind-Agreed storage d session)
        (if-Agreed storage session _ _ _ (bind-Agreed d session) (rejection-Agreed storage session))

  -- The session and the reply agree. A reply that is an error, or that nothing was asked, leaves the session
  -- as it was. After an unbinding no task is bound, and the reply says whether one was. After a binding
  -- the task that the reply names is bound, the reply says whether it is another than before, and it is
  -- a node of the kind and the domain "task" in the storage, whose task is active or blocked.
  pub apply_task_binding-Agrees :
      (binding : Option Value) (session : Option String)
      → Agrees storage session
          (apply_task_binding repr aliases storage binding session).0
          (apply_task_binding repr aliases storage binding session).1
  unfolding apply_task_binding Agrees
  apply_task_binding-Agrees none session = refl
  apply_task_binding-Agrees (some null) session = refl
  apply_task_binding-Agrees (some (obj d)) session = act-Agreed d session
  apply_task_binding-Agrees (some v) session = rejection-Agreed storage session

bound-MayBind :
    (storage : Option Graph) (session : Option String) (r : Reply) (after : Option String)
    (id : String) (changed : Bool)
    → Agrees storage session r after
    → r ≡ bound id changed
    → MayBind storage id
unfolding Agrees
bound-MayBind storage session unasked after id changed h e = absurd (cc)
bound-MayBind storage session (rejected code) after id changed h e = absurd (cc)
bound-MayBind storage session (unbound c) after id changed h e = absurd (cc)
bound-MayBind storage session (bound i c) after id changed (_, _, may) e =
    let same : i ≡ id = cc in subst (MayBind storage) same may

-- Where the graph is sound at the id (its task belongs to a node of kind "task", that of a closed node has
-- ended, and the time of an end is set exactly for a task that has ended), the node to which a session is
-- bound is current.
pub apply_task_binding-current :
    (repr : Value → String) (aliases : Dict String) (g : Graph) (binding : Option Value)
    (session : Option String) (id : String) (changed : Bool)
    → (apply_task_binding repr aliases (some g) binding session).0 ≡ bound id changed
    → Sound (node_of id g) (task_of id g)
    → (n : Node) × (node_of id g ≡ some n) × (is_current n.status ≡ true)
apply_task_binding-current repr aliases g binding session id changed e sound =
    let (h, n, t, same, there, row, task, domain, going) =
      bound-MayBind (some g) session _ _ id changed
        (apply_task_binding-Agrees repr aliases (some g) binding session) e in
    let is_g : g ≡ h = some-injective g h same in
    let sound_there : Sound (node_of id h) (task_of id h) =
      subst (λ (x : Graph). Sound (node_of id x) (task_of id x)) is_g sound in
    (
      n,
      subst (λ (x : Graph). node_of id x ≡ some n) (sym is_g) there,
      open_node n t (rw (there, row) at sound_there) going,
    )
