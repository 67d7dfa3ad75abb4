-- ===== src/Workspace/Written.antt =====
-- eyle/providers/standard/transactions.py: what a run of writes leaves that does not fail, and that a
-- rollback works where its writes do.
use mathlib.Core.Path.{refl}
use mathlib.Core.Bool.{true≢false}
use mathlib.Core.List.{reverse}
use mathlib.Core.List.{append-nil, append_assoc}
use Prim.Native.String.{String}
use eyle.Base.Dict.{and-false, get}
use eyle.Workspace.DryRun.{Host, Files, Prepared}
use eyle.Workspace.Apply.{Applied, apply_loop, write, RolledBack, rollback_patch_set, rollback_loop}
use eyle.Workspace.Apply.{restore, restore_to}
use eyle.Workspace.Undone.{same_hash-written}
use eyle.Workspace.Atomic.{apply_loop-fails, apply_loop-stops, apply_loop-writes, get-write}
use eyle.Base.{
  List, [], ◌∷◌, ◌++◌, is_nil, Bool, if◌then◌else◌, ◌≡◌, false, str_eq, sym, true, Bool-cases, inl,
  ap, ◌∙◌, inr, Option-cases, not, is_none,
}
use eyle.Base.{Option, none, some}

-- The content of a path after the writes of the members, from its content before.
unfoldable pub latest : String → List Prepared → Option String → Option String
latest a [] old = old
latest a (p ∷ ps) old = latest a ps (if str_eq p.absolute a then p.result_content else old)

-- A run without failure has done all members, and each file is what the members made of it.
pub record Complete (done ps : List Prepared) (files : Files) (run : Applied) : Type 0 where
  pub all : run.done ≡ done ++ ps
  pub written : (a : String) → get a run.files ≡ latest a ps (get a files)

pub apply_loop-Complete :
    (fails : String → Bool) (ps done : List Prepared) (files : Files)
    → (apply_loop fails ps done files).failed ≡ false
    → Complete done ps files (apply_loop fails ps done files)
unfolding latest
apply_loop-Complete fails [] done files h =
    unfold apply_loop in record { all = sym (append-nil done); written = λ a. refl }
apply_loop-Complete fails (p ∷ ps) done files h = elim (Bool-cases (fails p.path)) [
  | inl failed ↦ absurd (
      true≢false (ap (λ run. run.failed) (sym (apply_loop-fails fails p ps done files failed)) ∙ h))
  | inr works ↦ elim (Option-cases (write p files)) [
    | inl stuck ↦ absurd (
        true≢false
          (ap (λ run. run.failed) (sym (apply_loop-stops fails p ps done files works stuck)) ∙ h))
    | inr (next, e) ↦
        let same = apply_loop-writes fails p ps done files next works e in
        let rest =
          apply_loop-Complete fails ps (done ++ p ∷ []) next
            (ap (λ run. run.failed) (sym same) ∙ h) in
        record {
          all = ap (λ run. run.done) same ∙ rest.all ∙ append_assoc done (p ∷ []) ps;
          written = λ a.
              ap (λ run. get a run.files) same
              ∙ rest.written a
              ∙ ap (latest a ps) (get-write p a files next e);
        }
  ]
]

module _ (host : Host) (fails_back : String → Bool)
    (works : (path : String) → fails_back path ≡ false) where
  restore_to_works :
      (path k : String) (o : Option String) (files : Files)
      → (restore_to host fails_back path k o files).0 ≡ true
  unfolding restore_to
  restore_to_works path k none files = rw (works path, and-false (not (is_none (get k files)))) refl
  restore_to_works path k (some s) files = rw (works path) (same_hash-written host k s files)

  restore_works : (p : Prepared) (files : Files) → (restore host fails_back p files).0 ≡ true
  unfolding restore
  restore_works p files = restore_to_works p.path p.absolute p.original_content files

  rollback_loop_works :
      (ps : List Prepared) (r : RolledBack)
      → (rollback_loop host fails_back ps r).failures ≡ r.failures
  unfolding rollback_loop
  rollback_loop_works [] r = refl
  rollback_loop_works (p ∷ ps) r = rollback_loop_works ps _ ∙ rw (restore_works p r.files) refl

  -- A rollback whose writes and removals do not fail reports no failure.
  pub rollback_patch_set_works :
      (ps : List Prepared) (now : Files)
      → is_nil (rollback_patch_set host fails_back ps now).failures ≡ true
  unfolding rollback_patch_set
  rollback_patch_set_works ps now =
      rw (rollback_loop_works (reverse ps) (record { files = now; failures = []; restored = [] }))
        refl
