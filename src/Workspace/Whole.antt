-- ===== src/Workspace/Whole.antt =====
-- eyle/providers/standard/workspace_transaction.py: a confirmation puts the transaction in force or
-- undoes it.
use mathlib.Core.Path.{refl}
use Prim.Native.String.{String}
use eyle.Base.Dict.{get}
use eyle.Value.{Value}
use eyle.Workspace.DryRun.{Host, Files, Checked, approved, refused, Prepared}
use eyle.Workspace.DryRun.{dry_run_patch_set}
use eyle.Workspace.Apply.{apply_loop}
use eyle.Workspace.Apply.{apply_patch_set, apply_checked, apply_prepared}
use eyle.Workspace.Confirm.{
  VerificationState, verified, applied_partial, Tests, Stage, compileall, tests, reread,
  Confirmation,
}
use eyle.Workspace.Confirm.{confirmed, undo, conclude, verify_applied, confirm_reply, confirm}
use eyle.Workspace.Reverted.{is_undone, Unchanged, confirm-Reverts}
use eyle.Base.{
  List, [], ◌∷◌, Bool, if◌then◌else◌, ◌≡◌, false, true, Bool-cases, inl, inr, subst, ◌⊎◌,
}
use eyle.Workspace.Written.{latest, apply_loop-Complete, rollback_patch_set_works}

-- The transaction that was checked is in force, whole.
pub record InForce (files : Files) (check : Checked (List Prepared)) (c : Confirmation)
    (left : Files) : Type 0 where
  pub patches : List Prepared
  pub state : VerificationState
  pub is_confirmed : c ≡ confirmed patches state
  pub is_checked : check ≡ approved patches
  pub written : (a : String) → get a left ≡ latest a patches (get a files)

-- The transaction is in force or undone.
abbrev Ends : Files → Checked (List Prepared) → Confirmation × Files → Type 0
Ends files check (c, left) = InForce files check c left ⊎ (is_undone c ≡ true)

Ends-if :
    (files : Files) (check : Checked (List Prepared)) (b : Bool) (r s : Confirmation × Files)
    → Ends files check r
    → Ends files check s
    → Ends files check (if b then r else s)
Ends-if files check true r s hr hs = hr
Ends-if files check false r s hr hs = hs

module _ (host : Host) (compiles : List String → Files → Bool) (run_tests : Files → Tests)
    (fails fails_back : String → Bool) (works : (path : String) → fails_back path ≡ false)
    (files : Files) where
  undo-Ends :
      (check : Checked (List Prepared)) (stage : Stage) (done : List Prepared) (now : Files)
      → Ends files check (undo host compiles run_tests fails fails_back stage done now)
  unfolding undo is_undone
  undo-Ends check stage done now = inr (rollback_patch_set_works host fails_back works done now)

  conclude-Ends :
      (executed : Bool) (failures : List String) (done : List Prepared) (now : Files)
      → ((a : String) → get a now ≡ latest a done (get a files))
      → Ends files
          (approved done)
          (conclude host compiles run_tests fails fails_back executed failures done now)
  unfolding conclude
  conclude-Ends executed [] done now h = inl (record {
    patches = done;
    state = if executed then verified else applied_partial;
    is_confirmed = refl;
    is_checked = refl;
    written = h;
  })
  conclude-Ends executed (_ ∷ _) done now h = undo-Ends (approved done) reread done now

  verify_applied-Ends :
      (done : List Prepared) (now : Files)
      → ((a : String) → get a now ≡ latest a done (get a files))
      → Ends files
          (approved done)
          (verify_applied host compiles run_tests fails fails_back done now)
  unfolding verify_applied
  verify_applied-Ends done now h =
      Ends-if files (approved done) _ _ _ (undo-Ends (approved done) compileall done now) (
        Ends-if files (approved done) _ _ _ (undo-Ends (approved done) tests done now)
          (conclude-Ends _ _ done now h))

  apply_prepared-Ends :
      (prepared : List Prepared)
      → (let (reply, left) = apply_prepared host fails fails_back prepared files in
          Ends files
            (approved prepared)
            (confirm_reply host compiles run_tests fails fails_back reply left))
  unfolding apply_prepared confirm_reply is_undone
  apply_prepared-Ends prepared =
      let run = apply_loop fails prepared [] files in
      elim (Bool-cases run.failed) [
        | inl failed ↦
            rw failed (inr (rollback_patch_set_works host fails_back works run.done run.files))
        | inr done ↦
            let complete = apply_loop-Complete fails prepared [] files done in
            rw done (
              subst
                (λ ps.
                  Ends files (approved ps)
                    (verify_applied host compiles run_tests fails fails_back run.done run.files))
                complete.all
                (verify_applied-Ends run.done run.files λ a. rw complete.all (complete.written a)))
      ]

  apply_checked-Ends :
      (check : Checked (List Prepared))
      → (let (reply, left) = apply_checked host fails fails_back check files in
          Ends files check (confirm_reply host compiles run_tests fails fails_back reply left))
  unfolding apply_checked confirm_reply is_undone
  apply_checked-Ends (refused e) = inr refl
  apply_checked-Ends (approved prepared) = apply_prepared-Ends prepared

-- Where no write of a rollback fails, a confirmation ends in one of two ways, whichever of its own
-- writes fail and whatever the stages answer: the transaction that the dry run approved is in force,
-- and each file is what its members make of it; or it is undone, and each file is as it was, or as
-- text mode reads it.
pub confirm_all_or_nothing :
    (host : Host) (compiles : List String → Files → Bool) (run_tests : Files → Tests)
    (fails fails_back : String → Bool) (patches : Value) (files : Files)
    → ((path : String) → fails_back path ≡ false)
    → (let (c, left) = confirm host compiles run_tests fails fails_back patches files in
        InForce files (dry_run_patch_set host files patches) c left
        ⊎ ((is_undone c ≡ true) × Unchanged files left))
unfolding confirm apply_patch_set
confirm_all_or_nothing host compiles run_tests fails fails_back patches files works =
    elim (apply_checked-Ends host compiles run_tests fails fails_back works files
      (dry_run_patch_set host files patches)) [
        | inl whole ↦ inl whole
        | inr gone ↦
            inr (gone, confirm-Reverts host compiles run_tests fails fails_back patches files gone)
      ]
