-- ===== src/Workspace/Reverted.antt =====
-- eyle/providers/standard/workspace_transaction.py: what a confirmation leaves that does not succeed.
use eyle.Value.{Value}
use eyle.Workspace.Atomic.{apply_loop-All, apply_loop-Untouched, dry_run_patch_set-IsOriginal}
use mathlib.Core.Path.{refl}
use mathlib.Core.Option
use mathlib.Core.Bool.{false≢true}
use mathlib.Core.List.{reverse}
use Prim.Native.String.{String}
use eyle.Base.Dict.{get}
use eyle.Workspace.DryRun.{
  Host, Files, Prepared, read_text, Checked, refused, approved, dry_run_patch_set,
}
use eyle.Workspace.Apply.{
  RolledBack, rollback_patch_set, rollback_loop, apply_loop, apply_prepared, apply_checked,
  apply_patch_set,
}
use eyle.Workspace.Apply.{rejected, transaction_failed, applied}
use eyle.Workspace.Confirm.{
  Confirmation, not_applied, undone, Tests, conclude, undo, verify_applied, Stage, compileall,
  confirm_reply, tests, confirm, reread,
}
use eyle.Workspace.Confirm.{confirmed}
use eyle.Workspace.Originals.{IsOriginal, Approved}
use eyle.Workspace.Undone.{touched, touched-reverse, All-reverse, get-rollback_loop}
use eyle.Base.{
  List, [], ◌∷◌, All, is_nil, is_nil_sound, Bool, ◌≡◌, false, if◌then◌else◌, true, ◌⊎◌, Bool-cases,
  inl, inr, ◌∙◌,
}

-- Each file is as it was, or as text mode reads it: with every line end turned into a line feed.
abbrev pub Unchanged : Files → Files → Type 0
Unchanged files left =
    (a : String) → (get a left ≡ get a files) ⊎ (get a left ≡ Option.map read_text (get a files))

-- No transaction is in force, and the rollback, if there was one, reports no failure.
unfoldable pub is_undone : Confirmation → Bool
is_undone (not_applied (rejected e)) = true
is_undone (not_applied (transaction_failed back)) = is_nil back.failures
is_undone (not_applied (applied patches)) = false
is_undone (undone stage back) = is_nil back.failures
is_undone (confirmed patches state) = false

-- What an attempt leaves where it ends undone.
abbrev Reverts : Files → Confirmation × Files → Type 0
Reverts files (c, left) = is_undone c ≡ true → Unchanged files left

Reverts-if :
    (files : Files) (b : Bool) (r s : Confirmation × Files)
    → Reverts files r
    → Reverts files s
    → Reverts files (if b then r else s)
Reverts-if files true r s hr hs = hr
Reverts-if files false r s hr hs = hs

-- The members that a run has written, and what it has left as it was.
record Partial (files : Files) (done : List Prepared) (now : Files) : Type 0 where
  originals : All (IsOriginal files) done
  others : (a : String) → touched a done ≡ false → get a now ≡ get a files

module _ (host : Host) (fails_back : String → Bool) (files : Files) where
  rollback_patch_set-Unchanged :
      (done : List Prepared) (now : Files)
      → Partial files done now
      → is_nil (rollback_patch_set host fails_back done now).failures ≡ true
      → Unchanged files (rollback_patch_set host fails_back done now).files
  unfolding rollback_patch_set
  rollback_patch_set-Unchanged done now part h a =
      let start : RolledBack = record { files = now; failures = []; restored = [] } in
      let reported = is_nil_sound (rollback_loop host fails_back (reverse done) start).failures h in
      let left =
        get-rollback_loop host fails_back files (reverse done) start a
          (All-reverse (IsOriginal files) done part.originals) reported in
      elim (Bool-cases (touched a done)) [
        | inl ours ↦ inr (left ∙ rw (touched-reverse a done, ours) refl)
        | inr other ↦ inl (left ∙ rw (touched-reverse a done, other) (part.others a other))
      ]

apply_loop-Partial :
    (fails : String → Bool) (files : Files) (prepared : List Prepared)
    → All (IsOriginal files) prepared
    → (let run = apply_loop fails prepared [] files in Partial files run.done run.files)
apply_loop-Partial fails files prepared os = record {
  originals = apply_loop-All fails (IsOriginal files) prepared [] files os tt;
  others = λ a h. (apply_loop-Untouched fails prepared [] files a h).1;
}

module _ (host : Host) (compiles : List String → Files → Bool) (run_tests : Files → Tests)
    (fails fails_back : String → Bool) (files : Files) where
  undo-Reverts :
      (stage : Stage) (done : List Prepared) (now : Files)
      → Partial files done now
      → Reverts files (undo host compiles run_tests fails fails_back stage done now)
  unfolding undo is_undone
  undo-Reverts stage done now part h =
      rollback_patch_set-Unchanged host fails_back files done now part h

  conclude-Reverts :
      (executed : Bool) (failures : List String) (done : List Prepared) (now : Files)
      → Partial files done now
      → Reverts files (conclude host compiles run_tests fails fails_back executed failures done now)
  unfolding conclude is_undone
  conclude-Reverts executed [] done now part h = absurd (false≢true h)
  conclude-Reverts executed (_ ∷ _) done now part h = undo-Reverts reread done now part h

  verify_applied-Reverts :
      (done : List Prepared) (now : Files)
      → Partial files done now
      → Reverts files (verify_applied host compiles run_tests fails fails_back done now)
  unfolding verify_applied
  verify_applied-Reverts done now part =
      Reverts-if files _ _ _ (undo-Reverts compileall done now part) (
        Reverts-if files _ _ _ (undo-Reverts tests done now part)
          (conclude-Reverts _ _ done now part))

  apply_prepared-Reverts :
      (prepared : List Prepared)
      → All (IsOriginal files) prepared
      → (let (reply, left) = apply_prepared host fails fails_back prepared files in
          Reverts files (confirm_reply host compiles run_tests fails fails_back reply left))
  unfolding apply_prepared confirm_reply is_undone
  apply_prepared-Reverts prepared os =
      let run = apply_loop fails prepared [] files in
      let part = apply_loop-Partial fails files prepared os in
      elim (Bool-cases run.failed) [
        | inl failed ↦
            rw failed (rollback_patch_set-Unchanged host fails_back files run.done run.files part)
        | inr done ↦ rw done (verify_applied-Reverts run.done run.files part)
      ]

  apply_checked-Reverts :
      (check : Checked (List Prepared))
      → Approved (All (IsOriginal files)) check
      → (let (reply, left) = apply_checked host fails fails_back check files in
          Reverts files (confirm_reply host compiles run_tests fails fails_back reply left))
  unfolding apply_checked confirm_reply is_undone Approved
  apply_checked-Reverts (refused e) os = λ h a. inl refl
  apply_checked-Reverts (approved prepared) os = apply_prepared-Reverts prepared os

-- A confirmation that does not succeed, at whichever write or stage, and whose rollback reports no
-- failure, leaves each file as it was, or as text mode reads it: with every line end turned into a
-- line feed.
pub confirm-Reverts :
    (host : Host) (compiles : List String → Files → Bool) (run_tests : Files → Tests)
    (fails fails_back : String → Bool) (patches : Value) (files : Files)
    → is_undone (confirm host compiles run_tests fails fails_back patches files).0 ≡ true
    → Unchanged files (confirm host compiles run_tests fails fails_back patches files).1
unfolding confirm apply_patch_set
confirm-Reverts host compiles run_tests fails fails_back patches files =
    apply_checked-Reverts host compiles run_tests fails fails_back files
      (dry_run_patch_set host files patches) (dry_run_patch_set-IsOriginal host files patches)
