-- ===== src/Workspace/Confirm.antt =====
-- eyle/providers/standard/workspace_transaction.py: `confirm`, and post_write.py: the rereading of what
-- was promised. The compilation and the tests of the project run outside; `compiles` and `tests` stand
-- for what they answer to the files that are there. Both work on copies of the project.
use mathlib.Core.Option
use Prim.Native.String.{String}
use eyle.Base.Dict.{get}
use eyle.Value.{Value}
use eyle.Workspace.DryRun.{Host, Files, Prepared, read_text, hash_texto}
use eyle.Workspace.DryRun.{Operation, deletes}
use eyle.Workspace.Apply.{apply_patch_set, rollback_patch_set, RolledBack, Reply}
use eyle.Workspace.Apply.{applied}
use eyle.Base.{
  Option, none, some, List, [], ◌∷◌, Bool, if◌then◌else◌, false, not, true, ◌&&◌, str_eq, ◌||◌,
}

-- An item of `expected_outputs_from_patches`.
pub record Expected : Type 0 where
  pub path : String
  pub operation : Operation
  pub expected_hash : Option String

module _ (host : Host) where
  unfoldable pub expected_outputs_from_patches : List Prepared → List Expected
  expected_outputs_from_patches [] = []
  expected_outputs_from_patches (p ∷ patches) =
      record {
        path = p.path;
        operation = p.operation;
        expected_hash = Option.map (hash_texto host) p.result_content;
      }
      ∷ expected_outputs_from_patches patches

  unfoldable pub is_delete : Operation → Bool
  is_delete deletes = true
  is_delete _ = false

  -- The file at the path is absent, or has the content that was promised.
  unfoldable pub is_as_expected : Files → Expected → Bool
  unfolding is_delete
  is_as_expected files e = elim (host.resolve e.path) [
    | none ↦ false
    | some absolute ↦ elim (get absolute files) [
      | none ↦ is_delete e.operation
      | some raw ↦ not (is_delete e.operation) && elim (e.expected_hash) [
        | none ↦ true
        | some hash ↦ str_eq hash "" || str_eq (hash_texto host (read_text raw)) hash
      ]
    ]
  ]

  -- The paths of `failures`; the verification is right if there are none.
  unfoldable pub verify_expected_outputs : Files → List Expected → List String
  unfolding is_as_expected
  verify_expected_outputs files [] = []
  verify_expected_outputs files (e ∷ outputs) =
      let rest = verify_expected_outputs files outputs in
      if is_as_expected files e then rest else e.path ∷ rest

-- What `_run_tests` answers: whether it is right, and whether the tests were executed.
pub record Tests : Type 0 where
  pub ok : Bool
  pub executed : Bool

pub data Stage : Type 0 where
  compileall tests reread : Stage

pub data VerificationState : Type 0 where
  verified applied_partial : VerificationState

pub data Confirmation : Type 0 where
  not_applied : Reply → Confirmation
  undone : Stage → RolledBack → Confirmation
  confirmed : List Prepared → VerificationState → Confirmation

-- `paths` of `confirm`
unfoldable pub paths_of : List Prepared → List String
paths_of [] = []
paths_of (p ∷ ps) = p.path ∷ paths_of ps

module _ (host : Host) (compiles : List String → Files → Bool) (run_tests : Files → Tests)
    (fails fails_back : String → Bool) where
  unfoldable pub undo : Stage → List Prepared → Files → Confirmation × Files
  unfolding rollback_patch_set
  undo stage patches files =
      let back = rollback_patch_set host fails_back patches files in (undone stage back, back.files)

  -- The end of `confirm`, by the failures of the rereading.
  unfoldable pub conclude : Bool → List String → List Prepared → Files → Confirmation × Files
  unfolding undo
  conclude executed [] patches files =
      (confirmed patches (if executed then verified else applied_partial), files)
  conclude executed (_ ∷ _) patches files = undo reread patches files

  -- The stages after the writes.
  unfoldable pub verify_applied : List Prepared → Files → Confirmation × Files
  unfolding undo conclude verify_expected_outputs expected_outputs_from_patches paths_of
  verify_applied patches files =
      let answer = run_tests files in
      let failures =
        verify_expected_outputs host files (expected_outputs_from_patches host patches) in
      if not (compiles (paths_of patches) files)
      then undo compileall patches files
      else if not answer.ok
      then undo tests patches files
      else conclude answer.executed failures patches files

  unfoldable pub confirm_reply : Reply → Files → Confirmation × Files
  unfolding verify_applied
  confirm_reply (applied patches) files = verify_applied patches files
  confirm_reply reply files = (not_applied reply, files)

  unfoldable pub confirm : Value → Files → Confirmation × Files
  unfolding apply_patch_set confirm_reply
  confirm patches files =
      let (reply, left) = apply_patch_set host fails fails_back patches files in
      confirm_reply reply left
