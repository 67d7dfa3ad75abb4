-- ===== src/Workspace/Apply.antt =====
-- eyle/providers/standard/transactions.py: `apply_patch_set` and `rollback_patch_set`. A write replaces
-- the file at once or fails and leaves it, as `_escrever_arquivo_atomico` does; `fails` says of which
-- patches the write or the removal fails. The directories, which are made before a write and removed
-- when they are left empty, are not modelled.
use mathlib.Core.List.{reverse}
use Prim.Native.String.{String}
use eyle.Base.Dict.{get, enter, pop}
use eyle.Value.{Value}
use eyle.Workspace.DryRun.{Host, Files, ErrorCode, approved, refused, Prepared, read_text, Checked}
use eyle.Workspace.DryRun.{dry_run_patch_set, hash_texto}
use eyle.Base.{
  Option, none, some, List, [], ◌∷◌, ◌++◌, Bool, false, if◌then◌else◌, str_eq, true, not, is_none,
  ◌&&◌,
}

-- The files after a loop, the members that it has done, and whether one has failed.
pub record Applied : Type 0 where
  pub files : Files
  pub done : List Prepared
  pub failed : Bool

-- `_escrever_arquivo_atomico`, or `os.remove` of a file that has to be there.
unfoldable pub write_to : String → Option String → Files → Option Files
write_to k (some content) files = some (enter k content files)
write_to k none files = if is_none (get k files) then none else some (pop k files)

unfoldable pub write : Prepared → Files → Option Files
unfolding write_to
write p files = write_to p.absolute p.result_content files

unfoldable pub apply_loop : (String → Bool) → List Prepared → List Prepared → Files → Applied
unfolding write
apply_loop fails [] done files = record { files = files; done = done; failed = false }
apply_loop fails (p ∷ prepared) done files =
    if fails p.path
    then record { files = files; done = done; failed = true }
    else elim (write p files) [
      | none ↦ record { files = files; done = done; failed = true }
      | some next ↦ apply_loop fails prepared (done ++ p ∷ []) next
    ]

pub record RolledBack : Type 0 where
  pub files : Files
  pub failures : List String
  pub restored : List String

-- The text of a file that is read again has the hash of the original.
unfoldable pub same_hash : Host → String → Option String → Bool
same_hash host original none = false
same_hash host original (some raw) =
    str_eq (hash_texto host (read_text raw)) (hash_texto host original)

module _ (host : Host) (fails : String → Bool) where
  -- A file that was created is removed; the text of another is written, and read again.
  unfoldable pub restore_to : String → String → Option String → Files → Bool × Files
  unfolding same_hash
  restore_to path absolute none files =
      let is_left = not (is_none (get absolute files)) in
      if is_left && fails path then (false, files) else (true, pop absolute files)
  restore_to path absolute (some original) files =
      let next = enter absolute original files in
      if fails path then (false, files) else (same_hash host original (get absolute next), next)

  -- One member, and whether it is restored.
  unfoldable pub restore : Prepared → Files → Bool × Files
  unfolding restore_to
  restore p files = restore_to p.path p.absolute p.original_content files

  -- The members in the order in which they are given.
  unfoldable pub rollback_loop : List Prepared → RolledBack → RolledBack
  unfolding restore
  rollback_loop [] r = r
  rollback_loop (p ∷ rest) r =
      let (restored, files) = restore p r.files in
      rollback_loop rest (record {
        files = files;
        failures = if restored then r.failures else r.failures ++ p.path ∷ [];
        restored = if restored then r.restored ++ p.path ∷ [] else r.restored;
      })

  unfoldable pub rollback_patch_set : List Prepared → Files → RolledBack
  unfolding rollback_loop
  rollback_patch_set applied files =
      rollback_loop (reverse applied) (record { files = files; failures = []; restored = [] })

-- What `apply_patch_set` returns, with the files that it leaves.
pub data Reply : Type 0 where
  rejected : ErrorCode → Reply
  transaction_failed : RolledBack → Reply
  applied : List Prepared → Reply

-- `fails` is of the writes, `fails_back` of those of the rollback.
module _ (host : Host) (fails fails_back : String → Bool) where
  unfoldable pub apply_prepared : List Prepared → Files → Reply × Files
  unfolding apply_loop rollback_patch_set
  apply_prepared prepared files =
      let run = apply_loop fails prepared [] files in
      let back = rollback_patch_set host fails_back run.done run.files in
      if run.failed then (transaction_failed back, back.files) else (applied run.done, run.files)

  unfoldable pub apply_checked : Checked (List Prepared) → Files → Reply × Files
  unfolding apply_prepared
  apply_checked (refused e) files = (rejected e, files)
  apply_checked (approved prepared) files = apply_prepared prepared files

  unfoldable pub apply_patch_set : Value → Files → Reply × Files
  unfolding apply_checked dry_run_patch_set
  apply_patch_set patches files = apply_checked (dry_run_patch_set host files patches) files
