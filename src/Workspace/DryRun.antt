-- ===== src/Workspace/DryRun.antt =====
-- eyle/providers/standard/transactions.py: `dry_run_patch_set`, the check of a whole transaction before
-- any file is written. The text of an error is left out.
use Prim.Native.String.{String}
use eyle.Base.Dict.{Dict, get, member}
use eyle.Base.Chars.{lower, ends_with}
use eyle.Base.Int.{ℤ, pos}
use eyle.Value.{Value, Items, nil, cons, arr}
use eyle.Workspace.Newlines.{normalizar_quebras}
use eyle.Workspace.Ranges.{extrair_faixa, substituir_linhas}
use eyle.Workspace.Patch.{Change, update, replace, create, delete, Patch, normalize_patch}
use eyle.Base.{
  Option, none, some, ◌>>=◌, List, [], ◌∷◌, ℕ, suc, Bool, if◌then◌else◌, ltb, not, true, false,
  str_eq, ◌||◌, ◌&&◌,
}

-- The world around a project. Its files stand under their absolute paths, each as the text that its
-- bytes spell; a path is a file or nothing.
pub record Host : Type 0 where
  pub repr : Value → String
  pub sha256 : String → String
  pub parses : String → String → Bool
  pub resolve : String → Option String
  pub protected : String → Bool

abbrev pub Files : Type 0
Files = Dict String

pub data ErrorCode : Type 0 where
  invalid_argument unsafe_path protected_resource_read_blocked file_already_exists : ErrorCode
  file_not_found stale_patch invalid_range dry_run_failed : ErrorCode

pub data Checked (A : Type 0) : Type 0 where
  approved : A → Checked A
  refused : ErrorCode → Checked A

-- The rest of a check, where the test holds.
unfoldable pub require : {A : Type 0} → Bool → ErrorCode → Checked A → Checked A
require true e rest = rest
require false e rest = refused e

-- The rest of a check, of a value that is there.
unfoldable pub given : {A B : Type 0} → Option A → ErrorCode → (A → Checked B) → Checked B
given none e rest = refused e
given (some a) e rest = rest a

-- The rest of a check, of what a first part approves.
unfoldable pub after : {A B : Type 0} → Checked A → (A → Checked B) → Checked B
after (refused e) rest = refused e
after (approved a) rest = rest a

pub data Operation : Type 0 where
  updates replaces creates deletes : Operation

-- A prepared patch; a file that is absent has no content.
pub record Prepared : Type 0 where
  pub path : String
  pub operation : Operation
  pub absolute : String
  pub original_content : Option String
  pub result_content : Option String

-- `open(path, "r").read()`
abbrev pub read_text : String → String
read_text = normalizar_quebras

-- A range that has lines and begins at 1 or later.
unfoldable pub range_of : ℤ → ℤ → Option (ℕ × ℕ)
range_of (pos (suc i)) (pos f) = if ltb f (suc i) then none else some (suc i, f)
range_of _ _ = none

module _ (host : Host) where
  unfoldable pub hash_texto : String → String
  hash_texto conteudo = host.sha256 (normalizar_quebras conteudo)

  unfoldable pub hash_faixa : String → ℕ → ℕ → Option String
  unfolding hash_texto
  hash_faixa conteudo inicio fim = do
    faixa ← extrair_faixa conteudo inicio fim
    some (hash_texto faixa)

  -- `_validate_python` raises nothing.
  unfoldable pub validate_python : String → String → Bool
  unfolding lower ends_with
  validate_python path content = not (ends_with (lower path) ".py") || host.parses path content

  -- The expected hash is given, and the current one is another.
  unfoldable pub is_stale : Option String → String → Bool
  is_stale none expected = not (str_eq expected "")
  is_stale (some current) expected = not (str_eq expected "") && not (str_eq current expected)

  -- The lines of an update, in the original text.
  unfoldable pub updated : String → ℤ → ℤ → String → String → Checked String
  unfolding range_of hash_faixa is_stale
  updated original line_start line_end new_code range_hash =
      given (range_of line_start line_end) invalid_range λ (start, end).
        require (not (is_stale (hash_faixa original start end) range_hash)) stale_patch
          (given (substituir_linhas original start end new_code) invalid_range approved)

  -- What a change makes of a file that is there. A `create` does not come here.
  unfoldable pub changed : Change → String → Checked (Operation × Option String)
  unfolding updated
  changed (update line_start line_end new_code file_hash range_hash) original =
      after (updated original line_start line_end new_code range_hash)
        λ result. approved (updates, some result)
  changed (replace content file_hash) original = approved (replaces, some content)
  changed (create content) original = refused file_already_exists
  changed (delete file_hash) original = approved (deletes, none)

  abbrev pub file_hash_expected : Change → String
  file_hash_expected (update line_start line_end new_code file_hash range_hash) = file_hash
  file_hash_expected (replace content file_hash) = file_hash
  file_hash_expected (create content) = ""
  file_hash_expected (delete file_hash) = file_hash

  -- A patch of a path that is no file.
  unfoldable pub prepare_absent : String → String → Change → Checked Prepared
  unfolding validate_python
  prepare_absent path absolute (create content) =
      require (validate_python path content) dry_run_failed (
        approved (record {
          path = path;
          operation = creates;
          absolute = absolute;
          original_content = none;
          result_content = some content;
        }))
  prepare_absent path absolute _ =
      require (not (host.protected path)) protected_resource_read_blocked (refused file_not_found)

  -- The Python of a result parses.
  unfoldable pub validated : String → Option String → Bool
  unfolding validate_python
  validated path none = true
  validated path (some result) = validate_python path result

  -- A patch of a file, by its text.
  unfoldable pub prepare_text : String → String → String → Change → Checked Prepared
  unfolding is_stale changed validated
  prepare_text path absolute original change =
      require (not (is_stale (some (hash_texto original)) (file_hash_expected change))) stale_patch
        (after (changed change original) λ (operation, result).
          require (validated path result) dry_run_failed (
            approved (record {
              path = path;
              operation = operation;
              absolute = absolute;
              original_content = some original;
              result_content = result;
            })))

  unfoldable pub is_create : Change → Bool
  is_create (create content) = true
  is_create _ = false

  unfoldable pub prepare_present : String → String → String → Change → Checked Prepared
  unfolding prepare_text is_create
  prepare_present path absolute raw change = require (not (is_create change)) file_already_exists (
      require (not (host.protected path)) protected_resource_read_blocked
        (prepare_text path absolute (read_text raw) change))

  -- The file at a path that is granted, or none.
  unfoldable pub prepare_at : String → String → Option String → Change → Checked Prepared
  unfolding prepare_absent prepare_present
  prepare_at path absolute none change = prepare_absent path absolute change
  prepare_at path absolute (some raw) change = prepare_present path absolute raw change

  -- The body of the loop, of a patch that is well formed.
  unfoldable pub prepare : Files → Patch → Checked Prepared
  unfolding prepare_at
  prepare files patch =
      given (host.resolve patch.path) unsafe_path
        λ absolute. prepare_at patch.path absolute (get absolute files) patch.change

  -- The patches that are left, after those of the paths in `seen`.
  unfoldable pub dry_run_loop : Files → List String → Items → Checked (List Prepared)
  unfolding prepare normalize_patch
  dry_run_loop files seen nil = approved []
  dry_run_loop files seen (cons raw rest) =
      given (normalize_patch host.repr raw) dry_run_failed λ patch.
        require (not (member patch.path seen)) dry_run_failed (
          after (prepare files patch) λ item.
            after (dry_run_loop files (patch.path ∷ seen) rest) λ items. approved (item ∷ items))

  unfoldable pub dry_run_patch_set : Files → Value → Checked (List Prepared)
  unfolding dry_run_loop
  dry_run_patch_set files (arr (cons raw rest)) = dry_run_loop files [] (cons raw rest)
  dry_run_patch_set files _ = refused invalid_argument
