-- ===== src/Workspace/Originals.antt =====
-- eyle/providers/standard/transactions.py: what the dry run prepares, and from what.
use mathlib.Core.Option
use Prim.Native.String.{String}
use eyle.Base.Dict.{get}
use eyle.Value.{Items, nil, cons}
use eyle.Workspace.Patch.{Change, create, Patch}
use eyle.Workspace.DryRun.{
  Host, Files, ErrorCode, Checked, approved, refused, Prepared, read_text, after, given, prepare_at,
  require, prepare_present, file_not_found,
}
use eyle.Workspace.DryRun.{dry_run_loop, prepare, prepare_absent, prepare_text}
use eyle.Base.{Option, none, some, List, [], ◌∷◌, All, Bool, ◌≡◌, true, false, subst, refl, ap, sym}

-- Of what is approved.
unfoldable pub Approved : {A : Type 0} → (A → Type 0) → Checked A → Type 0
Approved P (approved a) = P a
Approved P (refused e) = Unit

-- The original content is the text of the file when it was read.
abbrev pub IsOriginal : Files → Prepared → Type 0
IsOriginal files p = p.original_content ≡ Option.map read_text (get p.absolute files)

pub Approved-approved : {A : Type 0} (P : A → Type 0) (a : A) → P a → Approved P (approved a)
unfolding Approved
Approved-approved P a h = h

pub Approved-refused : {A : Type 0} (P : A → Type 0) (e : ErrorCode) → Approved P (refused e)
unfolding Approved
Approved-refused P e = tt

-- What holds of all that is approved holds of a result.
pub Approved-result :
    {A : Type 0} (P : A → Type 0) {r : Checked A} (a : A) → r ≡ approved a → Approved P r → P a
unfolding Approved
Approved-result P a e h = subst (Approved P) e h

pub Approved-require :
    {A : Type 0} (P : A → Type 0) (b : Bool) (e : ErrorCode) (r : Checked A)
    → (b ≡ true → Approved P r)
    → Approved P (require b e r)
unfolding Approved require
Approved-require P true e r h = h refl
Approved-require P false e r h = tt

pub Approved-given :
    {A B : Type 0} (P : B → Type 0) (o : Option A) (e : ErrorCode) (rest : A → Checked B)
    → ((a : A) → o ≡ some a → Approved P (rest a))
    → Approved P (given o e rest)
unfolding Approved given
Approved-given P none e rest h = tt
Approved-given P (some a) e rest h = h a refl

pub Approved-after :
    {A B : Type 0} (P : B → Type 0) (r : Checked A) (rest : A → Checked B)
    → ((a : A) → r ≡ approved a → Approved P (rest a))
    → Approved P (after r rest)
unfolding Approved after
Approved-after P (refused e) rest h = tt
Approved-after P (approved a) rest h = h a refl

module _ (host : Host) (files : Files) where
  prepare_absent-IsOriginal :
      (path absolute : String) (change : Change)
      → get absolute files ≡ none
      → Approved (IsOriginal files) (prepare_absent host path absolute change)
  unfolding prepare_absent
  prepare_absent-IsOriginal path absolute (create content) h =
      Approved-require (IsOriginal files) _ _ _
        λ _. Approved-approved (IsOriginal files) _ (ap (Option.map read_text) (sym h))
  prepare_absent-IsOriginal path absolute _ h =
      Approved-require (IsOriginal files) _ _ _
        λ _. Approved-refused (IsOriginal files) file_not_found

  prepare_text-IsOriginal :
      (path absolute raw : String) (change : Change)
      → get absolute files ≡ some raw
      → Approved (IsOriginal files) (prepare_text host path absolute (read_text raw) change)
  unfolding prepare_text
  prepare_text-IsOriginal path absolute raw change h =
      Approved-require (IsOriginal files) _ _ _ λ _. Approved-after (IsOriginal files) _ _ λ _ _.
        Approved-require (IsOriginal files) _ _ _
          λ _. Approved-approved (IsOriginal files) _ (ap (Option.map read_text) (sym h))

  prepare_at-IsOriginal :
      (path absolute : String) (there : Option String) (change : Change)
      → get absolute files ≡ there
      → Approved (IsOriginal files) (prepare_at host path absolute there change)
  unfolding prepare_at prepare_present
  prepare_at-IsOriginal path absolute none change h =
      prepare_absent-IsOriginal path absolute change h
  prepare_at-IsOriginal path absolute (some raw) change h =
      Approved-require (IsOriginal files) _ _ _ λ _.
        Approved-require (IsOriginal files) _ _ _
          λ _. prepare_text-IsOriginal path absolute raw change h

  prepare-IsOriginal : (patch : Patch) → Approved (IsOriginal files) (prepare host files patch)
  unfolding prepare
  prepare-IsOriginal patch =
      Approved-given (IsOriginal files) _ _ _ λ absolute _.
        prepare_at-IsOriginal patch.path absolute (get absolute files) patch.change refl

  pub dry_run_loop-IsOriginal :
      (seen : List String) (raws : Items)
      → Approved (All (IsOriginal files)) (dry_run_loop host files seen raws)
  unfolding dry_run_loop
  dry_run_loop-IsOriginal seen nil = Approved-approved (All (IsOriginal files)) [] tt
  dry_run_loop-IsOriginal seen (cons raw rest) =
      Approved-given (All (IsOriginal files)) _ _ _ λ patch _.
        Approved-require (All (IsOriginal files)) _ _ _ λ _.
          Approved-after (All (IsOriginal files)) _ _ λ item e.
            Approved-after (All (IsOriginal files)) _ _ λ items f.
              Approved-approved (All (IsOriginal files)) (item ∷ items) (
                Approved-result (IsOriginal files) item e (prepare-IsOriginal patch),
                Approved-result (All (IsOriginal files)) items f
                    (dry_run_loop-IsOriginal (patch.path ∷ seen) rest),
              )
