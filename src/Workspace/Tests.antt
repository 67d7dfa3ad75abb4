-- ===== src/Workspace/Tests.antt =====
-- Runs of the rewriting of files.
use mathlib.Core.Path.{refl}
use mathlib.Core.Bool.{true≢false}
use Prim.Native.String.{String}
use eyle.Base.Chars.{split, join, concat, replace_char}
use eyle.Base.Int.{pos}
use eyle.Base.Dict.{get, enter, pop, member}
use eyle.Value.{Value, nil, cons, num, text, arr, obj}
use eyle.Value.{field, end, lookup, truthy, keys_within}
use eyle.Workspace.Newlines.{normalizar_quebras}
use eyle.Workspace.Ranges.{extrair_faixa, substituir_linhas, split_lines}
use eyle.Workspace.Parts.{plain}
use eyle.Workspace.Splice.{splice, substituir_linhas-splice}
use eyle.Workspace.Rewritten.{substituir_linhas-extrair_faixa}
use eyle.Workspace.Paths.{
  resolver_caminho_seguro, resolver_caminho_seguro-Inside, from_root, parts, join_path,
}
use eyle.Workspace.Patch.{update, normalize_patch}
use eyle.Workspace.DryRun.{Host, Files, approved, Prepared, require}
use eyle.Workspace.DryRun.{given, after, prepare_text, dry_run_patch_set, updates}
use eyle.Workspace.Confirm.{Tests, confirm}
use eyle.Workspace.Reverted.{Unchanged, is_undone, confirm-Reverts}
use eyle.Workspace.Whole.{InForce, confirm_all_or_nothing}
use eyle.Workspace.Fresh.{Updated, prepare_text-update}
use eyle.Base.{
  List, [], ◌∷◌, ◌++◌, Bool, false, true, ◌≡◌, arith, str_eq, ◌≤◌, ◌⊎◌, length, ◌≢◌, sym, eq_refl,
  ◌∙◌, ap, if◌then◌else◌,
}
use eyle.Base.{Option, some}

program : Unit {0}
unfolding confirm is_undone extrair_faixa substituir_linhas splice plain require given after get
    enter pop join split normalizar_quebras split_lines concat resolver_caminho_seguro
    normalize_patch member lookup keys_within truthy replace_char
program = tt

abbrev host : Host
host = record {
  repr = λ v. "";
  sha256 = λ s. s;
  parses = λ path content. true;
  resolve = resolver_caminho_seguro (λ p. some p) "/w";
  protected = λ path. false;
}

abbrev patches : Value
patches = arr (
    cons
      (obj (
        field "operation" (text "update") (
          field "path" (text "a.txt") (
            field "line_start" (num 2) (
              field "line_end" (num 2) (
                field "new_code" (text "B") (
                  field "file_hash_expected" (text "a\nb\n")
                    (field "range_hash_expected" (text "b\n") end))))))))
      (cons
        (obj (
          field "operation" (text "delete")
            (field "path" (text "old.txt") (field "file_hash_expected" (text "x") end))))
        nil))

abbrev files : Files
files = ("/w/a.txt", "a\nb\n") ∷ ("/w/old.txt", "x") ∷ []

abbrev passing : Files → Tests
passing now = record { ok = true; executed = true }

abbrev failing : Files → Tests
failing now = record { ok = false; executed = true }

abbrev compiles : List String → Files → Bool
compiles paths now = true

abbrev never : String → Bool
never path = false

confirmed_run :
    (confirm host compiles passing never never patches files).1 ≡ ("/w/a.txt", "a\nB\n") ∷ []
unfolding program
confirmed_run = refl

undone_run :
    (confirm host compiles failing never never patches files).1
    ≡ ("/w/a.txt", "a\nb\n") ∷ ("/w/old.txt", "x") ∷ []
unfolding program
undone_run = refl

-- `splitlines` ends a line at a form feed, which `split("\n")` does not: the range that is read and
-- hashed as line 2 is not the line 2 that is replaced.
form_feed_read : extrair_faixa "a\u{c}b\nc" 2 2 ≡ some "b\n"
unfolding program
form_feed_read = refl

form_feed_written : substituir_linhas "a\u{c}b\nc" 2 2 "x" ≡ some "a\u{c}b\nx"
unfolding program
form_feed_written = refl

-- The rollback of a file with CR LF line ends writes the text that was read in text mode.
abbrev crlf_files : Files
crlf_files = ("/w/a.txt", "a\r\nb\r\n") ∷ ("/w/old.txt", "x") ∷ []

crlf_lost :
    (confirm host compiles failing never never patches crlf_files).1
    ≡ ("/w/a.txt", "a\nb\n") ∷ ("/w/old.txt", "x") ∷ []
unfolding program
crlf_lost = refl

plain_text : plain "a\nb\n" ≡ true
unfolding program
plain_text = refl

two_lines : 2 ≤ length (split_lines "a\nb\n")
unfolding program
two_lines = omega arith

substituir_linhas-splice_example :
    substituir_linhas "a\nb\n" 2 2 "B" ≡ some (splice "a\nb\n" 2 2 "B")
substituir_linhas-splice_example =
    substituir_linhas-splice "a\nb\n" 2 2 "B" plain_text (omega arith) (omega arith) two_lines

read_b : extrair_faixa "a\nb\n" 2 2 ≡ some "b\n"
unfolding program
read_b = refl

substituir_linhas-extrair_faixa_example : substituir_linhas "a\nb\n" 2 2 "b\n" ≡ some "a\nb\n"
substituir_linhas-extrair_faixa_example =
    substituir_linhas-extrair_faixa "a\nb\n" 2 2 "b\n" plain_text read_b

-- A disk on which one path is a link.
abbrev follow : String → Option String
follow p = if str_eq p "/w/link" then some "/w/s/a.txt" else some p

granted_path : resolver_caminho_seguro follow "/w" "link" ≡ some "/w/s/a.txt"
unfolding program
granted_path = refl

resolver_caminho_seguro-Inside_example :
    (base : String) × (pasta rest : List String) × (◌≡◌ {A = Option String} (some "/w") (some base))
    × (follow (join_path base "link") ≡ some "/w/s/a.txt")
    × (from_root pasta ≡ base)
    × (parts "/w/s/a.txt" ≡ pasta ++ rest)
resolver_caminho_seguro-Inside_example =
    resolver_caminho_seguro-Inside follow "/w" "link" "/w/s/a.txt" granted_path

undone_whole : is_undone (confirm host compiles failing never never patches files).0 ≡ true
unfolding program
undone_whole = refl

confirm-Reverts_example :
    Unchanged files (confirm host compiles failing never never patches files).1
confirm-Reverts_example =
    confirm-Reverts host compiles failing never never patches files undone_whole

confirm_all_or_nothing_example :
    (let (c, left) = confirm host compiles passing never never patches files in
      InForce files (dry_run_patch_set host files patches) c left
      ⊎ ((is_undone c ≡ true) × Unchanged files left))
confirm_all_or_nothing_example =
    confirm_all_or_nothing host compiles passing never never patches files λ _. refl

abbrev prepared : Prepared
prepared = record {
  path = "a.txt";
  operation = updates;
  absolute = "/w/a.txt";
  original_content = some "a\nb\n";
  result_content = some "a\nB\n";
}

prepared_run :
    prepare_text host "a.txt" "/w/a.txt" "a\nb\n" (update (pos 2) (pos 2) "B" "a\nb\n" "b\n")
    ≡ approved prepared
unfolding program
prepared_run = refl

text_differs : (s : String) → str_eq s "" ≡ false → s ≢ ""
text_differs s h e = true≢false (sym (eq_refl "") ∙ ap (λ t. str_eq t "") (sym e) ∙ h)

prepare_text-update_example : Updated host "a\nb\n" (pos 2) (pos 2) "B" "b\n" "a\nb\n" prepared
prepare_text-update_example =
    prepare_text-update host "a.txt" "/w/a.txt" "a\nb\n" (pos 2) (pos 2) "B" "a\nb\n" "b\n" prepared
      plain_text (text_differs "a\nb\n" refl) (text_differs "b\n" refl) prepared_run
