-- ===== src/Workspace/ReadTests.antt =====
-- Runs of the reading of a range, and of an edit of what was read.
use mathlib.Core.Path.{refl}
use Prim.Native.String.{String}
use eyle.Base.Chars.{lower, ends_with, split, join, concat, replace_char}
use eyle.Base.Dict.{member, get}
use eyle.Base.Int.{pos}
use eyle.Workspace.Newlines.{normalizar_quebras}
use eyle.Workspace.Ranges.{extrair_faixa}
use eyle.Workspace.Parts.{plain}
use eyle.Workspace.Splice.{splice}
use eyle.Workspace.Policy.{is_protected_workspace_resource}
use eyle.Workspace.Paths.{resolver_caminho_seguro}
use eyle.Workspace.DryRun.{Host, approved, hash_texto, prepare_text, validated, validate_python}
use eyle.Workspace.Patch.{update}
use eyle.Workspace.Reading.{
  Faixa, lido, erro, ler_texto, ler_faixa_projeto, invalid_range, file_not_found,
}
use eyle.Workspace.ReadEdit.{update_to, prepare_text-ler_texto}
use eyle.Base.{inl, some, [], ◌∷◌, true, ℕ, ◌≡◌, arith, false}

program : Unit {0}
unfolding ler_faixa_projeto plain get resolver_caminho_seguro is_protected_workspace_resource split
    join concat normalizar_quebras replace_char member extrair_faixa
program = tt

abbrev host : Host
host = record {
  repr = λ v. "";
  sha256 = λ s. s;
  parses = λ path content. true;
  resolve = resolver_caminho_seguro (λ p. some p) "/w";
  protected = is_protected_workspace_resource (λ p. some p) (λ p. false) "/w";
}

abbrev numbered : ℕ → String → String
numbered n s = s

abbrev faixa : Faixa
faixa = record {
  line_start = 2;
  line_end = 3;
  requested_line_end = 9;
  total_lines = 3;
  numbered_content = "b\nc";
  content = "b\nc";
  content_hash = some "b\nc";
  file_hash = "a\nb\nc";
  end_clamped = true;
}

read_to_the_end :
    ler_faixa_projeto host numbered (("/w/a.txt", "a\r\nb\r\nc") ∷ []) "a.txt" (pos 2) (pos 9) 400
    ≡ lido faixa
unfolding program
read_to_the_end = refl

read_protected :
    ler_faixa_projeto host numbered (("/w/.env", "k") ∷ []) ".ENV" (pos 1) (pos 1) 400
    ≡ erro file_not_found
unfolding program
read_protected = refl

read_from_zero : ler_faixa_projeto host numbered [] "a.txt" (pos 0) (pos 9) 400 ≡ erro invalid_range
unfolding program
read_from_zero = refl

text_read : ler_texto host numbered "a\nb\nc" 2 9 ≡ lido faixa
unfolding program
text_read = refl

plain_text : plain "a\nb\nc" ≡ true
unfolding program
plain_text = refl

parsed : validated host "a.py" (some (splice "a\nb\nc" 2 3 "B")) ≡ true
unfolding validated validate_python ends_with lower
parsed = refl

prepare_text-ler_texto_example :
    (some "b\nc" ≡ some (hash_texto host "b\nc"))
    × (prepare_text host "a.py" "/w/a.py" "a\nb\nc"
          (update (pos 2) (pos 3) "B" (hash_texto host "a\nb\nc") (hash_texto host "b\nc"))
        ≡ approved (update_to host "a.py" "/w/a.py" "a\nb\nc" (splice "a\nb\nc" 2 3 "B")))
prepare_text-ler_texto_example =
    prepare_text-ler_texto host numbered "a.py" "/w/a.py" "a\nb\nc" 2 9 "B"
      (hash_texto host "a\nb\nc") faixa plain_text (omega arith) (omega arith) text_read (inl refl)
      parsed
