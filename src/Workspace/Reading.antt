-- ===== src/Workspace/Reading.antt =====
-- eyle/providers/standard/workspace_io.py: `ler_faixa_projeto`, the reading of a range of lines with
-- the hashes that protect an edit of it.
use Prim.Native.String.{String, [] as empty, ◌∷◌ as ◌▸◌}
use Prim.Native.Nat.{ℕ, ◌+◌, ◌-◌, min}
use eyle.Base.Chars.{join, concat, is_char}
use eyle.Base.Dict.{get}
use eyle.Base.Int.{ℤ, pos}
use eyle.Workspace.Ranges.{split_lines, between}
use eyle.Workspace.DryRun.{Host, Files, read_text, hash_texto, hash_faixa}
use eyle.Base.{
  Option, none, some, List, [], ◌∷◌, Bool, if◌then◌else◌, length, ltb, not, ◌||◌, ◌==◌, ◌&&◌,
  str_eq,
}

pub data ReadError : Type 0 where
  invalid_range range_too_large unsafe_path file_not_found : ReadError
  protected_resource_read_blocked range_out_of_bounds : ReadError

-- What is read; the path is left out.
pub record Faixa : Type 0 where
  pub line_start : ℕ
  pub line_end : ℕ
  pub requested_line_end : ℕ
  pub total_lines : ℕ
  pub numbered_content : String
  pub content : String
  pub content_hash : Option String
  pub file_hash : String
  pub end_clamped : Bool

pub data Lido : Type 0 where
  lido : Faixa → Lido
  erro : ReadError → Lido

-- The line without the line breaks at its end, `linha.rstrip("\r\n")`.
unfoldable pub without_break : String → String
unfolding is_char
without_break empty = ""
without_break (c ▸ s) =
    let rest = without_break s in
    if (is_char 13 c || is_char 10 c) && str_eq rest "" then "" else c ▸ rest

-- The lines under their numbers, from `numero` on; `numbered` is `f"{numero:>6} | {linha}"`.
unfoldable pub numbered_lines : (ℕ → String → String) → ℕ → List String → List String
unfolding without_break
numbered_lines numbered numero [] = []
numbered_lines numbered numero (p ∷ ps) =
    numbered numero (without_break p) ∷ numbered_lines numbered (numero + 1) ps

module _ (host : Host) (numbered : ℕ → String → String) where
  -- The text of the file is there.
  unfoldable pub ler_texto : String → ℕ → ℕ → Lido
  unfolding split_lines between numbered_lines concat join hash_faixa hash_texto
  ler_texto conteudo linha_inicio linha_fim =
      let linhas = split_lines conteudo in
      let total_linhas = length linhas in
      let linha_fim_real = min linha_fim total_linhas in
      let selecionadas = between linha_inicio linha_fim_real linhas in
      if ltb total_linhas linha_inicio
      then erro range_out_of_bounds
      else lido (record {
        line_start = linha_inicio;
        line_end = linha_fim_real;
        requested_line_end = linha_fim;
        total_lines = total_linhas;
        numbered_content = join "\n" (numbered_lines numbered linha_inicio selecionadas);
        content = concat selecionadas;
        content_hash = hash_faixa host conteudo linha_inicio linha_fim_real;
        file_hash = hash_texto host conteudo;
        end_clamped = not (linha_fim_real == linha_fim);
      })

  unfoldable pub ler_arquivo : Option String → Bool → ℕ → ℕ → Lido
  unfolding ler_texto
  ler_arquivo none is_protected linha_inicio linha_fim = erro file_not_found
  ler_arquivo (some raw) is_protected linha_inicio linha_fim =
      if is_protected
      then erro protected_resource_read_blocked
      else ler_texto (read_text raw) linha_inicio linha_fim

  -- Two integers; the first error in the order of the source.
  unfoldable pub ler_faixa_projeto : Files → String → ℤ → ℤ → ℕ → Lido
  unfolding ler_arquivo
  ler_faixa_projeto files caminho (pos linha_inicio) (pos linha_fim) max_linhas =
      if ltb linha_inicio 1 || ltb linha_fim linha_inicio
      then erro invalid_range
      else if ltb max_linhas (linha_fim - linha_inicio + 1)
      then erro range_too_large
      else elim (host.resolve caminho) [
        | none ↦ erro unsafe_path
        | some caminho_abs ↦
            ler_arquivo (get caminho_abs files) (host.protected caminho) linha_inicio linha_fim
      ]
  ler_faixa_projeto files caminho _ _ max_linhas = erro invalid_range
