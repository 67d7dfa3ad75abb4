-- ===== src/Workspace/Ranges.antt =====
-- eyle/providers/standard/text_hash.py, workspace_io.py and editing.py: a range of lines, read with
-- `splitlines` and replaced with `split("\n")`. Lines are numbered from 1.
use Prim.Native.Char.{Char, code}
use Prim.Native.String.{String, [] as empty, ◌∷◌ as ◌▸◌}
use Prim.Native.Nat.{ℕ, ◌-◌}
use mathlib.Core.Path.{◌≡◌, refl}
use mathlib.Core.Bool.{Bool, false, ◌&&◌, ◌||◌}
use mathlib.Core.List.{List, [], ◌∷◌, ◌++◌}
use mathlib.Core.Option.{Option, none, some}
use eyle.Base.{◌==◌, leb, ltb, if◌then◌else◌, not}
use eyle.Base.Chars.{is_char, split, join, glue, concat, replace_char}
use eyle.Base.{length, take, drop}
use eyle.Workspace.Newlines.{normalizar_quebras, starts_lf}

-- The characters at which `str.splitlines` ends a line.
unfoldable pub is_break : Char → Bool
is_break ch =
    let c = code ch in
    (leb 10 c && leb c 13) || (leb 28 c && leb c 30) || c == 0x85 || c == 0x2028 || c == 0x2029

-- `s.splitlines(keepends=True)`: a carriage return and the line feed after it end one line.
unfoldable pub split_lines : String → List String
unfolding is_break is_char glue starts_lf
split_lines empty = []
split_lines (c ▸ s) =
    let rest = split_lines s in
    if is_break c && not (is_char 13 c && starts_lf s) then (c ▸ "") ∷ rest else glue c rest

-- `linhas[inicio - 1:fim]`
unfoldable pub between : ℕ → ℕ → List String → List String
between inicio fim linhas = take (fim - (inicio - 1)) (drop (inicio - 1) linhas)

unfoldable pub extrair_faixa : String → ℕ → ℕ → Option String
unfolding between
extrair_faixa conteudo inicio fim =
    let linhas = split_lines (normalizar_quebras conteudo) in
    if ltb inicio 1 || ltb fim inicio || ltb (length linhas) fim
    then none
    else some (concat (between inicio fim linhas))

-- The text ends with a line feed.
unfoldable pub ends_lf : String → Bool
ends_lf empty = false
ends_lf (c ▸ empty) = is_char 10 c
ends_lf (c ▸ d ▸ s) = ends_lf (d ▸ s)

-- Drops a last item that is the empty text.
unfoldable pub trim_last : List String → List String
trim_last [] = []
trim_last (empty ∷ []) = []
trim_last ((c ▸ p) ∷ []) = (c ▸ p) ∷ []
trim_last (p ∷ q ∷ ps) = p ∷ trim_last (q ∷ ps)

-- The new lines, in front of the lines that are left below.
unfoldable pub fitted : List String → List String → List String
unfolding trim_last
fitted [] substituicao = substituicao
fitted (_ ∷ _) substituicao = trim_last substituicao

-- `_substituir_linhas`
unfoldable pub substituir_linhas : String → ℕ → ℕ → String → Option String
unfolding fitted
substituir_linhas conteudo inicio fim novo =
    let linhas = split 10 conteudo in
    if ltb inicio 1 || ltb (length linhas) fim || ltb fim inicio
    then none
    else let sufixo = drop fim linhas in
      some (join "\n" (take (inicio - 1) linhas ++ fitted sufixo (split 10 novo) ++ sufixo))

extrair_faixa_run : extrair_faixa "a\r\nb\nc" 2 3 ≡ some "b\nc"
unfolding extrair_faixa normalizar_quebras replace_char split_lines concat
extrair_faixa_run = refl

substituir_linhas_run : substituir_linhas "a\nb\nc\n" 2 2 "x\ny\n" ≡ some "a\nx\ny\nc\n"
unfolding substituir_linhas split join
substituir_linhas_run = refl
