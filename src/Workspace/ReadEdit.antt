-- ===== src/Workspace/ReadEdit.antt =====
-- eyle/providers/standard/workspace_io.py and transactions.py: an edit of a range that was read.
use eyle.Base.Dict.{and-false}
use mathlib.Core.Path.{refl}
use mathlib.Core.Bool.{false≢true}
use Prim.Native.String.{String}
use Prim.Native.Nat.{ℕ, min}
use eyle.Base.Chars.{concat}
use eyle.Base.Int.{pos}
use eyle.Workspace.Newlines.{normalizar_quebras-canonical}
use eyle.Workspace.Ranges.{split_lines, between, extrair_faixa}
use eyle.Workspace.Parts.{plain}
use eyle.Workspace.Splice.{splice, substituir_linhas-splice}
use eyle.Workspace.Rewritten.{plain-no_return}
use eyle.Workspace.DryRun.{
  Host, Prepared, updates, changed, after, validated, prepare_text, approved, hash_texto,
  hash_faixa,
}
use eyle.Workspace.DryRun.{is_stale, range_of, updated, given, require}
use eyle.Workspace.Patch.{update}
use eyle.Workspace.Reading.{Faixa, Lido, lido, erro, ler_texto}
use eyle.Base.{
  some, Bool, ◌≡◌, Bool-cases, length, true, false, ltb, ◌≤◌, inl, suc, ◌||◌, ap, arith, eq_refl,
  inr, subst, not, str_eq, zero, ◌∙◌, sym, ◌⊎◌,
}

extrair_faixa-reads :
    (conteudo : String) (inicio fim : ℕ)
    → plain conteudo ≡ true
    → 1 ≤ inicio
    → inicio ≤ fim
    → fim ≤ length (split_lines conteudo)
    → extrair_faixa conteudo inicio fim ≡ some (concat (between inicio fim (split_lines conteudo)))
unfolding extrair_faixa
extrair_faixa-reads conteudo inicio fim flat from order room =
    let canonical = normalizar_quebras-canonical conteudo (plain-no_return conteudo flat) in
    let in_range : (ltb inicio 1 || ltb fim inicio || ltb (length (split_lines conteudo)) fim)
        ≡ false =
      ground arith in
    rw (canonical, in_range) refl

hash_faixa-reads :
    (host : Host) (conteudo : String) (inicio fim : ℕ)
    → plain conteudo ≡ true
    → 1 ≤ inicio
    → inicio ≤ fim
    → fim ≤ length (split_lines conteudo)
    → hash_faixa host conteudo inicio fim
      ≡ some (hash_texto host (concat (between inicio fim (split_lines conteudo))))
unfolding hash_faixa
hash_faixa-reads host conteudo inicio fim flat from order room =
    rw (extrair_faixa-reads conteudo inicio fim flat from order room) refl

is_lido : Lido → Bool
is_lido (lido r) = true
is_lido (erro e) = false

faixa_or : Faixa → Lido → Faixa
faixa_or d (lido r) = r
faixa_or d (erro e) = d

module _ (host : Host) (numbered : ℕ → String → String) (original : String) where
  -- What is read of a text: the lines are there, and the hash is that of the content.
  record Read (inicio fim : ℕ) (r : Faixa) : Type 0 where
    start : r.line_start ≡ inicio
    end : r.line_end ≡ min fim (length (split_lines original))
    room : inicio ≤ length (split_lines original)
    content : r.content ≡ concat (between inicio r.line_end (split_lines original))
    hash : r.content_hash ≡ hash_faixa host original inicio r.line_end

  ler_texto-Read :
      (inicio fim : ℕ) (r : Faixa)
      → ler_texto host numbered original inicio fim ≡ lido r
      → Read inicio fim r
  unfolding ler_texto is_lido faixa_or
  ler_texto-Read inicio fim r h = elim (Bool-cases (ltb (length (split_lines original)) inicio)) [
    | inl past ↦ absurd (false≢true (rw past at (ap is_lido h)))
    | inr there ↦
        subst (Read inicio fim) (rw there at (ap (faixa_or r) h))
          (record { start = refl; end = refl; room = ground arith; content = refl; hash = refl })
  ]

  updated_fresh :
      (start end : ℕ) (new_code : String)
      → plain original ≡ true
      → 1 ≤ start
      → start ≤ end
      → end ≤ length (split_lines original)
      → updated host original
          (pos start)
          (pos end)
          new_code
          (hash_texto host (concat (between start end (split_lines original))))
        ≡ approved (splice original start end new_code)
  unfolding updated range_of hash_faixa is_stale given require
  updated_fresh zero end new_code flat from order room = elim from [ ]
  updated_fresh (suc i) end new_code flat from order room =
      let in_order : ltb end (suc i) ≡ false = ground arith in
      let hash = hash_texto host (concat (between (suc i) end (split_lines original))) in
      rw
        (
          in_order,
          extrair_faixa-reads original (suc i) end flat from order room,
          eq_refl hash,
          and-false (not (str_eq hash "")),
          substituir_linhas-splice original (suc i) end new_code flat from order room,
        )
        refl

-- The hash that comes with a range is fresh and in range.
updated-ler_texto :
    (host : Host) (numbered : ℕ → String → String) (original : String) (inicio fim : ℕ)
    (new_code : String) (r : Faixa)
    → plain original ≡ true
    → 1 ≤ inicio
    → inicio ≤ fim
    → ler_texto host numbered original inicio fim ≡ lido r
    → (r.content_hash ≡ some (hash_texto host r.content))
      × (updated host original
            (pos r.line_start)
            (pos r.line_end)
            new_code
            (hash_texto host r.content)
          ≡ approved (splice original r.line_start r.line_end new_code))
updated-ler_texto host numbered original inicio fim new_code r flat from order h =
    let read = ler_texto-Read host numbered original inicio fim r h in
    let start = read.start in
    let total = length (split_lines original) in
    let first : inicio ≤ r.line_end = omega (arith, read.end, read.room) in
    let last : r.line_end ≤ total = omega (arith, read.end) in
    (
      read.hash
          ∙ hash_faixa-reads host original inicio r.line_end flat from first last
          ∙ ap (λ s. some (hash_texto host s)) (sym read.content),
      rw (read.content, start)
          (updated_fresh host numbered original inicio r.line_end new_code flat from first last),
    )

module _ (host : Host) (path absolute original : String) where
  -- What an update that replaces the text by a result prepares.
  abbrev pub update_to : String → Prepared
  update_to result = record {
    path = path;
    operation = updates;
    absolute = absolute;
    original_content = some original;
    result_content = some result;
  }

  -- The expected hash of the file is that of the text, or is not given.
  abbrev pub Current : String → Type 0
  Current file_hash = (file_hash ≡ hash_texto host original) ⊎ (file_hash ≡ "")

  Current-fresh :
      (file_hash : String)
      → Current file_hash
      → is_stale host (some (hash_texto host original)) file_hash ≡ false
  unfolding is_stale
  Current-fresh file_hash (inl e) =
      let same : str_eq (hash_texto host original) file_hash ≡ true = rw e (eq_refl _) in
      rw same (and-false (not (str_eq file_hash "")))
  Current-fresh file_hash (inr e) = rw e refl

  prepare_text-updated :
      (start end : ℕ) (new_code file_hash range_hash result : String)
      → updated host original (pos start) (pos end) new_code range_hash ≡ approved result
      → Current file_hash
      → validated host path (some result) ≡ true
      → prepare_text host path absolute original
          (update (pos start) (pos end) new_code file_hash range_hash)
        ≡ approved (update_to result)
  unfolding prepare_text changed after require
  prepare_text-updated start end new_code file_hash range_hash result made current valid =
      rw (Current-fresh file_hash current, made, valid) refl

-- A range that was read, of a text whose only breaks are line feeds, comes with the hash of its content.
-- While the text stays as it is, an update of that range with that hash, and with the hash of the file or
-- none, is approved and replaces exactly that range, unless the path ends in .py and the result does not parse.
pub prepare_text-ler_texto :
    (host : Host) (numbered : ℕ → String → String) (path absolute original : String)
    (inicio fim : ℕ) (new_code file_hash : String) (r : Faixa)
    → plain original ≡ true
    → 1 ≤ inicio
    → inicio ≤ fim
    → ler_texto host numbered original inicio fim ≡ lido r
    → Current host path absolute original file_hash
    → validated host path (some (splice original r.line_start r.line_end new_code)) ≡ true
    → (r.content_hash ≡ some (hash_texto host r.content))
      × (prepare_text host path absolute original (
            update
              (pos r.line_start)
              (pos r.line_end)
              new_code
              file_hash
              (hash_texto host r.content))
          ≡ approved (
              update_to host path absolute original
                (splice original r.line_start r.line_end new_code)))
prepare_text-ler_texto host numbered path absolute original inicio fim new_code file_hash r flat
      from order h current valid =
    let (hash, made) =
      updated-ler_texto host numbered original inicio fim new_code r flat from order h in
    (
      hash,
      prepare_text-updated host path absolute original r.line_start r.line_end new_code file_hash
          (hash_texto host r.content) (splice original r.line_start r.line_end new_code) made
          current valid,
    )
