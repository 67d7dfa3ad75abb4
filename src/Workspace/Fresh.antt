-- ===== src/Workspace/Fresh.antt =====
-- eyle/providers/standard/transactions.py: what a patch that is approved was checked against.
use eyle.Workspace.Patch.{update}
use mathlib.Core.Option.{some-injective}
use Prim.Native.String.{String}
use eyle.Base.Int.{ℤ}
use eyle.Workspace.Ranges.{extrair_faixa}
use eyle.Workspace.Parts.{plain}
use eyle.Workspace.Splice.{splice, substituir_linhas-splice}
use eyle.Workspace.Rewritten.{extrair_faixa-some}
use eyle.Workspace.DryRun.{
  Host, hash_texto, hash_faixa, Operation, Prepared, changed, prepare_text, approved, updates,
}
use eyle.Workspace.DryRun.{is_stale, range_of, updated}
use eyle.Workspace.Originals.{
  Approved, Approved-require, Approved-given, Approved-after, Approved-result,
}
use eyle.Workspace.Originals.{Approved-approved}
use eyle.Base.{
  ℕ, ◌≡◌, true, ◌≢◌, not, sym, Option-cases, ◌∙◌, inl, arith, eq_iff, inr, Option, refl,
}
use eyle.Base.{some}

module _ (host : Host) (original : String) (line_start line_end : ℤ)
    (new_code range_hash : String) where
  -- The range that was observed is replaced, and nothing else.
  pub record Spliced (result : String) : Type 0 where
    pub start : ℕ
    pub end : ℕ
    pub faixa : String
    pub is_range : range_of line_start line_end ≡ some (start, end)
    pub is_faixa : extrair_faixa original start end ≡ some faixa
    pub is_observed : hash_texto host faixa ≡ range_hash
    pub is_result : result ≡ splice original start end new_code

  observed :
      (start end : ℕ)
      → range_hash ≢ ""
      → not (is_stale host (hash_faixa host original start end) range_hash) ≡ true
      → (faixa : String) × (extrair_faixa original start end ≡ some faixa)
        × (hash_texto host faixa ≡ range_hash)
  unfolding hash_faixa is_stale
  observed start end given h = elim (Option-cases (extrair_faixa original start end)) [
    | inl absent ↦ absurd (given (ground (arith, eq_iff range_hash "", absent, h)))
    | inr (faixa, e) ↦ (
      faixa,
      e,
      ground (arith, e, h, eq_iff range_hash "", eq_iff (hash_texto host faixa) range_hash),
    )
  ]

  updated-Spliced :
      plain original ≡ true
      → range_hash ≢ ""
      → Approved Spliced (updated host original line_start line_end new_code range_hash)
  unfolding updated
  updated-Spliced flat given = Approved-given Spliced _ _ _ λ (start, end) range.
      Approved-require Spliced _ _ _ λ fresh. Approved-given Spliced _ _ _ λ result e.
        let (faixa, there, same) = observed start end given fresh in
        let (from, order, room, _) = extrair_faixa-some original start end faixa flat there in
        Approved-approved Spliced result (record {
          start = start;
          end = end;
          faixa = faixa;
          is_range = range;
          is_faixa = there;
          is_observed = same;
          is_result =
              some-injective result (splice original start end new_code)
                (sym e ∙ substituir_linhas-splice original start end new_code flat from order room);
        })

  -- An update is of the text that was observed.
  pub record Updated (file_hash : String) (p : Prepared) : Type 0 where
    pub result : String
    pub is_fresh : hash_texto host original ≡ file_hash
    pub keeps : p.original_content ≡ some original
    pub writes : p.result_content ≡ some result
    pub splices : Spliced result

  IsSpliced : Operation × Option String → Type 0
  IsSpliced (operation, o) = (result : String) × (o ≡ some result) × Spliced result

  changed-IsSpliced :
      (file_hash : String)
      → plain original ≡ true
      → range_hash ≢ ""
      → Approved IsSpliced
          (changed host (update line_start line_end new_code file_hash range_hash) original)
  unfolding changed IsSpliced
  changed-IsSpliced file_hash flat given = Approved-after IsSpliced _ _ λ result e.
      Approved-approved IsSpliced (updates, some result)
        (result, refl, Approved-result Spliced result e (updated-Spliced flat given))

  fresh_hash :
      (file_hash : String)
      → file_hash ≢ ""
      → not (is_stale host (some (hash_texto host original)) file_hash) ≡ true
      → hash_texto host original ≡ file_hash
  unfolding is_stale
  fresh_hash file_hash given h =
      ground (arith, h, eq_iff file_hash "", eq_iff (hash_texto host original) file_hash)

  prepare_text-Updated :
      (path absolute file_hash : String)
      → plain original ≡ true
      → file_hash ≢ ""
      → range_hash ≢ ""
      → Approved (Updated file_hash) (
          prepare_text host path absolute original
            (update line_start line_end new_code file_hash range_hash))
  unfolding prepare_text IsSpliced
  prepare_text-Updated path absolute file_hash flat given_file given_range =
      Approved-require (Updated file_hash) _ _ _ λ fresh.
        Approved-after (Updated file_hash) _ _ λ made e.
          let (result, is, spliced) =
            Approved-result IsSpliced made e (changed-IsSpliced file_hash flat given_range) in
          Approved-require (Updated file_hash) _ _ _ λ _.
            Approved-approved (Updated file_hash) _ (record {
              result = result;
              is_fresh = fresh_hash file_hash given_file fresh;
              keeps = refl;
              writes = is;
              splices = spliced;
            })

-- An approved update that gives both expected hashes (neither is empty), of a text whose only breaks are
-- line feeds, has seen the text and the range: they have the hashes that the patch expects, and the result
-- is the text with that range replaced, and nothing else.
pub prepare_text-update :
    (host : Host) (path absolute original : String) (line_start line_end : ℤ)
    (new_code file_hash range_hash : String) (p : Prepared)
    → plain original ≡ true
    → file_hash ≢ ""
    → range_hash ≢ ""
    → prepare_text host path absolute original
        (update line_start line_end new_code file_hash range_hash)
      ≡ approved p
    → Updated host original line_start line_end new_code range_hash file_hash p
prepare_text-update host path absolute original line_start line_end new_code file_hash range_hash p
      flat given_file given_range h =
    Approved-result (Updated host original line_start line_end new_code range_hash file_hash) p h (
      prepare_text-Updated host original line_start line_end new_code range_hash path absolute
        file_hash flat given_file given_range)
