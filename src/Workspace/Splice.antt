-- ===== src/Workspace/Splice.antt =====
-- eyle/providers/standard/editing.py: what `_substituir_linhas` writes, against the lines that
-- `splitlines` counts.
use Prim.Native.Char.{Char}
use Prim.Native.String.{String, [] as empty, ◌∷◌ as ◌▸◌, ◌++◌ as ◌<>◌}
use text.Mathlib.TextEquality.{Char-path}
use mathlib.Core.List.{append-nil}
use text.Mathlib.TextLemmas.{
  cons-ne-nil, nil-append, append-nil as text_append-nil, append_assoc as text_append_assoc,
}
use text.Mathlib.TextLemmas.{cons-append}
use eyle.Base.Chars.{is_char, split, glue, split-ne-nil, is_char_sound, concat, join, join-split}
use eyle.Workspace.Ranges.{split_lines, ends_lf, trim_last, substituir_linhas, fitted}
use eyle.Base.{
  List, [], ◌∷◌, ◌≡◌, refl, Bool-cases, false, true, arith, inl, ◌||◌, inr, length, ℕ, ◌++◌, drop,
  ◌<◌, ◌≤◌, suc, take, zero, sym, All, ap, if◌then◌else◌, ◌-◌, ◌∙◌, ◌⊎◌, ◌≢◌, some, subst, ltb,
}
use eyle.Workspace.Parts.{
  plain, ended, closed, split-lf, split-other, closed-append, join-closed, drop-ended, length-ended,
  closed-take, concat-ended, split_lines-ended, closed,
}

-- The text of a line, or nothing past the last one.
unfoldable pub line : ℕ → List String → String
line n [] = ""
line zero (p ∷ ps) = ""
line (suc zero) (p ∷ ps) = p
line (suc (suc n)) (p ∷ ps) = line (suc n) ps

-- A text that is not empty gets a line feed at its end, unless it has one.
unfoldable pub terminated : String → String
terminated empty = ""
terminated (c ▸ empty) = if is_char 10 c then c ▸ "" else c ▸ "\n"
terminated (c ▸ d ▸ s) = c ▸ terminated (d ▸ s)

-- The text with the lines `inicio` to `fim` of `splitlines` replaced. A range that ends in a line feed
-- is replaced by a text that ends in one.
unfoldable pub splice : String → ℕ → ℕ → String → String
unfolding terminated line
splice conteudo inicio fim novo =
    let linhas = split_lines conteudo in
    concat (take (inicio - 1) linhas)
    <> ((if ends_lf (line fim linhas) then terminated novo else novo) <> concat (drop fim linhas))

-- No part of a split at line feeds ends in one.
abbrev Unended : List String → Type 0
Unended = All (λ p. ends_lf p ≡ false)

glue-Unended :
    (c : Char) (ps : List String) → is_char 10 c ≡ false → Unended ps → Unended (glue c ps)
unfolding glue ends_lf
glue-Unended c [] h u = (h, tt)
glue-Unended c (empty ∷ ps) h u = (h, u.1)
glue-Unended c ((d ▸ p) ∷ ps) h u = u

split-Unended : (s : String) → Unended (split 10 s)
split-Unended empty = unfold split in unfold ends_lf in (refl, tt)
split-Unended (c ▸ s) = elim (Bool-cases (is_char 10 c)) [
  | inl lf ↦ rw (split-lf c s lf) ((unfold ends_lf in refl), split-Unended s)
  | inr other ↦ rw (split-other c s other) (glue-Unended c (split 10 s) other (split-Unended s))
]

ends_lf-line : (p : String) → ends_lf (p <> "\n") ≡ true
unfolding ends_lf is_char
ends_lf-line empty = refl
ends_lf-line (c ▸ empty) = rw (cons-append c "" "\n") refl
ends_lf-line (c ▸ d ▸ p) =
    let rest : ends_lf (d ▸ (p <> "\n")) ≡ true =
      rw (sym (cons-append d p "\n")) (ends_lf-line (d ▸ p)) in
    rw (cons-append c (d ▸ p) "\n", cons-append d p "\n") rest

-- What is below a line: nothing, where the line has no end, or more parts.
rest_below :
    (n : ℕ) (ps : List String)
    → Unended ps
    → n < length (ended ps)
    → ((drop (suc n) ps ≡ []) × (ends_lf (line (suc n) (ended ps)) ≡ false))
      ⊎ ((q : String) × (qs : List String) × (drop (suc n) ps ≡ q ∷ qs)
          × (ends_lf (line (suc n) (ended ps)) ≡ true))
unfolding ended line
rest_below n [] u h = let no : ⊥ = omega arith in absurd no
rest_below n (empty ∷ []) u h = let no : ⊥ = omega arith in absurd no
rest_below zero ((c ▸ p) ∷ []) u h = inl (refl, u.0)
rest_below (suc n) ((c ▸ p) ∷ []) u h = let no : ⊥ = omega arith in absurd no
rest_below zero (p ∷ q ∷ ps) u h = inr (q, ps, refl, ends_lf-line p)
rest_below (suc n) (p ∷ q ∷ ps) u h = rest_below n (q ∷ ps) u.1 (omega arith)

terminated-lf :
    (c : Char) (s : String) → is_char 10 c ≡ true → terminated (c ▸ s) ≡ c ▸ terminated s
unfolding terminated
terminated-lf c empty h = rw h refl
terminated-lf c (d ▸ s) h = refl

closed-glue :
    (c : Char) (p : String) (ps : List String) → closed (glue c (p ∷ ps)) ≡ c ▸ closed (p ∷ ps)
unfolding closed glue
closed-glue c p ps = rw (cons-append c p "\n", cons-append c (p <> "\n")) refl

closed-trim_last-glue :
    (c : Char) (p : String) (ps : List String)
    → join "\n" (p ∷ ps) ≢ ""
    → closed (trim_last (glue c (p ∷ ps))) ≡ c ▸ closed (trim_last (p ∷ ps))
unfolding trim_last join glue
closed-trim_last-glue c empty [] h = absurd (h refl)
closed-trim_last-glue c (d ▸ p) [] h = closed-glue c (d ▸ p) []
closed-trim_last-glue c p (q ∷ ps) h = closed-glue c p (trim_last (q ∷ ps))

closed-trim_last-lf :
    (p : String) (ps : List String)
    → closed (trim_last ("" ∷ p ∷ ps)) ≡ "\n" ▸ closed (trim_last (p ∷ ps))
unfolding trim_last closed
closed-trim_last-lf p ps = rw (cons-append "\n" "" (closed (trim_last (p ∷ ps))), nil-append) refl

closed-trim_last : (s : String) → closed (trim_last (split 10 s)) ≡ terminated s
unfolding terminated
closed-trim_last empty = unfold split in unfold trim_last in unfold closed in refl
closed-trim_last (c ▸ empty) = elim (Bool-cases (is_char 10 c)) [
  | inl lf ↦
      rw (split-lf c "" lf, lf, Char-path c "\n" (is_char_sound 10 c lf))
        (unfold split in unfold trim_last in unfold closed in refl)
  | inr other ↦
      rw (split-other c "" other, other)
        (unfold split in
          unfold glue in
          unfold trim_last in unfold closed in (text_append-nil _ ∙ cons-append c "" "\n"))
]
closed-trim_last (c ▸ d ▸ s) =
    let (p, ps, e) = split-ne-nil 10 (d ▸ s) in
    let before : closed (trim_last (p ∷ ps)) ≡ terminated (d ▸ s) =
      rw (sym e) (closed-trim_last (d ▸ s)) in
    let full : join "\n" (p ∷ ps) ≢ "" =
      λ bare. cons-ne-nil d s (sym (join-split "\n" (d ▸ s)) ∙ ap (join "\n") e ∙ bare) in
    elim (Bool-cases (is_char 10 c)) [
      | inl lf ↦
          rw
            (
              split-lf c (d ▸ s) lf,
              e,
              closed-trim_last-lf,
              before,
              Char-path c "\n" (is_char_sound 10 c lf),
            )
            refl
      | inr other ↦
          rw (split-other c (d ▸ s) other, e, closed-trim_last-glue c p ps full, before) refl
    ]

-- The lines in front, and the new text alone.
join-take :
    (i : ℕ) (ps : List String) (s : String)
    → i < length ps
    → join "\n" (take i ps ++ split 10 s) ≡ concat (take i (ended ps)) <> s
join-take i ps s h =
    let (p, qs, e) = split-ne-nil 10 s in
    let whole : join "\n" (p ∷ qs) ≡ s = rw (sym e) (join-split "\n" s) in
    rw (e, join-closed, whole, closed-take i ps h) refl

fitted-cons : (q : String) (qs ps : List String) → fitted (q ∷ qs) ps ≡ trim_last ps
unfolding fitted
fitted-cons q qs ps = refl

join-spliced :
    (ps : List String) (i f : ℕ) (novo : String)
    → Unended ps
    → i ≤ f
    → f < length (ended ps)
    → join "\n" (take i ps ++ fitted (drop (suc f) ps) (split 10 novo) ++ drop (suc f) ps)
      ≡ concat (take i (ended ps))
        <> ((if ends_lf (line (suc f) (ended ps)) then terminated novo else novo)
            <> concat (drop (suc f) (ended ps)))
join-spliced ps i f novo u le h =
    let room : i < length ps = omega (arith, length-ended ps) in
    elim (rest_below f ps u h) [
      | inl (below, bare) ↦
          rw (drop-ended, below, bare)
            (unfold fitted in
              unfold ended in
              unfold concat in rw (append-nil, text_append-nil) (join-take i ps novo room))
      | inr (q, qs, below, shut) ↦
          rw (drop-ended, below, shut, concat-ended, sym (closed-take i ps room))
            (rw (fitted-cons, join-closed, closed-append, closed-trim_last, text_append_assoc) refl)
    ]

substituir_linhas-accepts :
    (conteudo : String) (i f : ℕ) (novo : String)
    → i ≤ f
    → f < length (split 10 conteudo)
    → substituir_linhas conteudo (suc i) (suc f) novo
      ≡ some (
          join "\n" (
            take i (split 10 conteudo)
            ++ fitted (drop (suc f) (split 10 conteudo)) (split 10 novo)
            ++ drop (suc f) (split 10 conteudo)))
unfolding substituir_linhas
substituir_linhas-accepts conteudo i f novo le room =
    let guard : (ltb (suc i) 1 || ltb (length (split 10 conteudo)) (suc f) || ltb (suc f) (suc i))
        ≡ false =
      ground arith in
    let from_one : suc i - 1 ≡ i = omega arith in rw (guard, from_one) refl

-- Where the text has no break but line feeds, `_substituir_linhas` replaces exactly the lines that
-- `splitlines` counts, and accepts every range of them.
pub substituir_linhas-splice :
    (conteudo : String) (inicio fim : ℕ) (novo : String)
    → plain conteudo ≡ true
    → 1 ≤ inicio
    → inicio ≤ fim
    → fim ≤ length (split_lines conteudo)
    → substituir_linhas conteudo inicio fim novo ≡ some (splice conteudo inicio fim novo)
unfolding splice
substituir_linhas-splice conteudo zero fim novo h a b c = elim a [ ]
substituir_linhas-splice conteudo (suc i) zero novo h a b c = elim b [ ]
substituir_linhas-splice conteudo (suc i) (suc f) novo h a b c =
    let parts = split 10 conteudo in
    let lines : split_lines conteudo ≡ ended parts = split_lines-ended conteudo h in
    let room : f < length (ended parts) = subst (λ ls. f < length ls) lines c in
    let from_one : suc i - 1 ≡ i = omega arith in
    let spliced = join-spliced parts i f novo (split-Unended conteudo) (omega arith) room in
    substituir_linhas-accepts conteudo i f novo (omega arith) (omega (arith, length-ended parts))
    ∙ rw (splice, from_one, lines) (ap some spliced)
