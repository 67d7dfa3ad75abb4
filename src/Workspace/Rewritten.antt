-- ===== src/Workspace/Rewritten.antt =====
-- eyle/providers/standard/text_hash.py and editing.py: a range that is written back as it was read.
use Prim.Native.Char.{Char}
use Prim.Native.String.{String, [] as empty, ◌∷◌ as ◌▸◌, ◌++◌ as ◌<>◌}
use mathlib.Core.Bool.{false≢true}
use text.Mathlib.TextLemmas.{cons-append, nil-append}
use text.Mathlib.TextLemmas.{append-nil as text_append-nil, append_assoc as text_append_assoc}
use eyle.Base.Chars.{is_char, concat, split-ne-nil, join-split}
use eyle.Workspace.Newlines.{normalizar_quebras-canonical, no_return}
use eyle.Workspace.Ranges.{
  is_break, split_lines, ends_lf, extrair_faixa, between, substituir_linhas,
}
use eyle.Workspace.Parts.{plain, split_lines-ended, concat-ended}
use eyle.Workspace.Splice.{line, terminated, splice, substituir_linhas-splice}
use eyle.Base.{
  ℕ, suc, zero, List, [], ◌∷◌, ◌≡◌, refl, drop, true, ◌++◌, arith, sym, take, ◌+◌, some, ◌≤◌,
  length, ◌-◌, subst, take-append-drop, unguarded, if◌then◌else◌, ltb, Bool-cases, ◌||◌, false, inl,
  inr, ◌∙◌, ap,
}

ends_lf-cons : (c : Char) (s : String) → ends_lf s ≡ true → ends_lf (c ▸ s) ≡ true
unfolding ends_lf
ends_lf-cons c empty h = absurd (false≢true h)
ends_lf-cons c (d ▸ s) h = h

ends_lf-append : (s t : String) → ends_lf t ≡ true → ends_lf (s <> t) ≡ true
ends_lf-append empty t h = rw (nil-append t) h
ends_lf-append (c ▸ s) t h = rw (cons-append c s t) (ends_lf-cons c (s <> t) (ends_lf-append s t h))

terminated-own : (s : String) → ends_lf s ≡ true → terminated s ≡ s
unfolding ends_lf terminated
terminated-own empty h = refl
terminated-own (c ▸ empty) h = rw h refl
terminated-own (c ▸ d ▸ s) h = rw (terminated-own (d ▸ s) h) refl

concat-append : (ps qs : List String) → concat (ps ++ qs) ≡ concat ps <> concat qs
unfolding concat
concat-append [] qs = sym (nil-append _)
concat-append (p ∷ ps) qs =
    rw (concat-append ps qs) (sym (text_append_assoc p (concat ps) (concat qs)))

-- A block of lines ends as its last line does.
ends_lf-concat :
    (n : ℕ) (ps : List String)
    → ends_lf (line (suc n) ps) ≡ true
    → ends_lf (concat (take (suc n) ps)) ≡ true
unfolding line concat
ends_lf-concat n [] h = h
ends_lf-concat zero (p ∷ ps) h = rw (text_append-nil p) h
ends_lf-concat (suc n) (p ∷ ps) h = ends_lf-append p _ (ends_lf-concat n ps h)

line-nil : (n : ℕ) → line n [] ≡ ""
unfolding line
line-nil n = refl

line-drop : (i n m : ℕ) (ps : List String) → m ≡ i + n → line (suc n) (drop i ps) ≡ line (suc m) ps
unfolding line
line-drop zero n m ps e = let same : m ≡ n = omega arith in rw same refl
line-drop (suc i) n m [] e = refl
line-drop (suc i) n zero (p ∷ ps) e = let no : ⊥ = omega arith in absurd no
line-drop (suc i) n (suc m) (p ∷ ps) e = line-drop i n m ps (omega arith)

drop-drop : (i n m : ℕ) (ps : List String) → m ≡ i + n → drop n (drop i ps) ≡ drop m ps
drop-drop zero n m ps e = let same : m ≡ n = omega arith in rw same refl
drop-drop (suc i) n zero ps e = let no : ⊥ = omega arith in absurd no
drop-drop (suc i) zero (suc m) [] e = refl
drop-drop (suc i) (suc n) (suc m) [] e = refl
drop-drop (suc i) n (suc m) (p ∷ ps) e = drop-drop i n m ps (omega arith)

concat-split_lines : (s : String) → plain s ≡ true → concat (split_lines s) ≡ s
concat-split_lines s h =
    let (p, ps, e) = split-ne-nil 10 s in
    rw (split_lines-ended s h, e, concat-ended p ps, sym e) (join-split "\n" s)

pub plain-no_return : (s : String) → plain s ≡ true → no_return s ≡ true
unfolding plain no_return is_break is_char
plain-no_return empty h = refl
plain-no_return (c ▸ s) h = ground (arith, plain-no_return s)

-- The range that `extrair_faixa` reads is the lines from `inicio` to `fim`, which are there.
pub extrair_faixa-some :
    (conteudo : String) (inicio fim : ℕ) (faixa : String)
    → plain conteudo ≡ true
    → extrair_faixa conteudo inicio fim ≡ some faixa
    → (1 ≤ inicio)
      × (inicio ≤ fim)
      × (fim ≤ length (split_lines conteudo))
      × (concat (between inicio fim (split_lines conteudo)) ≡ faixa)
unfolding extrair_faixa
extrair_faixa-some conteudo inicio fim faixa h e =
    let canonical = normalizar_quebras-canonical conteudo (plain-no_return conteudo h) in
    let (guard, is) = unguarded _ _ faixa e in
    let n = length (split_lines conteudo) in
    let open_guard : (ltb inicio 1 || ltb fim inicio || ltb n fim) ≡ false =
      subst (λ s. (ltb inicio 1 || ltb fim inicio || ltb (length (split_lines s)) fim) ≡ false)
        canonical guard in
    (
      ground arith,
      ground arith,
      ground arith,
      subst (λ s. concat (between inicio fim (split_lines s)) ≡ faixa) canonical is,
    )

-- The lines of a range stand between those in front and those below.
pub concat-between :
    (i f : ℕ) (ps : List String)
    → i ≤ f
    → concat (take i ps) <> (concat (take (suc (f - i)) (drop i ps)) <> concat (drop (suc f) ps))
      ≡ concat ps
concat-between i f ps le =
    let n = suc (f - i) in
    rw
      (
        sym (drop-drop i n (suc f) ps (omega arith)),
        sym (concat-append (take n (drop i ps)) (drop n (drop i ps))),
        take-append-drop,
        sym (concat-append (take i ps) (drop i ps)),
        take-append-drop,
      )
      refl

-- Writing a range back as it was read leaves the text as it was.
pub substituir_linhas-extrair_faixa :
    (conteudo : String) (inicio fim : ℕ) (faixa : String)
    → plain conteudo ≡ true
    → extrair_faixa conteudo inicio fim ≡ some faixa
    → substituir_linhas conteudo inicio fim faixa ≡ some conteudo
unfolding splice
substituir_linhas-extrair_faixa conteudo zero fim faixa h e =
    let no : ⊥ = omega (arith, (extrair_faixa-some conteudo 0 fim faixa h e).0) in absurd no
substituir_linhas-extrair_faixa conteudo (suc i) zero faixa h e =
    let no : ⊥ = omega (arith, (extrair_faixa-some conteudo (suc i) 0 faixa h e).1) in absurd no
substituir_linhas-extrair_faixa conteudo (suc i) (suc f) faixa h e =
    let linhas = split_lines conteudo in
    let (from, le, room, is) = extrair_faixa-some conteudo (suc i) (suc f) faixa h e in
    let block = take (suc (f - i)) (drop i linhas) in
    let from_one : suc i - 1 ≡ i = omega arith in
    let size_of : suc f - i ≡ suc (f - i) = omega arith in
    let read : concat block ≡ faixa =
      let r : concat (take (suc f - (suc i - 1)) (drop (suc i - 1) linhas)) ≡ faixa =
        unfold between in is in
      subst (λ n. concat (take n (drop i linhas)) ≡ faixa) size_of
        (subst (λ n. concat (take (suc f - n) (drop n linhas)) ≡ faixa) from_one r) in
    let fits : (if ends_lf (line (suc f) linhas) then terminated faixa else faixa) ≡ faixa =
      elim (Bool-cases (ends_lf (line (suc f) linhas))) [
        | inl shut ↦
            let last : ends_lf (line (suc (f - i)) (drop i linhas)) ≡ true =
              rw (line-drop i (f - i) f linhas (omega arith)) shut in
            rw shut
              (terminated-own faixa (rw (sym read) (ends_lf-concat (f - i) (drop i linhas) last)))
        | inr bare ↦ rw bare refl
      ] in
    substituir_linhas-splice conteudo (suc i) (suc f) faixa h (omega arith) (omega arith) room
    ∙ ap some (
        rw (from_one, fits, sym read, concat-between i f linhas (omega arith))
          (concat-split_lines conteudo h))
