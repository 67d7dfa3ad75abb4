-- ===== src/Workspace/Parts.antt =====
-- eyle/providers/standard/text_hash.py and editing.py: the lines that `splitlines` counts, against the
-- parts between line feeds.
use Prim.Native.Char.{Char}
use Prim.Native.String.{String, [] as empty, ◌∷◌ as ◌▸◌, ◌++◌ as ◌<>◌}
use text.Mathlib.TextEquality.{Char-path}
use text.Mathlib.TextLemmas.{
  nil-append, append-nil as text_append-nil, append_assoc as text_append_assoc,
}
use text.Mathlib.TextLemmas.{cons-append}
use eyle.Base.Chars.{is_char, split, glue, split-ne-nil, is_char_sound, concat, join}
use eyle.Workspace.Ranges.{is_break, split_lines}
use eyle.Base.{
  List, [], ◌∷◌, ◌≡◌, refl, Bool, Bool-cases, false, true, arith, not, inl, ◌||◌, inr, ◌&&◌, length,
  ℕ, ◌++◌, drop, ◌<◌, ◌≤◌, suc, take, zero, sym, ap, ◌∙◌,
}

-- The only breaks of the text are line feeds.
unfoldable pub plain : String → Bool
plain empty = true
plain (c ▸ s) = (not (is_break c) || is_char 10 c) && plain s

-- Lines with their ends, of the parts between line feeds.
unfoldable pub ended : List String → List String
ended [] = []
ended (empty ∷ []) = []
ended ((c ▸ p) ∷ []) = (c ▸ p) ∷ []
ended (p ∷ q ∷ ps) = (p <> "\n") ∷ ended (q ∷ ps)

unfoldable pub closed : List String → String
closed [] = ""
closed (p ∷ ps) = (p <> "\n") <> closed ps

break_at_lf : (c : Char) → is_char 10 c ≡ true → (is_break c ≡ true) × (is_char 13 c ≡ false)
unfolding is_break is_char
break_at_lf c h = ground arith

split_lines-lf :
    (c : Char) (s : String) → is_char 10 c ≡ true → split_lines (c ▸ s) ≡ "\n" ∷ split_lines s
unfolding split_lines
split_lines-lf c s h =
    rw ((break_at_lf c h).0, (break_at_lf c h).1, Char-path c "\n" (is_char_sound 10 c h)) refl

split_lines-other :
    (c : Char) (s : String) → is_break c ≡ false → split_lines (c ▸ s) ≡ glue c (split_lines s)
unfolding split_lines
split_lines-other c s h = rw h refl

plain_both :
    (c : Char) (s : String)
    → plain (c ▸ s) ≡ true
    → (is_char 10 c ≡ false → is_break c ≡ false) × (plain s ≡ true)
unfolding plain
plain_both c s h = (λ other. ground (arith), ground arith)

glue-ended :
    (c : Char) (p : String) (ps : List String) → ended (glue c (p ∷ ps)) ≡ glue c (ended (p ∷ ps))
unfolding ended glue
glue-ended c empty [] = refl
glue-ended c (d ▸ p) [] = refl
glue-ended c p (q ∷ ps) = rw (cons-append c p "\n") refl

pub split-lf : (c : Char) (s : String) → is_char 10 c ≡ true → split 10 (c ▸ s) ≡ "" ∷ split 10 s
unfolding split
split-lf c s h = rw h refl

pub split-other :
    (c : Char) (s : String) → is_char 10 c ≡ false → split 10 (c ▸ s) ≡ glue c (split 10 s)
unfolding split
split-other c s h = rw h refl

pub split_lines-ended : (s : String) → plain s ≡ true → split_lines s ≡ ended (split 10 s)
split_lines-ended empty h = unfold split_lines in unfold split in unfold ended in refl
split_lines-ended (c ▸ s) h =
    let (p, ps, e) = split-ne-nil 10 s in
    let (this, rest) = plain_both c s h in
    elim (Bool-cases (is_char 10 c)) [
      | inl lf ↦
          rw (split_lines-lf c s lf, split-lf c s lf, split_lines-ended s rest, e)
            (unfold ended in refl)
      | inr other ↦
          rw
            (
              split_lines-other c s (this other),
              split-other c s other,
              split_lines-ended s rest,
              e,
              glue-ended,
            )
            refl
    ]

pub closed-append : (ps qs : List String) → closed (ps ++ qs) ≡ closed ps <> closed qs
unfolding closed
closed-append [] qs = sym (nil-append _)
closed-append (p ∷ ps) qs =
    rw (closed-append ps qs) (sym (text_append_assoc (p <> "\n") (closed ps) (closed qs)))

pub line_then : (p s : String) → (p <> "\n") <> s ≡ p <> ("\n" ▸ s)
line_then p s = rw (text_append_assoc, cons-append "\n" "" s, nil-append s) refl

pub join-closed :
    (ps : List String) (q : String) (qs : List String)
    → join "\n" (ps ++ q ∷ qs) ≡ closed ps <> join "\n" (q ∷ qs)
unfolding closed join
join-closed [] q qs = sym (nil-append _)
join-closed (p ∷ []) q qs = rw (text_append-nil, line_then) refl
join-closed (p ∷ r ∷ ps) q qs =
    ap (λ t. p <> ("\n" ▸ t)) (join-closed (r ∷ ps) q qs)
    ∙ sym (line_then p _)
    ∙ sym (text_append_assoc (p <> "\n") (closed (r ∷ ps)) (join "\n" (q ∷ qs)))

pub concat-ended : (p : String) (ps : List String) → concat (ended (p ∷ ps)) ≡ join "\n" (p ∷ ps)
unfolding concat ended join
concat-ended empty [] = refl
concat-ended (c ▸ p) [] = text_append-nil _
concat-ended p (q ∷ ps) = rw (concat-ended q ps, line_then) refl

drop-nil : (n : ℕ) → drop {A = String} n [] ≡ []
drop-nil zero = refl
drop-nil (suc n) = refl

pub drop-ended : (n : ℕ) (ps : List String) → drop n (ended ps) ≡ ended (drop n ps)
unfolding ended
drop-ended zero ps = refl
drop-ended (suc n) [] = refl
drop-ended (suc n) (empty ∷ []) = rw (drop-nil n) refl
drop-ended (suc n) ((c ▸ p) ∷ []) = rw (drop-nil n) refl
drop-ended (suc n) (p ∷ q ∷ ps) = drop-ended n (q ∷ ps)

pub length-ended : (ps : List String) → length (ended ps) ≤ length ps
unfolding ended
length-ended [] = omega arith
length-ended (empty ∷ []) = omega arith
length-ended ((c ▸ p) ∷ []) = omega arith
length-ended (p ∷ q ∷ ps) = omega (arith, length-ended (q ∷ ps))

pub closed-take :
    (n : ℕ) (ps : List String) → n < length ps → closed (take n ps) ≡ concat (take n (ended ps))
unfolding closed concat ended
closed-take zero ps h = refl
closed-take (suc n) [] h = let no : ⊥ = omega arith in absurd no
closed-take (suc n) (p ∷ []) h = let no : ⊥ = omega arith in absurd no
closed-take (suc n) (p ∷ q ∷ ps) h = rw (closed-take n (q ∷ ps) (omega arith)) refl
