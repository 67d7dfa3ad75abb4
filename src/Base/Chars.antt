-- ===== src/Base/Chars.antt =====
-- Characters of Python's `str`, and the operations that split, join and rewrite a text by them. `lower`
-- maps the ASCII letters only.
use eyle.Base.{inl, str_eq, inr, ◌||◌, sym}
use Prim.Native.Char.{Char, code}
use Prim.Native.String.{String, [] as empty, ◌∷◌ as ◌▸◌, ◌++◌ as ◌<>◌}
use Prim.Native.Nat.{ℕ}
use mathlib.Core.Path.{◌≡◌, refl}
use mathlib.Core.Bool.{Bool, true}
use mathlib.Core.List.{List, [], ◌∷◌}
use text.Mathlib.TextEquality.{Char-path}
use text.Mathlib.TextLemmas.{cons-append, nil-append}
use native.Mathlib.Omega.{arith}
use eyle.Base.Tests.{◌==◌, if◌then◌else◌, Bool-cases}

-- The character has this number.
unfoldable pub is_char : ℕ → Char → Bool
is_char n c = code c == n

-- `s.replace(old, new)` for two characters.
unfoldable pub replace_char : ℕ → Char → String → String
replace_char n d empty = ""
replace_char n d (c ▸ s) = (if is_char n c then d else c) ▸ replace_char n d s

-- The letter of the second text at the place of `c` in the first, or `c` itself.
unfoldable pub translate_char : String → String → Char → Char
unfolding is_char
translate_char (u ▸ us) (l ▸ ls) c =
    let rest = translate_char us ls c in if is_char (code u) c then l else rest
translate_char _ _ c = c

-- `s.lower()`
unfoldable pub lower : String → String
unfolding translate_char
lower empty = ""
lower (c ▸ s) = translate_char "ABCDEFGHIJKLMNOPQRSTUVWXYZ" "abcdefghijklmnopqrstuvwxyz" c ▸ lower s

-- `s.endswith(t)`
unfoldable pub ends_with : String → String → Bool
ends_with empty t = str_eq t ""
ends_with (c ▸ s) t = str_eq t (c ▸ s) || ends_with s t

-- The character in front of the first part.
unfoldable pub glue : Char → List String → List String
glue c [] = (c ▸ "") ∷ []
glue c (p ∷ ps) = (c ▸ p) ∷ ps

-- `s.split(sep)` for a separator of one character.
unfoldable pub split : ℕ → String → List String
unfolding is_char glue
split n empty = "" ∷ []
split n (c ▸ s) = let rest = split n s in if is_char n c then "" ∷ rest else glue c rest

-- `sep.join(parts)`
unfoldable pub join : Char → List String → String
join d [] = ""
join d (p ∷ []) = p
join d (p ∷ q ∷ ps) = p <> (d ▸ join d (q ∷ ps))

-- `"".join(parts)`
unfoldable pub concat : List String → String
concat [] = ""
concat (p ∷ ps) = p <> concat ps

split_run : split b'/' "a/b//" ≡ "a" ∷ "b" ∷ "" ∷ "" ∷ []
unfolding split
split_run = refl

lower_run : lower "Ab/.ENV_é" ≡ "ab/.env_é"
unfolding lower
lower_run = refl

join_run : join "/" ("a" ∷ "b" ∷ "" ∷ []) ≡ "a/b/"
unfolding join
join_run = refl

pub is_char_sound : (n : ℕ) (c : Char) → is_char n c ≡ true → code c ≡ n
unfolding is_char
is_char_sound n c h = ground arith

pub split-ne-nil : (n : ℕ) (s : String) → (p : String) × (ps : List String) × (split n s ≡ p ∷ ps)
unfolding split
split-ne-nil n empty = ("", [], refl)
split-ne-nil n (c ▸ s) = elim (Bool-cases (is_char n c)) [
  | inl sep ↦ ("", split n s, rw (sep) refl)
  | inr other ↦ let (p, ps, e) = split-ne-nil n s in (c ▸ p, ps, rw (other, e) refl)
]

join-glue :
    (d c : Char) (p : String) (ps : List String) → join d (glue c (p ∷ ps)) ≡ c ▸ join d (p ∷ ps)
unfolding join glue
join-glue d c p [] = refl
join-glue d c p (q ∷ ps) = cons-append c p _

-- Joining the parts of a split gives the text back.
pub join-split : (d : Char) (s : String) → join d (split (code d) s) ≡ s
unfolding split join
join-split d empty = refl
join-split d (c ▸ s) = elim (Bool-cases (is_char (code d) c)) [
  | inl sep ↦
      let (p, ps, e) = split-ne-nil (code d) s in
      let rest : join d (p ∷ ps) ≡ s = rw (sym e) (join-split d s) in
      rw (sep, e, Char-path c d (is_char_sound (code d) c sep), nil-append, rest) refl
  | inr other ↦
      let (p, ps, e) = split-ne-nil (code d) s in
      let rest : join d (p ∷ ps) ≡ s = rw (sym e) (join-split d s) in
      rw (other, e, join-glue, rest) refl
]
