-- ===== src/Workspace/Newlines.antt =====
-- eyle/providers/standard/text_hash.py: the canonical line breaks of a text. The same translation is
-- what `open(path, "r").read()` does to the text of a file.
use Prim.Native.String.{String, [] as empty, ◌∷◌ as ◌▸◌}
use mathlib.Core.Path.{◌≡◌, refl}
use mathlib.Core.Bool.{Bool, true, false, ◌&&◌}
use mathlib.Core.Logic.{inl, inr}
use native.Mathlib.Omega.{arith}
use eyle.Base.{if◌then◌else◌, Bool-cases, not}
use eyle.Base.Chars.{is_char, replace_char}

-- The text begins with a line feed.
unfoldable pub starts_lf : String → Bool
starts_lf empty = false
starts_lf (c ▸ s) = is_char 10 c

-- `s.replace("\r\n", "\n")`
unfoldable pub replace_crlf : String → String
replace_crlf empty = ""
replace_crlf (c ▸ s) =
    let rest = replace_crlf s in if is_char 13 c && starts_lf s then rest else c ▸ rest

unfoldable pub normalizar_quebras : String → String
unfolding replace_crlf starts_lf is_char
normalizar_quebras s = replace_char 13 "\n" (replace_crlf s)

normalizar_quebras_run : normalizar_quebras "a\r\nb\rc\r\r\n" ≡ "a\nb\nc\n\n"
unfolding normalizar_quebras replace_char
normalizar_quebras_run = refl

-- The text has no carriage return.
unfoldable pub no_return : String → Bool
no_return empty = true
no_return (c ▸ s) = not (is_char 13 c) && no_return s

no_return-replace_char : (s : String) → no_return (replace_char 13 "\n" s) ≡ true
unfolding no_return replace_char
no_return-replace_char empty = refl
no_return-replace_char (c ▸ s) = elim (Bool-cases (is_char 13 c)) [
  | inl return ↦ rw (return, no_return-replace_char s) (unfold is_char in refl)
  | inr other ↦ rw (other, other, no_return-replace_char s) refl
]

pub no_return-normalizar_quebras : (s : String) → no_return (normalizar_quebras s) ≡ true
unfolding normalizar_quebras
no_return-normalizar_quebras s = no_return-replace_char (replace_crlf s)

-- A text without carriage returns is canonical.
pub normalizar_quebras-canonical : (s : String) → no_return s ≡ true → normalizar_quebras s ≡ s
unfolding normalizar_quebras no_return replace_char
normalizar_quebras-canonical empty h = refl
normalizar_quebras-canonical (c ▸ s) h = ground (arith, normalizar_quebras-canonical s)

pub normalizar_quebras_idem :
    (s : String) → normalizar_quebras (normalizar_quebras s) ≡ normalizar_quebras s
normalizar_quebras_idem s = normalizar_quebras-canonical _ (no_return-normalizar_quebras s)
