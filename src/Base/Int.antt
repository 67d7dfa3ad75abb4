-- ===== src/Base/Int.antt =====
-- Python's `int` of a value that came as JSON. Digits are those of ASCII.
use Prim.Native.Char.{Char, code}
use Prim.Native.String.{String, [] as empty, ◌∷◌ as ◌▸◌}
use Prim.Native.Nat.{ℕ, zero, suc, ◌+◌, ◌-◌, ◌*◌}
use mathlib.Core.Path.{◌≡◌, refl}
use mathlib.Core.Bool.{Bool, true, false, ◌&&◌}
use mathlib.Core.Option
use mathlib.Core.Option.{Option, none, some}
use eyle.Base.Tests.{leb, ◌==◌, if◌then◌else◌}
use eyle.Base.Text.{strip}

-- `negsuc n` is -(n + 1).
pub data ℤ : Type 0 where
  pos negsuc : ℕ → ℤ

-- `-n`
unfoldable pub negated : ℕ → ℤ
negated zero = pos 0
negated (suc n) = negsuc n

unfoldable pub is_digit : Char → Bool
is_digit c = leb b'0' (code c) && leb (code c) b'9'

-- The number of a text of digits; a single underscore may stand between two digits.
unfoldable pub digits : ℕ → Bool → String → Option ℕ
unfolding is_digit
digits n after_digit empty = if after_digit then some n else none
digits n after_digit (c ▸ s) = elim (is_digit c) [
  | true ↦ digits (n * 10 + (code c - b'0')) true s
  | false ↦ elim (code c == b'_' && after_digit) [ true ↦ digits n false s | false ↦ none ]
]

unfoldable pub signed : String → Option ℤ
unfolding digits negated
signed empty = none
signed (c ▸ s) =
    if code c == b'-'
    then Option.map negated (digits 0 false s)
    else Option.map pos (if code c == b'+' then digits 0 false s else digits 0 false (c ▸ s))

-- `int(s)` of a text.
unfoldable pub int_text : String → Option ℤ
unfolding signed
int_text s = signed (strip s)

int_text_run : int_text " -1_0 " ≡ some (negsuc 9)
unfolding int_text strip
int_text_run = refl
