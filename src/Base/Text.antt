-- ===== src/Base/Text.antt =====
-- The operations of Python's `str` that the program calls, over the native text.
use Prim.Native.Char.{Char, code}
use Prim.Native.String.{String, [], ◌∷◌}
use Prim.Native.Nat.{ℕ, zero, suc, ◌≤◌}
use mathlib.Core.Path.{◌≡◌, refl}
use mathlib.Core.Bool.{Bool, true, false, ◌&&◌, ◌||◌}
use text.Mathlib.Text.{◌==◌ as str_eq}
use native.Mathlib.Omega.{arith}
use mathlib.Core.Logic.{◌⊎◌, inl, inr}
use eyle.Base.Tests.{Bool-cases, leb, ◌==◌, if◌then◌else◌}

-- `str.isspace` of one character.
unfoldable pub is_space : Char → Bool
is_space ch =
    let c = code ch in
    (leb 9 c && leb c 13)
    || (leb 28 c && leb c 32)
    || c == 0x85
    || c == 0xa0
    || c == 0x1680
    || (leb 0x2000 c && leb c 0x200a)
    || (leb 0x2028 c && leb c 0x2029)
    || c == 0x202f
    || c == 0x205f
    || c == 0x3000

unfoldable pub lstrip : String → String
lstrip [] = ""
lstrip (c ∷ s) = elim (is_space c) [ true ↦ lstrip s | false ↦ c ∷ s ]

unfoldable pub rstrip : String → String
rstrip [] = ""
rstrip (c ∷ s) = let rest = rstrip s in if is_space c && str_eq rest "" then "" else c ∷ rest

-- `s.strip()`.
unfoldable pub strip : String → String
unfolding is_space lstrip rstrip
strip s = rstrip (lstrip s)

-- `s[:n]`.
unfoldable pub crop : ℕ → String → String
crop zero s = ""
crop (suc n) [] = ""
crop (suc n) (c ∷ s) = c ∷ crop n s

-- `len(s)`.
unfoldable pub size : String → ℕ
size [] = 0
size (c ∷ s) = suc (size s)

pub size-crop : (n : ℕ) (s : String) → size (crop n s) ≤ n
unfolding size crop
size-crop zero s = omega arith
size-crop (suc n) [] = omega arith
size-crop (suc n) (c ∷ s) = omega (arith, size-crop n s)

rstrip_idem : (s : String) → rstrip (rstrip s) ≡ rstrip s
unfolding rstrip
rstrip_idem [] = refl
rstrip_idem (c ∷ s) = elim (Bool-cases (is_space c && str_eq (rstrip s) "")) [
  | inl gone ↦ rw gone refl
  | inr kept ↦ rw (kept, rstrip_idem s, kept) refl
]

rstrip-solid : (c : Char) (s : String) → is_space c ≡ false → rstrip (c ∷ s) ≡ c ∷ rstrip s
unfolding rstrip
rstrip-solid c s h = rw h refl

lstrip-space : (c : Char) (s : String) → is_space c ≡ true → lstrip (c ∷ s) ≡ lstrip s
unfolding lstrip
lstrip-space c s h = rw (h, lstrip) refl

lstrip-solid : (c : Char) (s : String) → is_space c ≡ false → lstrip (c ∷ s) ≡ c ∷ s
unfolding lstrip
lstrip-solid c s h = rw (h, lstrip) refl

lstrip-cases :
    (s : String)
    → (lstrip s ≡ "") ⊎ ((c : Char) × (t : String) × (lstrip s ≡ c ∷ t) × (is_space c ≡ false))
unfolding lstrip
lstrip-cases [] = inl refl
lstrip-cases (c ∷ s) = elim (Bool-cases (is_space c)) [
  | inl space ↦ rw (lstrip-space c s space) (lstrip-cases s)
  | inr solid ↦ inr (c, s, lstrip-solid c s solid, solid)
]

pub strip_idem : (s : String) → strip (strip s) ≡ strip s
unfolding strip
strip_idem s = elim (lstrip-cases s) [
  | inl empty ↦ rw empty refl
  | inr (c, t, is, solid) ↦
      rw
        (
          is,
          rstrip-solid c t solid,
          lstrip-solid c (rstrip t) solid,
          rstrip-solid c (rstrip t) solid,
          rstrip_idem t,
        )
        refl
]

strip_both_ends : strip "  job \n" ≡ "job"
unfolding strip
strip_both_ends = refl
