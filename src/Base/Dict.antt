-- ===== src/Base/Dict.antt =====
-- A Python `dict` and a `set` with text keys: association lists in the order of insertion.
use Prim.Native.String.{String}
use mathlib.Core.Path.{◌≡◌, refl, sym}
use mathlib.Core.Bool.{Bool, true, false, ◌||◌, ◌&&◌}
use mathlib.Core.Logic.{inl, inr}
use mathlib.Core.Option.{Option, none, some}
use mathlib.Core.List.{List, [], ◌∷◌, ◌++◌}
use native.Mathlib.Omega.{arith}
use text.Mathlib.Text.{◌==◌ as str_eq}
use text.Mathlib.TextEquality.{eq_iff}
use eyle.Base.Tests.{if◌then◌else◌, Bool-cases}

abbrev pub Dict {ℓ} : Type ℓ → Type ℓ
Dict V = List (String × V)

module _ {ℓ} {V : Type ℓ} where
  -- d.get(k)
  unfoldable pub get : String → Dict V → Option V
  get k [] = none
  get k ((j, v) ∷ d) = if str_eq j k then some v else get k d

  -- d[k] = v
  unfoldable pub enter : String → V → Dict V → Dict V
  enter k v [] = (k, v) ∷ []
  enter k v ((j, w) ∷ d) = if str_eq j k then (j, v) ∷ d else (j, w) ∷ enter k v d

  -- d.pop(k, None)
  unfoldable pub pop : String → Dict V → Dict V
  pop k [] = []
  pop k ((j, v) ∷ d) = if str_eq j k then pop k d else (j, v) ∷ pop k d

  -- d.values()
  unfoldable pub values : Dict V → List V
  values [] = []
  values ((j, v) ∷ d) = v ∷ values d

  pub get-pop :
      (j k : String) (d : Dict V) → get j (pop k d) ≡ (if str_eq k j then none else get j d)
  unfolding get pop
  get-pop j k [] = ground arith
  get-pop j k ((i, w) ∷ d) = ground (arith, eq_iff i k, eq_iff i j, eq_iff k j, get-pop j k d)

  pub get-enter :
      (j k : String) (v : V) (d : Dict V)
      → get j (enter k v d) ≡ (if str_eq k j then some v else get j d)
  unfolding get enter
  get-enter j k v [] = ground arith
  get-enter j k v ((i, w) ∷ d) =
      ground (arith, eq_iff i k, eq_iff i j, eq_iff k j, get-enter j k v d)

-- k in s
unfoldable pub member : String → List String → Bool
member k [] = false
member k (j ∷ s) = str_eq j k || member k s

-- s.include(k)
unfoldable pub include : String → List String → List String
unfolding member
include k s = if member k s then s else s ++ k ∷ []

member-append : (j : String) (s t : List String) → member j (s ++ t) ≡ (member j s || member j t)
unfolding member
member-append j [] t = refl
member-append j (k ∷ s) t = ground (arith, member-append j s t)

pub or-true : (b : Bool) → (b || true) ≡ true
or-true true = refl
or-true false = refl

pub and-false : (b : Bool) → (b && false) ≡ false
and-false true = refl
and-false false = refl

or-false : (b : Bool) → (b || false) ≡ b
or-false true = refl
or-false false = refl

pub member-include :
    (j k : String) (s : List String) → member j (include k s) ≡ (member j s || str_eq k j)
unfolding include
member-include j k s = elim (Bool-cases (member k s)) [
  | inl old ↦ elim (Bool-cases (str_eq k j)) [
    | inl same ↦
        let e : k ≡ j = ground (arith, eq_iff k j) in
        let there : member j s ≡ true = rw e at old in rw (old, there)
    | inr other ↦ rw (old, other) (sym (or-false (member j s)))
  ]
  | inr new ↦ rw new (rw member-append (unfold member in rw or-false))
]
