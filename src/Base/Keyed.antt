-- ===== src/Base/Keyed.antt =====
-- Rows that are found by a key, after a statement that reads or writes the row of one key.
use Prim.Native.String.{String}
use mathlib.Core.Path.{◌≡◌, refl}
use mathlib.Core.Logic.{inl, inr}
use mathlib.Core.Bool.{Bool, true, false}
use mathlib.Core.Option.{none, some}
use mathlib.Core.List.{List, [], ◌∷◌, ◌++◌}
use native.Mathlib.Omega.{arith}
use text.Mathlib.Text.{◌==◌ as str_eq}
use text.Mathlib.TextEquality.{eq_iff}
use text.Mathlib.TextPositions.{eq_refl}
use eyle.Base.Tests.{Bool-cases}
use eyle.Base.Table.{find, update, find-append}

module _ {A : Type 0} (k : A → String) where
  abbrev pub keyed : String → A → Bool
  keyed id r = str_eq (k r) id

  -- The function keeps the key of the rows that it is for.
  abbrev pub Keeps : String → (A → A) → Type 0
  Keeps id f = (r : A) → k r ≡ id → k (f r) ≡ id

  pub keyed_sound : (id : String) (r : A) → keyed id r ≡ true → k r ≡ id
  keyed_sound id r h = (eq_iff (k r) id).0 h

  pub find_here :
      (id : String) (f : A → A) (t : List A) (r : A)
      → Keeps id f
      → find (keyed id) t ≡ some r
      → find (keyed id) (update (keyed id) f t) ≡ some (f r)
  find_here id f [] r keeps h = cc
  find_here id f (s ∷ t) r keeps h = elim (Bool-cases (keyed id s)) [
    | inl e ↦
        let kept : keyed id (f s) ≡ true = rw (keeps s (keyed_sound id s e)) (eq_refl id) in
        let same : s ≡ r = ground arith in rw (e, kept, same) refl
    | inr e ↦ rw (e, e) (find_here id f t r keeps (rw e at h))
  ]

  pub find_elsewhere :
      (id i : String) (f : A → A) (t : List A)
      → Keeps id f
      → str_eq id i ≡ false
      → find (keyed i) (update (keyed id) f t) ≡ find (keyed i) t
  find_elsewhere id i f [] keeps h = refl
  find_elsewhere id i f (s ∷ t) keeps h = elim (Bool-cases (keyed id s)) [
    | inl e ↦
        let was : keyed i s ≡ false = rw (keyed_sound id s e) h in
        let now : keyed i (f s) ≡ false = rw (keeps s (keyed_sound id s e)) h in
        rw (e, now, was) (find_elsewhere id i f t keeps h)
    | inr e ↦ ground (arith, e, find_elsewhere id i f t keeps h)
  ]

  pub find_new :
      (id : String) (t : List A) (r : A)
      → k r ≡ id
      → find (keyed id) t ≡ none
      → find (keyed id) (t ++ r ∷ []) ≡ some r
  find_new id t r e h =
      let same : keyed id r ≡ true = rw e (eq_refl id) in
      rw (find-append (keyed id) t (r ∷ []), h, same) refl

  pub find_others :
      (id i : String) (t : List A) (r : A)
      → k r ≡ id
      → str_eq id i ≡ false
      → find (keyed i) (t ++ r ∷ []) ≡ find (keyed i) t
  find_others id i [] r e h = let other : keyed i r ≡ false = rw e h in rw other refl
  find_others id i (s ∷ t) r e h = ground (arith, find_others id i t r e h)
