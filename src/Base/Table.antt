-- ===== src/Base/Table.antt =====
-- A table as the list of its rows, and the statements that the program runs on it.
use Prim.Native.Nat.{ℕ, suc, ◌+◌, ◌≤◌}
use mathlib.Core.Path.{◌≡◌, refl, ap, subst}
use mathlib.Core.Logic.{inl, inr}
use mathlib.Core.Bool.{Bool, true}
use mathlib.Core.Option
use mathlib.Core.Option.{Option, none, some}
use mathlib.Core.List.{List, [], ◌∷◌, ◌++◌, map}
use native.Mathlib.Omega.{arith}
use eyle.Base.Tests.{if◌then◌else◌, Bool-cases}
use eyle.Base.Lists.{length, All}

module _ {ℓ} {A : Type ℓ} where
  -- SELECT * FROM t WHERE p, in the order of the table.
  abbrev pub select : (A → Bool) → List A → List A
  select p [] = []
  select p (r ∷ t) = if p r then r ∷ select p t else select p t

  -- SELECT * FROM t WHERE p LIMIT 1.
  abbrev pub find : (A → Bool) → List A → Option A
  find p [] = none
  find p (r ∷ t) = if p r then some r else find p t

  -- UPDATE t SET f WHERE p.
  abbrev pub update : (A → Bool) → (A → A) → List A → List A
  update p f [] = []
  update p f (r ∷ t) = (if p r then f r else r) ∷ update p f t

  -- DELETE FROM t WHERE p.
  abbrev pub delete : (A → Bool) → List A → List A
  delete p [] = []
  delete p (r ∷ t) = if p r then delete p t else r ∷ delete p t

  -- SELECT COUNT(*) FROM t WHERE p, and the `rowcount` of an UPDATE or a DELETE.
  abbrev pub count : (A → Bool) → List A → ℕ
  count p [] = 0
  count p (r ∷ t) = (if p r then 1 else 0) + count p t

-- How one row fares in an UPDATE.
abbrev pub set_if {ℓ} : {A : Type ℓ} → (A → Bool) → (A → A) → A → A
set_if p f r = if p r then f r else r

module _ {ℓ κ} {A : Type ℓ} where
  set_if-keeps :
      (P : A → Type κ) (p : A → Bool) (f : A → A) (r : A)
      → (p r ≡ true → P r → P (f r))
      → P r
      → P (set_if p f r)
  set_if-keeps P p f r keeps h = elim (Bool-cases (p r)) [
    | inl e ↦ rw e (keeps e h)
    | inr e ↦ rw e h
  ]

module _ {ℓ} {A : Type ℓ} where
  -- An UPDATE that keeps the column which `q` reads commutes with the look-up by `q`.
  pub find-update :
      (q p : A → Bool) (f : A → A) (t : List A)
      → ((r : A) → q (f r) ≡ q r)
      → find q (update p f t) ≡ Option.map (set_if p f) (find q t)
  find-update q p f [] keeps = refl
  find-update q p f (r ∷ t) keeps = ground (arith, keeps r, find-update q p f t keeps)

  pub length-update : (p : A → Bool) (f : A → A) (t : List A) → length (update p f t) ≡ length t
  length-update p f [] = refl
  length-update p f (r ∷ t) = ap suc (length-update p f t)

  pub map-update {κ} :
      {B : Type κ} (k : A → B) (p : A → Bool) (f : A → A) (t : List A)
      → ((r : A) → k (f r) ≡ k r)
      → map k (update p f t) ≡ map k t
  map-update k p f [] keeps = refl
  map-update k p f (r ∷ t) keeps = ground (arith, keeps r, map-update k p f t keeps)

  pub All-update {κ} :
      (P : A → Type κ) (p : A → Bool) (f : A → A) (t : List A)
      → ((r : A) → p r ≡ true → P r → P (f r))
      → All P t
      → All P (update p f t)
  All-update P p f [] keeps h = tt
  All-update P p f (r ∷ t) keeps h =
      (set_if-keeps P p f r (keeps r) h.0, All-update P p f t keeps h.1)

  pub All-append {κ} : (P : A → Type κ) (t u : List A) → All P t → All P u → All P (t ++ u)
  All-append P [] u h k = k
  All-append P (r ∷ t) u h k = (h.0, All-append P t u h.1 k)

  pub find-append :
      (q : A → Bool) (t u : List A)
      → find q (t ++ u) ≡ elim (find q t) [ none ↦ find q u | some r ↦ some r ]
  find-append q [] u = refl
  find-append q (r ∷ t) u = ground (arith, find-append q t u)

  -- What a look-up finds passes its test and has what all rows have.
  pub find_test : (q : A → Bool) (t : List A) (r : A) → find q t ≡ some r → q r ≡ true
  find_test q [] r h = cc
  find_test q (s ∷ t) r h = ground (arith, find_test q t r)

  pub All-find {κ} :
      (P : A → Type κ) (q : A → Bool) (t : List A) (r : A) → All P t → find q t ≡ some r → P r
  All-find P q [] r a h = absurd (cc)
  All-find P q (s ∷ t) r a h = elim (Bool-cases (q s)) [
    | inl e ↦ let found : s ≡ r = ground arith in subst P found a.0
    | inr e ↦ All-find P q t r a.1 (rw e at h)
  ]

  pub count-le : (p : A → Bool) (t : List A) → count p t ≤ length t
  count-le p [] = omega arith
  count-le p (r ∷ t) = ground (arith, count-le p t)

  -- A DELETE removes the rows that it counts and no others.
  pub count-add-delete : (p : A → Bool) (t : List A) → count p t + length (delete p t) ≡ length t
  count-add-delete p [] = omega arith
  count-add-delete p (r ∷ t) = ground (arith, count-add-delete p t)

  pub count-append : (p : A → Bool) (t u : List A) → count p (t ++ u) ≡ count p t + count p u
  count-append p [] u = omega arith
  count-append p (r ∷ t) u = omega (arith, count-append p t u)
