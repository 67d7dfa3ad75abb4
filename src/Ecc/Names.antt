-- ===== src/Ecc/Names.antt =====
-- eyle/core/ecc.py: which capability an operation name means.
use eyle.Ecc.{
  Registry, map_loop, resolve, Family, operation_map, publish, same_family, family_of, strip,
  stable_get,
}
use text.Mathlib.TextPositions.{eq_refl}
use eyle.Base.Dict.{Dict, get, member, get-enter, or-true}
use eyle.Base.{
  Option, String, List, if◌then◌else◌, ◌∷◌, ◌≡◌, some, true, false, refl, ◌&&◌, ◌⊎◌, Bool-cases, [],
  inl, not, str_eq, arith, inr, eq_iff, subst, none, sym,
}

-- The capability is published in the family, under the name.
unfoldable pub Published : Registry → Family → String → String → Type 0
Published reg family c p =
    (same_family (family_of reg c) family ≡ true)
    × ((reg.spec c).ecc_hidden ≡ false)
    × (stable_get reg c ≡ some p)

publish-get :
    (o : Option String) (c p : String) (out : Dict String) (x : String)
    → get p (publish o c out) ≡ some x
    → (get p out ≡ some x) ⊎ ((o ≡ some p) × (c ≡ x))
publish-get none c p out x h = inl h
publish-get (some q) c p out x h = ground (arith, h, get-enter p q c out, eq_iff q p, eq_iff q "")

abbrev pub then_publish : Registry → Family → String → Dict String → Dict String
then_publish reg family c out =
    if same_family (family_of reg c) family && not (reg.spec c).ecc_hidden
    then publish (stable_get reg c) c out
    else out

step_sound :
    (reg : Registry) (family : Family) (d : String) (out : Dict String) (p c : String)
    → get p (then_publish reg family d out) ≡ some c
    → (get p out ≡ some c) ⊎ ((d ≡ c) × Published reg family c p)
unfolding Published
step_sound reg family d out p c h =
    elim (Bool-cases (same_family (family_of reg d) family && not (reg.spec d).ecc_hidden)) [
      | inr skipped ↦ inl (rw skipped at h)
      | inl taken ↦ elim (publish-get (stable_get reg d) d p out c (rw taken at h)) [
        | inl old ↦ inl old
        | inr (named, is) ↦
            inr (is, subst (λ x. Published reg family x p) is (ground arith, ground arith, named))
      ]
    ]

pub member-head : (c : String) (l : List String) → member c (c ∷ l) ≡ true
unfolding member
member-head c l = rw (eq_refl c) refl

pub member-tail : (c d : String) (l : List String) → member c l ≡ true → member c (d ∷ l) ≡ true
unfolding member
member-tail c d l h = rw (h, or-true (str_eq d c))

map_loop_sound :
    (reg : Registry) (family : Family) (l : List String) (out : Dict String) (p c : String)
    → get p (map_loop reg family l out) ≡ some c
    → (get p out ≡ some c) ⊎ ((member c l ≡ true) × Published reg family c p)
unfolding map_loop
map_loop_sound reg family [] out p c h = inl h
map_loop_sound reg family (d ∷ l) out p c h =
    elim (map_loop_sound reg family l (then_publish reg family d out) p c h) [
      | inr (there, is) ↦ inr (member-tail c d l there, is)
      | inl here ↦ elim (step_sound reg family d out p c here) [
        | inl old ↦ inl old
        | inr (same, is) ↦
            inr (subst (λ x. member c (x ∷ l) ≡ true) (sym same) (member-head c l), is)
      ]
    ]

-- An operation resolves only to a capability that is available, of the family that was asked for,
-- not hidden, and published under that name.
pub resolve-Published :
    (reg : Registry) (family : Family) (available : List String) (operation c : String)
    → resolve operation family reg available ≡ some c
    → (member c available ≡ true) × Published reg family c (strip operation)
unfolding resolve operation_map get
resolve-Published reg family available operation c h =
    elim (map_loop_sound reg family available [] (strip operation) c h) [
      | inl nothing ↦ ground arith
      | inr found ↦ found
    ]
