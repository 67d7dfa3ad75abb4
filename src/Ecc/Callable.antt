-- ===== src/Ecc/Callable.antt =====
-- eyle/core/ecc.py: each capability that is not hidden can be called by its public name.
use eyle.Ecc.Reachable.{IsClear, step-keeps, stable_name-one, step-hits}
use eyle.Ecc.Names.{Published, member-tail, then_publish, member-head}
use eyle.Ecc.{
  Family, Registry, map_loop, resolve, operation_map, same_family, stable_get, public_name,
  family_of, stable_name, strip,
}
use eyle.Base.Dict.{Dict, get, member}
use eyle.Ecc.{explorar, construir}
use eyle.Base.{
  List, String, str_eq, ◌∷◌, ◌≡◌, false, some, true, arith, Bool-cases, inl, [], eq_iff, inr, refl,
}

-- All capabilities of the list that are published under the name are one.
abbrev Only : Registry → Family → List String → String → String → Type 0
Only reg family l p c = (d : String) → member d l ≡ true → Published reg family d p → d ≡ c

Only-tail :
    (reg : Registry) (family : Family) (d : String) (l : List String) (p c : String)
    → Only reg family (d ∷ l) p c
    → Only reg family l p c
Only-tail reg family d l p c only = λ x there is. only x (member-tail x d l there) is

map_loop-keeps :
    (reg : Registry) (family : Family) (l : List String) (out : Dict String) (p c : String)
    → Only reg family l p c
    → get p out ≡ some c
    → get p (map_loop reg family l out) ≡ some c
unfolding map_loop
map_loop-keeps reg family [] out p c only h = h
map_loop-keeps reg family (d ∷ l) out p c only h =
    map_loop-keeps reg family l (then_publish reg family d out) p c
      (Only-tail reg family d l p c only)
      (step-keeps reg family d out p c (λ is. only d (member-head d l) is) h)

map_loop-hits :
    (reg : Registry) (family : Family) (l : List String) (out : Dict String) (p c : String)
    → Only reg family l p c
    → str_eq p "" ≡ false
    → Published reg family c p
    → member c l ≡ true
    → get p (map_loop reg family l out) ≡ some c
unfolding map_loop member
map_loop-hits reg family [] out p c only solid is there = ground arith
map_loop-hits reg family (d ∷ l) out p c only solid is there = elim (Bool-cases (str_eq d c)) [
  | inl same ↦
      let d_is : d ≡ c = ground (arith, eq_iff d c) in
      map_loop-keeps reg family l (then_publish reg family d out) p c
        (Only-tail reg family d l p c only) (rw d_is (step-hits reg family out p c solid is))
  | inr differ ↦
      map_loop-hits reg family l (then_publish reg family d out) p c
        (Only-tail reg family d l p c only) solid is (rw differ at there)
]

Published-name :
    (reg : Registry) (family : Family) (c p : String)
    → Published reg family c p
    → (member c reg.names ≡ true)
      × (stable_name reg c ≡ p)
      × (same_family (family_of reg c) family ≡ true)
unfolding Published stable_get
Published-name reg family c p (f, shown, named) = elim (Bool-cases (member c reg.names)) [
  | inl known ↦ let e = rw known at named in (known, ground (arith, e), f)
  | inr unknown ↦ let e = rw unknown at named in ground (arith, e)
]

same_family_both :
    (f g h : Family) → same_family f h ≡ true → same_family g h ≡ true → same_family f g ≡ true
same_family_both explorar explorar h a b = refl
same_family_both construir construir h a b = refl
same_family_both explorar construir explorar a b = b
same_family_both explorar construir construir a b = a
same_family_both construir explorar explorar a b = a
same_family_both construir explorar construir a b = b

-- Where no alias is another capability's full name and full names differ, each capability that is
-- registered, available and not hidden is what its public name means in its family, if that name is
-- not empty and has no space around it.
pub resolve-public :
    (reg : Registry) (family : Family) (available : List String) (c : String)
    → IsClear reg
    → member c reg.names ≡ true
    → member c available ≡ true
    → same_family (family_of reg c) family ≡ true
    → (reg.spec c).ecc_hidden ≡ false
    → str_eq (public_name reg c) "" ≡ false
    → strip (public_name reg c) ≡ public_name reg c
    → resolve (public_name reg c) family reg available ≡ some c
unfolding resolve operation_map public_name stable_get Published
resolve-public reg family available c clear known there f shown solid tidy =
    let p = stable_name reg c in
    let named : stable_get reg c ≡ some p = rw (known, stable_get) refl in
    let name_is : public_name reg c ≡ p = rw (named, public_name) refl in
    let is : Published reg family c p = (f, shown, named) in
    let only : Only reg family available p c = λ d d_there d_is.
      let (d_known, d_name, d_f) = Published-name reg family d p d_is in
      stable_name-one reg clear d c d_known known
        (same_family_both (family_of reg d) (family_of reg c) family d_f f) d_name in
    rw (tidy, name_is)
      (map_loop-hits reg family available [] p c only (rw name_is at solid) is there)
