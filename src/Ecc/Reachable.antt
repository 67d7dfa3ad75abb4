-- ===== src/Ecc/Reachable.antt =====
-- eyle/core/ecc.py: where no alias is another capability's full name, each capability can be called.
use eyle.Ecc.Names.{Published, then_publish}
use eyle.Ecc.{
  Family, Registry, stable_name, fallback_of, same_family, explorar, family_of, same_key, short_of,
  construir, stable_get,
}
use eyle.Base.Table.{count}
use eyle.Base.Dict.{Dict, get, member, get-enter}
use text.Mathlib.TextPositions.{eq_refl}
use eyle.Base.{
  Bool, String, List, ◌≡◌, true, arith, ◌<◌, ◌∷◌, Bool-cases, str_eq, inl, eq_iff, inr, subst, [],
  sym, ◌∙◌, false, some, refl, ◌&&◌, not, ◌==◌, Option-cases, ap,
}

member-count :
    (p : String → Bool) (a : String) (l : List String)
    → member a l ≡ true
    → p a ≡ true
    → 0 < count p l
unfolding member
member-count p a [] m h = ground arith
member-count p a (x ∷ l) m h = elim (Bool-cases (str_eq x a)) [
  | inl same ↦
      let is : x ≡ a = ground (arith, eq_iff x a) in
      let e : p x ≡ true = subst (λ y. p y ≡ true) (sym is) h in rw e (omega arith)
  | inr differ ↦ let rest = member-count p a l (rw differ at m) h in ground (arith, rest)
]

-- A test that holds of one item only.
count-one :
    (p : String → Bool) (l : List String) (a b : String)
    → count p l ≡ 1
    → member a l ≡ true
    → member b l ≡ true
    → p a ≡ true
    → p b ≡ true
    → a ≡ b
unfolding member
count-one p [] a b one ma mb pa pb = ground arith
count-one p (x ∷ l) a b one ma mb pa pb = elim (Bool-cases (p x)) [
  | inl px ↦
      let one' = rw px at one in
      let is_x : (c : String) → member c (x ∷ l) ≡ true → p c ≡ true → x ≡ c = λ c mc pc.
        elim (Bool-cases (str_eq x c)) [
          | inl same ↦ ground (arith, eq_iff x c)
          | inr differ ↦
              let rest = member-count p c l (rw differ at mc) pc in ground (arith, rest, one')
        ] in
      sym (is_x a ma pa) ∙ is_x b mb pb
  | inr px ↦
      let one' = rw px at one in
      let later : (c : String) → member c (x ∷ l) ≡ true → p c ≡ true → member c l ≡ true =
        λ c mc pc. elim (Bool-cases (str_eq x c)) [
          | inl same ↦
              let is : x ≡ c = ground (arith, eq_iff x c) in
              let e : p x ≡ true = subst (λ y. p y ≡ true) (sym is) pc in ground (arith, e, px)
          | inr differ ↦ rw differ at mc
        ] in
      count-one p l a b (omega (arith, one')) (later a ma pa) (later b mb pb) pa pb
]

-- No two capabilities have one full name, and no alias is another's full name in its family.
pub record IsClear (reg : Registry) : Type 0 where
  pub full_names :
      (a b : String)
      → member a reg.names ≡ true
      → member b reg.names ≡ true
      → fallback_of reg a ≡ fallback_of reg b
      → a ≡ b
  pub aliases :
      (a b : String)
      → member a reg.names ≡ true
      → member b reg.names ≡ true
      → same_family (family_of reg a) (family_of reg b) ≡ true
      → short_of reg a ≡ fallback_of reg b
      → a ≡ b

same_family_refl : (f : Family) → same_family f f ≡ true
same_family_refl explorar = refl
same_family_refl construir = refl

same_family_sym : (f g : Family) → same_family f g ≡ true → same_family g f ≡ true
same_family_sym explorar explorar h = refl
same_family_sym construir construir h = refl
same_family_sym explorar construir h = h
same_family_sym construir explorar h = h

pub stable_name-one :
    (reg : Registry)
    → IsClear reg
    → (a b : String) → member a reg.names ≡ true
    → member b reg.names ≡ true
    → same_family (family_of reg a) (family_of reg b) ≡ true
    → stable_name reg a ≡ stable_name reg b
    → a ≡ b
unfolding stable_name
stable_name-one reg clear a b ma mb f h =
    elim (Bool-cases (count (same_key reg a) reg.names == 1)) [
      | inl a_one ↦ elim (Bool-cases (count (same_key reg b) reg.names == 1)) [
        | inl b_one ↦
            let e : short_of reg a ≡ short_of reg b = rw (a_one, b_one) at h in
            let k : str_eq (short_of reg b) (short_of reg a) ≡ true =
              rw e (eq_refl (short_of reg b)) in
            count-one (same_key reg a) reg.names a b (ground arith) ma mb
              (rw (same_family_refl (family_of reg a)) (eq_refl (short_of reg a)))
              (rw (same_family_sym (family_of reg a) (family_of reg b) f) k)
        | inr b_many ↦ clear.aliases a b ma mb f (rw (a_one, b_many) at h)
      ]
      | inr a_many ↦ elim (Bool-cases (count (same_key reg b) reg.names == 1)) [
        | inl b_one ↦ sym (
            clear.aliases b a mb ma (same_family_sym (family_of reg a) (family_of reg b) f)
              (sym (rw (a_many, b_one) at h)))
        | inr b_many ↦ clear.full_names a b ma mb (rw (a_many, b_many) at h)
      ]
    ]

pub step-keeps :
    (reg : Registry) (family : Family) (d : String) (out : Dict String) (p c : String)
    → (Published reg family d p → d ≡ c)
    → get p out ≡ some c
    → get p (then_publish reg family d out) ≡ some c
unfolding Published
step-keeps reg family d out p c one h =
    elim (Bool-cases (same_family (family_of reg d) family && not (reg.spec d).ecc_hidden)) [
      | inr skipped ↦ rw skipped h
      | inl taken ↦ elim (Option-cases (stable_get reg d)) [
        | inl unnamed ↦ rw (taken, unnamed) h
        | inr (q, named) ↦ elim (Bool-cases (str_eq q "")) [
          | inl empty ↦ rw (taken, named, empty) h
          | inr named_so ↦ elim (Bool-cases (str_eq q p)) [
            | inl same ↦
                let is : q ≡ p = ground (arith, eq_iff q p) in
                let d_is = one (ground arith, ground arith, named ∙ ap some is) in
                rw (taken, named, named_so, get-enter, same) (ap some d_is)
            | inr differ ↦ rw (taken, named, named_so, get-enter, differ) h
          ]
        ]
      ]
    ]

pub step-hits :
    (reg : Registry) (family : Family) (out : Dict String) (p c : String)
    → str_eq p "" ≡ false
    → Published reg family c p
    → get p (then_publish reg family c out) ≡ some c
unfolding Published
step-hits reg family out p c solid (f, shown, named) =
    rw (f, shown, named, solid, get-enter, eq_refl p) refl
