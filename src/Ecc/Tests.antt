-- ===== src/Ecc/Tests.antt =====
-- Runs of the operation names.
use eyle.Ecc.Names.{Published, resolve-Published}
use eyle.Ecc.Callable.{resolve-public}
use eyle.Ecc.Reachable.{IsClear}
use mathlib.Core.Path.{refl}
use eyle.Base.Text.{strip, lstrip, rstrip, is_space}
use eyle.Base.Dict.{get, member, enter}
use eyle.Ecc.{
  explorar, construir, Registry, resolve, stable_get, Spec, operation_map, public_name, map_loop,
  stable_name, short_of, fallback_of, family_of,
}
use eyle.Base.{
  String, ◌∷◌, [], inl, ◌≡◌, false, if◌then◌else◌, none, some, true, ◌∙◌, str_eq, sym, ◌⊎◌,
  Bool-cases, inr, arith, eq_iff, ◌≢◌,
}

abbrev plain : String → String → String → Spec
plain effect alias local = record {
  effect = effect;
  ecc_name = alias;
  ecc_hidden = false;
  provider = "std";
  local = local;
}

abbrev two : Registry
two = record {
  names = "std.read" ∷ "std.write" ∷ [];
  spec =
      λ c. if str_eq c "std.read" then plain "observe" "read" "read" else plain "mutate" "" "write";
}

-- `std.b` shares its alias and falls back to its full name, which is the alias of `std.a`.
abbrev clash : Registry
clash = record {
  names = "std.a" ∷ "std.b" ∷ "std.c" ∷ [];
  spec = λ c.
      if str_eq c "std.a"
      then plain "observe" "std.b" "a"
      else if str_eq c "std.b"
      then plain "observe" "x" "b"
      else plain "observe" "x" "c";
}

program : Unit {0}
unfolding resolve operation_map map_loop stable_get stable_name short_of fallback_of family_of strip
    lstrip rstrip is_space get member enter public_name
program = tt

resolve_read : resolve " read " explorar two ("std.read" ∷ "std.write" ∷ []) ≡ some "std.read"
unfolding program
resolve_read = refl

resolve-none : resolve "read" construir two ("std.read" ∷ "std.write" ∷ []) ≡ none
unfolding program
resolve-none = refl

-- Both are published as `std.b`, and the first of them cannot be called.
clash_published :
    (stable_get clash "std.a" ≡ some "std.b")
    × (stable_get clash "std.b" ≡ some "std.b")
    × (operation_map clash ("std.a" ∷ "std.b" ∷ "std.c" ∷ []) explorar
        ≡ ("std.b", "std.b") ∷ ("std.c", "std.c") ∷ [])
unfolding program
clash_published = (refl, refl, refl)

known_two : (a : String) → member a (two.names) ≡ true → (a ≡ "std.read") ⊎ (a ≡ "std.write")
unfolding member
known_two a m = elim (Bool-cases (str_eq "std.read" a)) [
  | inl e ↦ inl (ground (arith, eq_iff "std.read" a))
  | inr n ↦ inr (ground (arith, eq_iff "std.write" a, m))
]

texts_differ : (s t : String) → str_eq s t ≡ false → s ≢ t
texts_differ s t h e = ground (arith, eq_iff s t)

read_differs : short_of two "std.read" ≢ fallback_of two "std.write"
unfolding program
read_differs h = texts_differ "read" "std.write" refl h

write_differs : short_of two "std.write" ≢ fallback_of two "std.read"
unfolding program
write_differs h = texts_differ "std.write" "std.read" refl h

two-IsClear : IsClear two
unfolding program
two-IsClear = record {
  full_names = λ a b ma mb e. elim (known_two a ma) [
    | inl a1 ↦ elim (known_two b mb) [
      | inl b1 ↦ a1 ∙ sym b1
      | inr b2 ↦ let e' = rw (a1, b2) at e in ground arith
    ]
    | inr a2 ↦ elim (known_two b mb) [
      | inl b1 ↦ let e' = rw (a2, b1) at e in ground arith
      | inr b2 ↦ a2 ∙ sym b2
    ]
  ];
  aliases = λ a b ma mb f e. elim (known_two a ma) [
    | inl a1 ↦ elim (known_two b mb) [
      | inl b1 ↦ a1 ∙ sym b1
      | inr b2 ↦ absurd (read_differs (rw (a1, b2) at e))
    ]
    | inr a2 ↦ elim (known_two b mb) [
      | inl b1 ↦ absurd (write_differs (rw (a2, b1) at e))
      | inr b2 ↦ a2 ∙ sym b2
    ]
  ];
}

resolve-Published_example :
    (member "std.read" ("std.read" ∷ []) ≡ true)
    × Published two explorar "std.read" (strip " read ")
unfolding program
resolve-Published_example =
    resolve-Published two explorar ("std.read" ∷ []) " read " "std.read" refl

resolve-public_example :
    resolve (public_name two "std.read") explorar two ("std.read" ∷ []) ≡ some "std.read"
unfolding program
resolve-public_example =
    resolve-public two explorar ("std.read" ∷ []) "std.read" two-IsClear refl refl refl refl refl
      refl
