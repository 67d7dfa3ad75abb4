-- ===== src/Evidence/Tests.antt =====
-- Runs of the Evidence store.
use eyle.Value.{field, end, text, same_value, truthy, entries, within, lookup}
use eyle.Evidence.Retain.{Kept, retain_observation_evidence-Held}
use eyle.Evidence.{
  Material, evidence_ids_for_materials, retain_evidence, retain_observation_evidence, find_match,
  matches, ev, next_id, pointer, maximum, set_id,
}
use eyle.Base.Dict.{Dict, get, member}
use mathlib.Core.Path.{refl}
use eyle.Base.{map, [], ◌∷◌, true, ◌≡◌, some}

abbrev page : Material
page = record { locator = field "path" (text "a.py") end; content_hash = some "h1" }

abbrev known : Dict Material
known = ("m1", page) ∷ []

program : Unit {0}
unfolding retain_observation_evidence retain_evidence find_match matches next_id maximum set_id get
    pointer same_value entries within lookup evidence_ids_for_materials member truthy
program = tt

retained_twice :
    map (λ p. p.0) (retain_observation_evidence known 1 ("m1" ∷ "m2" ∷ "m1" ∷ []) []) ≡ ev 1 ∷ []
unfolding program
retained_twice = refl

ids_of_material :
    evidence_ids_for_materials ("m1" ∷ []) true (retain_observation_evidence known 1 ("m1" ∷ []) [])
    ≡ ev 1 ∷ []
unfolding program
ids_of_material = refl

retain_observation_evidence-Held_example :
    Kept known ("m1" ∷ "m2" ∷ []) [] (retain_observation_evidence known 1 ("m1" ∷ "m2" ∷ []) [])
retain_observation_evidence-Held_example =
    retain_observation_evidence-Held known 1 ("m1" ∷ "m2" ∷ []) []
