-- ===== src/Evidence.antt =====
-- eyle/core/evidence.py: the Evidence of an active task, pointers to what was observed.
pub mod Retain
mod Tests
use eyle.Value.{Fields, field, end, obj, null, same_value, text, truthy}
use eyle.Base.Dict.{Dict, get, member}
use eyle.Base.{
  ℕ, Bool, List, Option, String, ◌+◌, ◌∷◌, if◌then◌else◌, max, none, some, str_eq, ◌==◌, [], false,
  not, ◌&&◌, true, or_else, ◌||◌,
}

-- The text `ev-` and a number of at least four digits, which `_next_id` writes, or another text, of
-- which it reads no number.
pub data EvidenceId : Type 0 where
  ev : ℕ → EvidenceId
  other : String → EvidenceId

unfoldable pub same_id : EvidenceId → EvidenceId → Bool
same_id (ev m) (ev n) = m == n
same_id (other s) (other t) = str_eq s t
same_id _ _ = false

-- A record; `content_hash` is `none` where the material has none.
pub record Record : Type 0 where
  pub id : EvidenceId
  pub material_id : String
  pub selector : Fields
  pub selected : Fields
  pub content_hash : Option String
  pub reality_epoch : ℕ

abbrev pub Evidence : Type 0
Evidence = List (EvidenceId × Record)

pub record Material : Type 0 where
  pub locator : Fields
  pub content_hash : Option String

unfoldable pub find_id : EvidenceId → Evidence → Option Record
find_id i [] = none
find_id i ((j, r) ∷ e) = if same_id j i then some r else find_id i e

-- `state[evidence_id] = record`
unfoldable pub set_id : EvidenceId → Record → Evidence → Evidence
set_id i r [] = (i, r) ∷ []
set_id i r ((j, s) ∷ e) = if same_id j i then (j, r) ∷ e else (j, s) ∷ set_id i r e

abbrev pub number_of : EvidenceId → ℕ
number_of (ev n) = n
number_of (other s) = 0

unfoldable pub maximum : Evidence → ℕ
maximum [] = 0
maximum ((i, r) ∷ e) = max (number_of i) (maximum e)

unfoldable pub next_id : Evidence → EvidenceId
next_id e = ev (maximum e + 1)

-- The record is of this material, selector and content.
unfoldable pub matches : String → Material → Fields → Record → Bool
matches material_id material selector r =
    str_eq r.material_id material_id
    && same_value (obj r.selector) (obj selector)
    && str_eq (or_else r.content_hash "") (or_else material.content_hash "")

unfoldable pub find_match : String → Material → Fields → Evidence → Option EvidenceId
find_match material_id material selector [] = none
find_match material_id material selector ((i, r) ∷ e) =
    if matches material_id material selector r
    then some i
    else find_match material_id material selector e

pub record Retained : Type 0 where
  pub state : Evidence
  pub id : EvidenceId
  pub created : Bool

unfoldable pub retain_evidence : Evidence → String → Material → Fields → Fields → ℕ → Retained
retain_evidence state material_id material selector selected epoch =
    elim (find_match material_id material selector state) [
      | some i ↦ record { state = state; id = i; created = false }
      | none ↦
          let i = next_id state in
          let r : Record = record {
            id = i;
            material_id = material_id;
            selector = selector;
            selected = selected;
            content_hash = material.content_hash;
            reality_epoch = epoch;
          } in
          record { state = set_id i r state; id = i; created = true }
    ]

-- `selected` of `retain_observation_evidence`.
unfoldable pub pointer : Material → Fields
pointer m =
    field "locator" (obj m.locator)
      (field "content_hash" (elim (m.content_hash) [ none ↦ null | some h ↦ text h ]) end)

-- Each material that is known is retained whole.
unfoldable pub retain_observation_evidence : Dict Material → ℕ → List String → Evidence → Evidence
retain_observation_evidence materials epoch [] state = state
retain_observation_evidence materials epoch (k ∷ ids) state = elim (get k materials) [
  | none ↦ retain_observation_evidence materials epoch ids state
  | some m ↦
      let r = retain_evidence state k m end (pointer m) epoch in
      retain_observation_evidence materials epoch ids r.state
]

-- The ids of the records of some materials, in the order of the state; the source sorts them.
unfoldable pub evidence_ids_for_materials : List String → Bool → Evidence → List EvidenceId
evidence_ids_for_materials wanted whole_only [] = []
evidence_ids_for_materials wanted whole_only ((i, r) ∷ e) =
    let rest = evidence_ids_for_materials wanted whole_only e in
    if not (member r.material_id wanted) || (whole_only && truthy (obj r.selector))
    then rest
    else i ∷ rest
