-- ===== src/Evidence/Retain.antt =====
-- eyle/core/evidence.py: what is retained once is found again, and nothing is lost.
use eyle.Value.{same_value-end}
use mathlib.Core.List.{append_assoc, append-nil}
use text.Mathlib.TextPositions.{eq_refl}
use eyle.Evidence.{
  maximum, next_id, set_id, Evidence, find_id, EvidenceId, same_id, Record, ev, other, Dict,
  retain_observation_evidence, Material, Fields, get, find_match, retain_evidence, same_value, end,
  matches, obj, pointer, Retained,
}
use mathlib.Core.Path.{refl}
use eyle.Base.{
  ℕ, ◌≡◌, none, ◌<◌, ◌++◌, ◌+◌, arith, ◌∷◌, [], Bool-cases, String, inl, List, inr, All, some, sym,
  Option-cases, true, false, or_else, ◌∙◌, ap, subst,
}

-- A new id is on no record.
below-fresh : (n : ℕ) (e : Evidence) → maximum e < n → find_id (ev n) e ≡ none
unfolding maximum find_id same_id
below-fresh n [] h = refl
below-fresh n ((ev m, r) ∷ e) h = ground (arith, below-fresh n e)
below-fresh n ((other s, r) ∷ e) h = ground (arith, below-fresh n e)

next_id-fresh : (e : Evidence) → find_id (next_id e) e ≡ none
unfolding next_id
next_id-fresh e = below-fresh (maximum e + 1) e (omega arith)

set_id-append :
    (i : EvidenceId) (r : Record) (e : Evidence)
    → find_id i e ≡ none
    → set_id i r e ≡ e ++ (i, r) ∷ []
unfolding set_id find_id
set_id-append i r [] h = refl
set_id-append i r ((j, s) ∷ e) h = elim (Bool-cases (same_id j i)) [
  | inl same ↦ ground (arith, h, same)
  | inr differ ↦ let rest = rw differ at h in rw (differ, set_id-append i r e rest) refl
]

module _ (k : String) (m : Material) (selector : Fields) where
  find_match-append :
      (e t : Evidence) (i : EvidenceId)
      → find_match k m selector e ≡ some i
      → find_match k m selector (e ++ t) ≡ some i
  unfolding find_match
  find_match-append [] t i h = ground arith
  find_match-append ((j, r) ∷ e) t i h = elim (Bool-cases (matches k m selector r)) [
    | inl same ↦ rw same (rw same at h)
    | inr differ ↦ rw differ (find_match-append e t i (rw differ at h))
  ]

  find_match-last :
      (e : Evidence) (i : EvidenceId) (r : Record)
      → find_match k m selector e ≡ none
      → matches k m selector r ≡ true
      → find_match k m selector (e ++ (i, r) ∷ []) ≡ some i
  unfolding find_match
  find_match-last [] i r h same = rw same refl
  find_match-last ((j, s) ∷ e) i r h same = elim (Bool-cases (matches k m selector s)) [
    | inl found ↦ ground (arith, h, found)
    | inr differ ↦ rw differ (find_match-last e i r (rw differ at h) same)
  ]

  retain-old :
      (state : Evidence) (selected : Fields) (epoch : ℕ) (i : EvidenceId)
      → find_match k m selector state ≡ some i
      → retain_evidence state k m selector selected epoch
        ≡ record { state = state; id = i; created = false }
  unfolding retain_evidence
  retain-old state selected epoch i found = rw (found, retain_evidence) refl

  abbrev new_record : Evidence → Fields → ℕ → Record
  new_record state selected epoch = record {
    id = next_id state;
    material_id = k;
    selector = selector;
    selected = selected;
    content_hash = m.content_hash;
    reality_epoch = epoch;
  }

  retain-new :
      (state : Evidence) (selected : Fields) (epoch : ℕ)
      → find_match k m selector state ≡ none
      → retain_evidence state k m selector selected epoch ≡ record {
        state = state ++ (next_id state, new_record state selected epoch) ∷ [];
        id = next_id state;
        created = true;
      }
  unfolding retain_evidence
  retain-new state selected epoch absent =
      rw
        (
          absent,
          retain_evidence,
          set_id-append (next_id state) (new_record state selected epoch) state
              (next_id-fresh state),
        )
        refl

  -- Retaining adds at most one record, behind all others, and the content is found from then on.
  pub retain_evidence-Found :
      (state : Evidence) (selected : Fields) (epoch : ℕ)
      → same_value (obj selector) (obj selector) ≡ true
      → (let a = retain_evidence state k m selector selected epoch in
          ((more : Evidence) × (a.state ≡ state ++ more))
          × (find_match k m selector a.state ≡ some a.id))
  unfolding matches
  retain_evidence-Found state selected epoch self =
      elim (Option-cases (find_match k m selector state)) [
        | inr (i, found) ↦
            rw (retain-old state selected epoch i found) (([], sym (append-nil state)), found)
        | inl absent ↦
            let r : Record = new_record state selected epoch in
            let same : matches k m selector r ≡ true =
              rw (eq_refl k, self, eq_refl (or_else m.content_hash "")) refl in
            rw (retain-new state selected epoch absent)
              (((next_id state, r) ∷ [], refl), find_match-last state (next_id state) r absent same)
      ]

  -- What has been retained is not retained again: the same material with the same selector and
  -- content gives the same id, and the state stays as it is. (The selector is equal to itself, as
  -- every dict is.)
  pub retain_evidence_again :
      (state : Evidence) (selected selected' : Fields) (epoch epoch' : ℕ)
      → same_value (obj selector) (obj selector) ≡ true
      → (let a = retain_evidence state k m selector selected epoch in
          retain_evidence a.state k m selector selected' epoch'
          ≡ record { state = a.state; id = a.id; created = false })
  retain_evidence_again state selected selected' epoch epoch' self =
      let a = retain_evidence state k m selector selected epoch in
      retain-old a.state selected' epoch' a.id (retain_evidence-Found state selected epoch self).1

-- The content of the material is on record, whole.
abbrev pub Held : Dict Material → Evidence → String → Type 0
Held materials state k =
    (m : Material)
    → get k materials ≡ some m
    → (i : EvidenceId) × (find_match k m end state ≡ some i)

abbrev pub Kept : Dict Material → List String → Evidence → Evidence → Type 0
Kept materials ids state after =
    ((more : Evidence) × (after ≡ state ++ more)) × All (Held materials after) ids

-- After an observation, each of its materials that is known is on record, and no earlier record has
-- changed or gone.
pub retain_observation_evidence-Held :
    (materials : Dict Material) (epoch : ℕ) (ids : List String) (state : Evidence)
    → Kept materials ids state (retain_observation_evidence materials epoch ids state)
unfolding retain_observation_evidence
retain_observation_evidence-Held materials epoch [] state = (([], sym (append-nil state)), tt)
retain_observation_evidence-Held materials epoch (k ∷ ids) state =
    elim (Option-cases (get k materials)) [
      | inl unknown ↦
          let skip : retain_observation_evidence materials epoch (k ∷ ids) state
              ≡ retain_observation_evidence materials epoch ids state =
            rw (unknown, retain_observation_evidence) refl in
          let (grows, held) = retain_observation_evidence-Held materials epoch ids state in
          subst (Kept materials (k ∷ ids) state) (sym skip)
            (grows, ((λ m e. ground (arith, e, unknown)), held))
      | inr (m, known) ↦
          let a : Retained = retain_evidence state k m end (pointer m) epoch in
          let go : retain_observation_evidence materials epoch (k ∷ ids) state
              ≡ retain_observation_evidence materials epoch ids a.state =
            rw (known, retain_observation_evidence) refl in
          let ((one, added), found) =
            retain_evidence-Found k m end state (pointer m) epoch same_value-end in
          let ((more, grows), held) =
            retain_observation_evidence-Held materials epoch ids a.state in
          subst (Kept materials (k ∷ ids) state) (sym go) (
            (one ++ more, grows ∙ ap (λ s. s ++ more) added ∙ append_assoc state one more),
            (
              (λ m' e.
                  let is_m : m ≡ m' = ground (arith, e, known) in
                  rw (sym is_m, grows) (a.id, find_match-append k m end a.state more a.id found)),
              held,
            ),
          )
    ]
