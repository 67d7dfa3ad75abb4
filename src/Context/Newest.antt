-- ===== src/Context/Newest.antt =====
-- eyle/runtime/context_materializer.py: the loops keep the longest run of newest items that fits.
use mathlib.Core.List.{append-nil}
use eyle.Value.{Fields, Value}
use eyle.Context.Loops.{
  rev_onto, is_empty, cost, materialize_latest_observations, observations_loop,
}
use mathlib.Core.Path.{refl}
use eyle.Base.{
  ℕ, List, String, ◌∷◌, ◌≡◌, false, ◌++◌, ◌+◌, ◌≤◌, [], inl, ◌⊎◌, arith, length, ◌<◌, Bool-cases,
  leb, inr, sym, ltb, ◌∙◌, subst,
}

-- The tokens of a list.
unfoldable pub total : (Fields → ℕ) → List Fields → ℕ
total cost [] = 0
total cost (d ∷ ds) = total cost ds + cost d

-- The budget is full, or the next older item would not fit.
abbrev pub Stops : (Fields → ℕ) → ℕ → List Fields → List Fields → Type 0
Stops cost budget [] result = Unit
Stops cost budget (d ∷ older) result =
    (budget ≤ total cost result) ⊎ (budget < total cost result + cost d)

-- `result` ends `items`: it fits the budget unless it is one item, it is not empty if `items` is
-- not, and it cannot be longer. (`older` are the items before it, the newest first.)
pub data Newest (cost : Fields → ℕ) (budget : ℕ) (items result : List Fields) : Type 0 where
  newest :
      (older : List Fields)
      → items ≡ rev_onto older result
      → (total cost result ≤ budget) ⊎ (length result ≡ 1)
      → is_empty result ≡ is_empty items
      → Stops cost budget older result
      → Newest cost budget items result

pub rev_onto-twice :
    (xs ys zs : List Fields) → rev_onto (rev_onto xs ys) zs ≡ rev_onto ys (xs ++ zs)
unfolding rev_onto
rev_onto-twice [] ys zs = refl
rev_onto-twice (x ∷ xs) ys zs = rev_onto-twice xs (x ∷ ys) zs

pub rev_onto-more :
    (xs : List Fields) (y : Fields) (ys : List Fields) → is_empty (rev_onto xs (y ∷ ys)) ≡ false
unfolding rev_onto
rev_onto-more [] y ys = refl
rev_onto-more (x ∷ xs) y ys = rev_onto-more xs x (y ∷ ys)

-- What the loop has selected so far fits, or is one item, or nothing.
abbrev pub Fits : (Fields → ℕ) → ℕ → List Fields → Type 0
Fits cost budget [] = Unit
Fits cost budget (d ∷ ds) = (total cost (d ∷ ds) ≤ budget) ⊎ (length (d ∷ ds) ≡ 1)

module _ (json_size : Fields → ℕ) (repr : Value → String) (budget chars_per_token : ℕ) where
  abbrev price : Fields → ℕ
  price d = cost json_size repr budget chars_per_token d

  full-Stops :
      (rest : List Fields) (ds : List Fields) → budget ≤ total price ds → Stops price budget rest ds
  full-Stops [] ds h = tt
  full-Stops (d ∷ rest) ds h = inl h

  pub observations_loop-Newest :
      (rest selected : List Fields) (used : ℕ)
      → used ≡ total price selected
      → Fits price budget selected
      → Newest price budget
          (rev_onto rest selected)
          (observations_loop json_size repr budget chars_per_token rest selected used)
  unfolding observations_loop rev_onto total
  observations_loop-Newest [] [] used e f = newest [] refl (inl (omega arith)) refl tt
  observations_loop-Newest [] (d ∷ ds) used e f = newest [] refl f refl tt
  observations_loop-Newest (x ∷ rest) [] used e f =
      elim (Bool-cases (leb budget (used + price x))) [
        | inl full ↦ rw full (
            newest rest refl (inr refl) (sym (rev_onto-more rest x []))
              (full-Stops rest (x ∷ []) (ground arith)))
        | inr room ↦ rw room (
            observations_loop-Newest rest (x ∷ []) (used + price x) (ground arith)
              (inl (ground arith)))
      ]
  observations_loop-Newest (x ∷ rest) (d ∷ ds) used e f =
      elim (Bool-cases (ltb budget (used + price x))) [
        | inl over ↦
            rw over
              (newest (x ∷ rest) refl f (sym (rev_onto-more rest x (d ∷ ds))) (inr (ground arith)))
        | inr within ↦ elim (Bool-cases (leb budget (used + price x))) [
          | inl full ↦
              rw (within, full)
                (newest rest refl (inl (ground arith)) (sym (rev_onto-more rest x (d ∷ ds)))
                  (full-Stops rest (x ∷ d ∷ ds) (ground arith)))
          | inr room ↦
              rw (within, room)
                (observations_loop-Newest rest (x ∷ d ∷ ds) (used + price x) (ground arith)
                  (inl (ground arith)))
        ]
      ]

  -- The observations that are kept are the newest ones, as many as fit the budget, and at least one.
  pub materialize_latest_observations-Newest :
      (items : List Fields)
      → Newest price budget items
          (materialize_latest_observations json_size repr budget chars_per_token items)
  unfolding materialize_latest_observations total rev_onto
  materialize_latest_observations-Newest items =
      let e = rev_onto-twice items [] [] ∙ append-nil items in
      let l = rev_onto items [] in
      let n = observations_loop-Newest l [] 0 refl tt in
      subst
        (λ xs.
          Newest price budget xs (observations_loop json_size repr budget chars_per_token l [] 0))
        e n
