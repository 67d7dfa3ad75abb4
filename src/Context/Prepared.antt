-- ===== src/Context/Prepared.antt =====
-- eyle/runtime/context_materializer.py: messages and feedback are kept as observations are, once the
-- newest is cropped.
use native.Mathlib.Nat.{div-eq-sub-div}
use eyle.Context.Newest.{Newest, total, observations_loop-Newest}
use eyle.Context.Loops.{
  cost, feedback_loop, materialize_runtime_feedback, observations_loop, crop_content, crop_detail,
  rev_onto, compact, conversation_loop, estimate_tokens, is_empty, materialize_conversation,
}
use eyle.Value.{Fields, Value}
use mathlib.Core.Path.{refl}
use eyle.Base.{
  ℕ, String, List, if◌then◌else◌, ltb, ◌∷◌, [], ◌<◌, ◌≡◌, ◌+◌, Bool-cases, ◌==◌, inl, arith, inr,
  map, false, max, ◌≤◌, ◌-◌, leb, not, subst, true, sym, ◌&&◌,
}

module _ (json_size : Fields → ℕ) (repr : Value → String) (budget chars_per_token : ℕ) where
  abbrev price : Fields → ℕ
  price d = cost json_size repr budget chars_per_token d

  -- `f` of a list's first item.
  abbrev pub first_as : (Fields → Fields) → List Fields → List Fields
  first_as f [] = []
  first_as f (x ∷ xs) = f x ∷ xs

  abbrev pub fit_detail : Fields → Fields
  fit_detail x =
      if ltb budget (price x) then crop_detail json_size repr budget chars_per_token x else x

  feedback_loop-more :
      (rest : List Fields) (d : Fields) (ds : List Fields) (used : ℕ)
      → feedback_loop json_size repr budget chars_per_token rest (d ∷ ds) used
        ≡ observations_loop json_size repr budget chars_per_token rest (d ∷ ds) used
  unfolding feedback_loop observations_loop
  feedback_loop-more [] d ds used = refl
  feedback_loop-more (x ∷ rest) d ds used = rw (feedback_loop-more rest x (d ∷ ds) (used + price x))

  feedback_loop-first :
      (items : List Fields)
      → feedback_loop json_size repr budget chars_per_token items [] 0
        ≡ observations_loop json_size repr budget chars_per_token (first_as fit_detail items) [] 0
  unfolding feedback_loop observations_loop
  feedback_loop-first [] = refl
  feedback_loop-first (x ∷ rest) =
      rw (feedback_loop-more rest (fit_detail x) [] (0 + price (fit_detail x)))

  -- The feedback that is kept is, in a budget that is not 0, the newest one of the list whose newest
  -- item has its detail cropped if it is too large: as much as fits, and at least one.
  pub materialize_runtime_feedback-Newest :
      (items : List Fields)
      → 0 < budget
      → Newest price budget
          (rev_onto (first_as fit_detail (rev_onto items [])) [])
          (materialize_runtime_feedback json_size repr budget chars_per_token items)
  unfolding materialize_runtime_feedback total
  materialize_runtime_feedback-Newest items h = elim (Bool-cases (budget == 0)) [
    | inl none_given ↦ ground arith
    | inr given ↦
        rw (given, feedback_loop-first (rev_onto items []))
          (observations_loop-Newest json_size repr budget chars_per_token
            (first_as fit_detail (rev_onto items [])) [] 0 refl tt)
  ]

  abbrev pub fit_content : Fields → Fields
  fit_content d =
      if ltb budget (price d) && ltb 0 budget
      then crop_content json_size repr budget chars_per_token d
      else d

  abbrev pub message_of : Fields → Fields
  message_of x = compact json_size repr budget chars_per_token x

  -- The messages as they are kept, the newest first.
  unfoldable pub prepared : List Fields → List Fields
  prepared items = first_as fit_content (map message_of items)

  price-positive : ((d : Fields) → 0 < json_size d) → (d : Fields) → 0 < price d
  unfolding cost estimate_tokens
  price-positive p d =
      let c = max 1 (if chars_per_token == 0 then 3 else chars_per_token) in
      let c_pos : 0 < c = omega arith in
      let big : c ≤ json_size d + c - 1 = omega (arith, p d) in
      let e = div-eq-sub-div c_pos big in subst (λ k. 0 < k) (sym e) (omega arith)

  conversation_loop-full :
      ((d : Fields) → 0 < price d)
      → (rest : List Fields) (d : Fields) (ds : List Fields) (used : ℕ) → budget ≤ used
      → (conversation_loop json_size repr budget chars_per_token rest (d ∷ ds) used).0 ≡ d ∷ ds
  unfolding conversation_loop
  conversation_loop-full p [] d ds used h = refl
  conversation_loop-full p (x ∷ rest) d ds used h =
      let over : ltb budget (used + price (message_of x)) ≡ true =
        ground (arith, p (message_of x)) in
      rw over refl

  conversation_loop-more :
      ((d : Fields) → 0 < price d)
      → (budget == 0) ≡ false
      → (rest : List Fields) (d : Fields) (ds : List Fields) (used : ℕ)
      → (conversation_loop json_size repr budget chars_per_token rest (d ∷ ds) used).0
        ≡ observations_loop json_size repr budget chars_per_token
            (map message_of rest)
            (d ∷ ds)
            used
  unfolding conversation_loop observations_loop
  conversation_loop-more p b [] d ds used = refl
  conversation_loop-more p b (x ∷ rest) d ds used =
      let m = message_of x in
      elim (Bool-cases (ltb budget (used + price m))) [
        | inl over ↦ rw over refl
        | inr within ↦ elim (Bool-cases (leb budget (used + price m))) [
          | inl full ↦
              rw (within, b, full)
                (conversation_loop-full p rest m (d ∷ ds) (used + price m) (ground arith))
          | inr room ↦
              rw (within, b, room) (conversation_loop-more p b rest m (d ∷ ds) (used + price m))
        ]
      ]

  conversation_loop-total :
      (rest selected : List Fields) (used : ℕ)
      → used ≡ total price selected
      → (let (ds, n) = conversation_loop json_size repr budget chars_per_token rest selected used in
          n ≡ total price ds)
  unfolding conversation_loop total
  conversation_loop-total [] selected used e = e
  conversation_loop-total (x ∷ rest) selected used e =
      let m = message_of x in
      let over = not (is_empty selected) && ltb budget (used + price m) in
      let cropped = is_empty selected && ltb budget (price m) && ltb 0 budget in
      let kept = if cropped then crop_content json_size repr budget chars_per_token m else m in
      elim (Bool-cases over) [
        | inl stop ↦ rw stop e
        | inr go ↦ elim (Bool-cases (budget == 0)) [
          | inl nothing ↦ rw (go, nothing) e
          | inr some_budget ↦
              rw (go, some_budget)
                (conversation_loop-total rest (kept ∷ selected) (used + price kept) (ground arith))
        ]
      ]

  conversation_loop-first :
      ((d : Fields) → 0 < price d)
      → (budget == 0) ≡ false
      → (items : List Fields)
      → (conversation_loop json_size repr budget chars_per_token items [] 0).0
        ≡ observations_loop json_size repr budget chars_per_token (prepared items) [] 0
  unfolding conversation_loop observations_loop prepared
  conversation_loop-first p b [] = refl
  conversation_loop-first p b (x ∷ rest) =
      let m = message_of x in
      let kept = fit_content m in
      elim (Bool-cases (leb budget (0 + price kept))) [
        | inl full ↦
            rw (b, full) (conversation_loop-full p rest kept [] (0 + price kept) (ground arith))
        | inr room ↦ rw (b, room) (conversation_loop-more p b rest kept [] (0 + price kept))
      ]

  -- In a budget that is not 0, and where no JSON text is empty, the messages that are kept are the
  -- newest ones, in a compact form and the newest cropped if it is too large alone: as many as fit,
  -- and at least one. The estimate that is returned is the sum of theirs.
  pub materialize_conversation-Newest :
      (conversation_id : String) (messages : List Fields) (total_messages : ℕ)
      → ((d : Fields) → 0 < json_size d)
      → 0 < budget
      → (let c =
            materialize_conversation json_size repr budget chars_per_token conversation_id messages
              total_messages in
          Newest price budget (rev_onto (prepared (rev_onto messages [])) []) c.messages
          × (c.estimated_tokens ≡ total price c.messages))
  unfolding materialize_conversation total
  materialize_conversation-Newest i messages n p h =
      let newest_first = rev_onto messages [] in
      let pos = price-positive p in
      let b : (budget == 0) ≡ false = ground arith in
      (
        rw (conversation_loop-first pos b newest_first) (
            observations_loop-Newest json_size repr budget chars_per_token (prepared newest_first)
              [] 0 refl tt),
        conversation_loop-total newest_first [] 0 refl,
      )
