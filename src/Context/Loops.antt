-- ===== src/Context/Loops.antt =====
-- eyle/runtime/context_materializer.py and token_budget.py: the three loops that fill a budget. The
-- lists are those of the dicts (`isinstance(v, dict)`); budget and characters per token are what
-- `_budget` and `_chars_per_token` read from the configuration. `json_size` stands for the length of
-- the compact JSON text, `repr` for what `str` makes of a value that is no text.
use eyle.Base.Text.{strip, crop}
use eyle.Value.{str_of, Fields, Value, lookup, field, obj, text, end, put, truthy}
use eyle.Base.{
  ℕ, List, Option, max, Bool, if◌then◌else◌, ◌∷◌, String, [], true, ◌==◌, false, length, some, ◌&&◌,
  ◌*◌, ◌+◌, ltb, none, not, str_eq, ◌-◌, ◌/◌, leb,
}

-- `estimate_tokens` of a text with so many characters.
unfoldable pub estimate_tokens : ℕ → ℕ → ℕ
estimate_tokens chars chars_per_token =
    let c = max 1 (if chars_per_token == 0 then 3 else chars_per_token) in (chars + c - 1) / c

-- `reversed(xs)` in front of ys.
unfoldable pub rev_onto {ℓ} : {A : Type ℓ} → List A → List A → List A
rev_onto [] ys = ys
rev_onto (x ∷ xs) ys = rev_onto xs (x ∷ ys)

abbrev pub is_empty {ℓ} : {A : Type ℓ} → List A → Bool
is_empty [] = true
is_empty (x ∷ xs) = false

unfoldable pub crop_field : ℕ → Option Value → String → Fields → Fields
crop_field n (some (text s)) key d = put key (text (crop n s)) d
crop_field n _ key d = d

module _ (json_size : Fields → ℕ) (repr : Value → String) (budget chars_per_token : ℕ) where
  unfoldable pub cost : Fields → ℕ
  cost d = estimate_tokens (json_size d) chars_per_token

  -- `str(item.get(key) or "")`
  unfoldable pub text_at : String → Fields → String
  text_at key item = elim (lookup key item) [
    | none ↦ ""
    | some v ↦ if truthy v then str_of repr v else ""
  ]

  abbrev pub with_failure : Option Value → Fields → Fields
  with_failure (some (obj (field k v f))) d = put "execution_failure" (obj (field k v f)) d
  with_failure _ d = d

  -- `compact` of one message.
  unfoldable pub compact : Fields → Fields
  compact item = with_failure (lookup "execution_failure" item) (
      field "role" (text (text_at "role" item))
        (field "content" (text (text_at "content" item)) end))

  -- The newest message is kept with a part of its content, though it is larger than the budget.
  unfoldable pub crop_content : Fields → Fields
  crop_content d = crop_field (max 256 (budget * chars_per_token)) (lookup "content" d) "content" d

  -- The loop of `materialize_conversation`, from the newest message on.
  unfoldable pub conversation_loop : List Fields → List Fields → ℕ → List Fields × ℕ
  conversation_loop [] selected used = (selected, used)
  conversation_loop (item ∷ rest) selected used =
      let first = is_empty selected in
      let d = compact item in
      let d' = if first && ltb budget (cost d) && ltb 0 budget then crop_content d else d in
      let go = conversation_loop rest (d' ∷ selected) (used + cost d') in
      if not first && ltb budget (used + cost d)
      then (selected, used)
      else (if budget == 0 then (selected, used) else go)

  -- The loop of `materialize_latest_observations`.
  unfoldable pub observations_loop : List Fields → List Fields → ℕ → List Fields
  observations_loop [] selected used = selected
  observations_loop (item ∷ rest) selected used =
      let used' = used + cost item in
      let go = observations_loop rest (item ∷ selected) used' in
      if not (is_empty selected) && ltb budget used'
      then selected
      else (if leb budget used' then item ∷ selected else go)

  unfoldable pub materialize_latest_observations : List Fields → List Fields
  materialize_latest_observations items = observations_loop (rev_onto items []) [] 0

  -- The newest feedback keeps its identity; `detail` and `guidance` are cropped.
  unfoldable pub crop_detail : Fields → Fields
  crop_detail d =
      let n = max 120 (budget * chars_per_token / 2) in
      let e = crop_field n (lookup "detail" d) "detail" d in
      crop_field n (lookup "guidance" e) "guidance" e

  -- The loop of `materialize_runtime_feedback`.
  unfoldable pub feedback_loop : List Fields → List Fields → ℕ → List Fields
  feedback_loop [] selected used = selected
  feedback_loop (item ∷ rest) selected used =
      let first = is_empty selected in
      let d = if first && ltb budget (cost item) then crop_detail item else item in
      let go = feedback_loop rest (d ∷ selected) (used + cost d) in
      if not first && ltb budget (used + cost item)
      then selected
      else (if leb budget (used + cost d) then d ∷ selected else go)

  unfoldable pub materialize_runtime_feedback : List Fields → List Fields
  materialize_runtime_feedback items =
      if budget == 0 then [] else feedback_loop (rev_onto items []) [] 0

  -- What `materialize_conversation` returns; `total` is `total_messages`, or 0 for none.
  pub record Conversation : Type 0 where
    pub conversation_id : Option String
    pub messages : List Fields
    pub materialized : ℕ
    pub omitted : ℕ
    pub estimated_tokens : ℕ

  unfoldable pub materialize_conversation : String → List Fields → ℕ → Conversation
  materialize_conversation conversation_id messages total0 =
      let total = if total0 == 0 then length messages else total0 in
      let (selected, used) = conversation_loop (rev_onto messages []) [] 0 in
      record {
        conversation_id =
            if str_eq (strip conversation_id) "" then none else some (strip conversation_id);
        messages = selected;
        materialized = length selected;
        omitted = total - length selected;
        estimated_tokens = used;
      }
