-- ===== src/Limiter/Grant.antt =====
-- eyle/runtime/limiter.py: when `acquire` gets a slot, and which.
use eyle.Limiter.Slots.{Distinct, contains-occupied-delete}
use eyle.Base.Table.{count-append, delete}
use eyle.Limiter.{
  first_free, contains, Owner, Slot, Token, occupied, try_acquire, cleanup_stale, count, of_key,
  is_lease_of, release,
}
use text.Mathlib.TextPositions.{eq_refl}
use eyle.Base.{
  ℕ, List, Option, Bool, suc, ◌≡◌, String, none, true, ◌⊎◌, some, ◌+◌, zero, ◌<◌, false, inl,
  Bool-cases, inr, arith, refl, ◌≤◌, ◌==◌, ◌∷◌, [], ◌≢◌,
}

-- The slots k, k + 1, … k + left - 1 are all taken.
abbrev pub AllTaken : ℕ → ℕ → List ℕ → Type 0
AllTaken zero k taken = Unit
AllTaken (suc left) k taken = (contains k taken ≡ true) × AllTaken left (k + 1) taken

first_free_cases :
    (left k : ℕ) (taken : List ℕ)
    → (first_free left k taken ≡ none) × AllTaken left k taken
      ⊎ ((d : ℕ) × (first_free left k taken ≡ some (k + d))
          × (d < left)
          × (contains (k + d) taken ≡ false)
          × AllTaken d k taken)
unfolding first_free
first_free_cases zero k taken = inl (refl, tt)
first_free_cases (suc left) k taken = elim (Bool-cases (contains k taken)) [
  | inr free ↦
      let at_k : k ≡ k + 0 = omega arith in
      inr (0, rw free (rw (← at_k)), omega arith, rw (← at_k) free, tt)
  | inl full ↦ elim (first_free_cases left (k + 1) taken) [
    | inl (e, all) ↦ inl (rw full e, (full, all))
    | inr (d, e, lt, free, all) ↦
        let at_d : k + 1 + d ≡ k + suc d = omega arith in
        inr (suc d, rw full (rw at_d at e), omega arith, rw at_d at free, (full, all))
  ]
]

-- What a round of `acquire` finds, after the clean-up that it begins with.
module _ (alive : Option ℕ → Bool) (key : String) (limit lease now : ℕ) (owner : Owner)
    (t : List Slot) where
  abbrev pub round : Option Token × List Slot
  round = try_acquire alive key limit lease owner now t

  abbrev pub live : List ℕ
  live = occupied key (cleanup_stale alive now t)

  -- A round of `acquire` gets the lowest slot below the limit that no live lease of the key holds,
  -- and its lease counts from then on; it gets nothing only if live leases hold them all, and then
  -- it adds no row.
  pub try_acquire_cases :
      ((n : ℕ) × (round.0 ≡ some (record { key = key; slot = n; owner = owner }))
        × (n < limit)
        × (contains n live ≡ false)
        × AllTaken n 0 live
        × (count (of_key key) round.1 ≡ count (of_key key) (cleanup_stale alive now t) + 1))
      ⊎ ((round.0 ≡ none) × AllTaken limit 0 live × (round.1 ≡ cleanup_stale alive now t))
  unfolding try_acquire
  try_acquire_cases = elim (first_free_cases limit 0 live) [
    | inl (e, all) ↦ inr (rw (e, try_acquire), all, rw (e, try_acquire))
    | inr (d, e, lt, free, all) ↦
        let at_d : 0 + d ≡ d = omega arith in
        let e' : first_free limit 0 live ≡ some d = rw at_d at e in
        inl (
          d,
          rw (e', try_acquire),
          lt,
          rw at_d at free,
          all,
          rw (e', try_acquire) (rw (count-append, eq_refl)),
        )
  ]

contains_of_AllTaken :
    (left k n : ℕ) (taken : List ℕ)
    → AllTaken left k taken
    → k ≤ n
    → n < k + left
    → contains n taken ≡ true
contains_of_AllTaken zero k n taken h le lt = absurd (omega arith)
contains_of_AllTaken (suc left) k n taken h le lt = elim (Bool-cases (k == n)) [
  | inl same ↦ let e : k ≡ n = ground arith in rw e at h.0
  | inr other ↦ contains_of_AllTaken left (k + 1) n taken h.1 (ground arith) (omega arith)
]

apart : (m n : ℕ) (xs : List ℕ) → contains m xs ≡ false → contains n xs ≡ true → (m == n) ≡ false
apart m n xs f t = elim (Bool-cases (m == n)) [
  | inl e ↦ let same : m ≡ n = ground arith in absurd (cc)
  | inr e ↦ e
]

module _ (token : Token) where
  held :
      (t : List Slot)
      → 0 < count (is_lease_of token) t
      → contains token.slot (occupied token.key t) ≡ true
  held [] h = absurd (omega arith)
  held (s ∷ t) h = ground (arith, held t)

  frees :
      (t : List Slot)
      → Distinct (occupied token.key t)
      → 0 < count (is_lease_of token) t
      → contains token.slot (occupied token.key (delete (is_lease_of token) t)) ≡ false
  frees [] d h = absurd (omega arith)
  frees (s ∷ t) d h = elim (Bool-cases (of_key token.key s)) [
    | inr other ↦ rw other (rw other (frees t (rw other at d) (ground arith)))
    | inl mine ↦
        let now : Distinct (s.slot ∷ occupied token.key t) = rw mine at d in
        elim (Bool-cases (is_lease_of token s)) [
          | inl lease ↦
              let same : s.slot ≡ token.slot = ground arith in
              rw lease (
                contains-occupied-delete token.key (is_lease_of token) token.slot t
                  (rw same at now.0))
          | inr another ↦
              let in_t : 0 < count (is_lease_of token) t = ground arith in
              let there = held t in_t in
              let differ = apart s.slot token.slot (occupied token.key t) now.0 there in
              rw another (rw mine (rw differ (frees t now.1 in_t)))
        ]
  ]

free_after_cleanup :
    (alive : Option ℕ → Bool) (key : String) (n now : ℕ) (t : List Slot)
    → contains n (occupied key t) ≡ false
    → contains n (occupied key (cleanup_stale alive now t)) ≡ false
unfolding cleanup_stale
free_after_cleanup alive key n now t h =
    contains-occupied-delete key _ n _ (contains-occupied-delete key _ n t h)

-- Where the slots of the key are distinct, a lease that is in the table can be given back, and then
-- some slot of the key is free: the next round of `acquire`, by any process with a limit above that
-- slot, does not fail.
pub release_then_acquire :
    (alive : Option ℕ → Bool) (token : Token) (limit lease now : ℕ) (owner : Owner) (t : List Slot)
    → Distinct (occupied token.key t)
    → 0 < count (is_lease_of token) t
    → token.slot < limit
    → ((release token t).0 ≡ true)
      × ((try_acquire alive token.key limit lease owner now (release token t).1).0 ≢ none)
unfolding release
release_then_acquire alive token limit lease now owner t d present lt =
    let after = delete (is_lease_of token) t in
    let free = frees token t d present in
    (
      ground arith,
      elim (try_acquire_cases alive token.key limit lease now owner after) [
        | inl (n, e, _, _, _, _) ↦ rw e (λ x. cc)
        | inr (e, all, _) ↦
            let taken = contains_of_AllTaken limit 0 token.slot _ all (omega arith) (omega arith) in
            let still_free = free_after_cleanup alive token.key token.slot now after free in
            absurd (cc)
      ],
    )
