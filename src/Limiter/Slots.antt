-- ===== src/Limiter/Slots.antt =====
-- eyle/runtime/limiter.py: distinct slot numbers below a limit, and how the statements keep them so.
use eyle.Limiter.{first_free, contains, delete, Slot, occupied, of_key}
use eyle.Base.{
  ℕ, List, All, length, suc, ◌<◌, ◌∷◌, ◌≡◌, false, some, ◌≤◌, [], arith, ◌++◌, ◌+◌, ◌==◌,
  Bool-cases, refl, inl, inr, zero, String, Bool,
}

abbrev pub Distinct : List ℕ → Type 0
Distinct [] = Unit
Distinct (x ∷ xs) = (contains x xs ≡ false) × Distinct xs

-- Distinct numbers below `n`.
abbrev pub Fits : ℕ → List ℕ → Type 0
Fits n xs = Distinct xs × All (λ x. x < n) xs

contains-delete :
    (x n : ℕ) (xs : List ℕ) → contains x xs ≡ false → contains x (delete (λ y. y == n) xs) ≡ false
contains-delete x n [] h = refl
contains-delete x n (y ∷ xs) h = ground (arith, contains-delete x n xs)

delete_absent : (n : ℕ) (xs : List ℕ) → contains n xs ≡ false → delete (λ y. y == n) xs ≡ xs
delete_absent n [] h = refl
delete_absent n (y ∷ xs) h = ground (arith, delete_absent n xs)

Fits-delete : (n : ℕ) (xs : List ℕ) → Fits (suc n) xs → Fits n (delete (λ y. y == n) xs)
Fits-delete n [] h = (tt, tt)
Fits-delete n (x ∷ xs) h =
    let rest = Fits-delete n xs (h.0.1, h.1.1) in
    elim (Bool-cases (x == n)) [
      | inl e ↦ rw e rest
      | inr e ↦ rw e ((contains-delete x n xs h.0.0, rest.0), (ground arith, rest.1))
    ]

length-delete-ge :
    (n : ℕ) (xs : List ℕ) → Distinct xs → length xs ≤ suc (length (delete (λ y. y == n) xs))
length-delete-ge n [] h = omega arith
length-delete-ge n (x ∷ xs) h = elim (Bool-cases (x == n)) [
  | inl e ↦
      let same : x ≡ n = ground arith in
      rw e (rw (delete_absent n xs (rw same at h.0)) (omega arith))
  | inr e ↦ rw e (omega (arith, length-delete-ge n xs h.1))
]

-- The pigeonhole principle.
pub Fits-length : (n : ℕ) (xs : List ℕ) → Fits n xs → length xs ≤ n
Fits-length zero [] h = omega arith
Fits-length zero (x ∷ xs) h = absurd (omega arith)
Fits-length (suc n) xs h =
    omega (
      arith,
      length-delete-ge n xs h.0,
      Fits-length n (delete (λ y. y == n) xs) (Fits-delete n xs h),
    )

-- What a search from `k` finds is free and within the range.
pub first_free-found :
    (left k n : ℕ) (taken : List ℕ)
    → first_free left k taken ≡ some n
    → (k ≤ n) × (n < k + left) × (contains n taken ≡ false)
unfolding first_free
first_free-found zero k n taken e = absurd (cc)
first_free-found (suc left) k n taken e = elim (Bool-cases (contains k taken)) [
  | inl t ↦
      let found = first_free-found left (k + 1) n taken (rw t at e) in
      (omega arith, omega arith, found.2)
  | inr f ↦ let same : k ≡ n = ground arith in (omega arith, omega arith, rw same at f)
]

pub Fits-snoc :
    (n x : ℕ) (xs : List ℕ) → Fits n xs → x < n → contains x xs ≡ false → Fits n (xs ++ x ∷ [])
Fits-snoc n x [] h lt free = ((refl, tt), (lt, tt))
Fits-snoc n x (y ∷ xs) h lt free =
    let rest = Fits-snoc n x xs (h.0.1, h.1.1) lt (ground arith) in
    ((contains_snoc xs h.0.0, rest.0), (h.1.0, rest.1))
  where
    contains_snoc : (zs : List ℕ) → contains y zs ≡ false → contains y (zs ++ x ∷ []) ≡ false
    contains_snoc [] e = ground arith
    contains_snoc (z ∷ zs) e = ground (arith, contains_snoc zs)

-- A DELETE keeps a key's rows distinct and below the limit.
pub contains-occupied-delete :
    (key : String) (p : Slot → Bool) (n : ℕ) (t : List Slot)
    → contains n (occupied key t) ≡ false
    → contains n (occupied key (delete p t)) ≡ false
contains-occupied-delete key p n [] h = refl
contains-occupied-delete key p n (s ∷ t) h = ground (arith, contains-occupied-delete key p n t)

pub Fits-occupied-delete :
    (key : String) (p : Slot → Bool) (n : ℕ) (t : List Slot)
    → Fits n (occupied key t)
    → Fits n (occupied key (delete p t))
Fits-occupied-delete key p n [] h = h
Fits-occupied-delete key p n (s ∷ t) h = elim (Bool-cases (of_key key s)) [
  | inr other ↦
      let rest = Fits-occupied-delete key p n t (rw other at h) in
      elim (Bool-cases (p s)) [ inl gone ↦ rw gone rest | inr kept ↦ rw kept (rw other rest) ]
  | inl mine ↦
      let now : Fits n (s.slot ∷ occupied key t) = rw mine at h in
      let rest = Fits-occupied-delete key p n t (now.0.1, now.1.1) in
      elim (Bool-cases (p s)) [
        | inl gone ↦ rw gone rest
        | inr kept ↦
            rw kept (
              rw mine
                ((contains-occupied-delete key p s.slot t now.0.0, rest.0), (now.1.0, rest.1)))
      ]
]
