-- ===== src/Limiter/Bound.antt =====
-- eyle/runtime/limiter.py: the semaphore never has more holders than its limit, however many
-- processes take, lose and return leases.
use eyle.Limiter.Slots.{Fits, Fits-occupied-delete, Fits-length, first_free-found, Fits-snoc}
use eyle.Limiter.{
  cleanup_stale, try_acquire, Slot, occupied, Owner, count, release, of_key, Token, first_free,
}
use mathlib.Core.List.{append-nil}
use eyle.Base.{
  ℕ, String, List, Option, Bool, [], length, max, ◌++◌, ◌≡◌, ◌∷◌, ◌≤◌, Option-cases, arith, refl,
  inl, inr, Bool-cases, str_eq, eq_iff, subst,
}

-- What a process may do to the table, one transaction each: a round of `acquire` by some process
-- whose limit for the key is at most `limit key`, a `release` of any token, a clean-up.
module _ (limit : String → ℕ) where
  pub data Step : List Slot → List Slot → Type 0 where
    acquire :
        (alive : Option ℕ → Bool) (key : String) (bound lease now : ℕ) (owner : Owner)
        (t : List Slot)
        → max 1 bound ≤ limit key
        → Step t (try_acquire alive key (max 1 bound) (max 1_000_000 lease) owner now t).1
    give_back : (token : Token) (t : List Slot) → Step t (release token t).1
    clean : (alive : Option ℕ → Bool) (now : ℕ) (t : List Slot) → Step t (cleanup_stale alive now t)

  pub data Steps (t : List Slot) : List Slot → Type 0 where
    here : Steps t t
    next : {u v : List Slot} → Steps t u → Step u v → Steps t v

  abbrev pub IsBounded : List Slot → Type 0
  IsBounded t = (key : String) → Fits (limit key) (occupied key t)

  cleanup-IsBounded :
      (alive : Option ℕ → Bool) (now : ℕ) (t : List Slot)
      → IsBounded t
      → IsBounded (cleanup_stale alive now t)
  unfolding cleanup_stale
  cleanup-IsBounded alive now t h key =
      Fits-occupied-delete key _ (limit key) _ (Fits-occupied-delete key _ (limit key) t (h key))

  occupied-append :
      (key : String) (t u : List Slot) → occupied key (t ++ u) ≡ occupied key t ++ occupied key u
  occupied-append key [] u = refl
  occupied-append key (s ∷ t) u = ground (arith, occupied-append key t u)

  try_acquire-IsBounded :
      (alive : Option ℕ → Bool) (key : String) (bound lease now : ℕ) (owner : Owner) (t : List Slot)
      → bound ≤ limit key
      → IsBounded t
      → IsBounded (try_acquire alive key bound lease owner now t).1
  unfolding try_acquire
  try_acquire-IsBounded alive key bound lease now owner t le h other =
      let kept = cleanup-IsBounded alive now t h other in
      elim (Option-cases (first_free bound 0 (occupied key (cleanup_stale alive now t)))) [
        | inl e ↦ rw (e, try_acquire) kept
        | inr (n, e) ↦
            rw (e, try_acquire)
              (rw occupied-append (elim (Bool-cases (str_eq key other)) [
                | inl same ↦
                    let k : key ≡ other = ground (arith, eq_iff key other) in
                    let found = first_free-found bound 0 n _ e in
                    rw same (
                      subst (λ x. Fits (limit x) (occupied x (cleanup_stale alive now t) ++ n ∷ []))
                        k
                        (Fits-snoc (limit key) n _ (cleanup-IsBounded alive now t h key)
                          (omega arith) found.2))
                | inr differs ↦ rw differs (rw append-nil kept)
              ]))
      ]

  Step-IsBounded : {t u : List Slot} → Step t u → IsBounded t → IsBounded u
  Step-IsBounded (acquire alive key bound lease now owner t le) h =
      try_acquire-IsBounded alive key (max 1 bound) (max 1_000_000 lease) now owner t le h
  Step-IsBounded (give_back token t) h =
      λ key. unfold release in Fits-occupied-delete key _ (limit key) t (h key)
  Step-IsBounded (clean alive now t) h = cleanup-IsBounded alive now t h

  Steps-IsBounded : {t u : List Slot} → IsBounded t → Steps t u → IsBounded u
  Steps-IsBounded h here = h
  Steps-IsBounded h (next r s) = Step-IsBounded s (Steps-IsBounded h r)

  length-occupied : (key : String) (t : List Slot) → length (occupied key t) ≡ count (of_key key) t
  length-occupied key [] = refl
  length-occupied key (s ∷ t) = ground (arith, length-occupied key t)

  -- Starting from an empty table, whatever processes acquire, release, die or let expire, and in
  -- whatever order, a key never has more leases than the largest limit that is asked for it.
  pub count-le-limit :
      (key : String) (t : List Slot) → Steps [] t → count (of_key key) t ≤ limit key
  count-le-limit key t h =
      let fits = Steps-IsBounded (λ k. (tt, tt)) h key in
      omega (arith, Fits-length (limit key) (occupied key t) fits, length-occupied key t)
