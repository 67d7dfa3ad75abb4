-- ===== src/Limiter/Tests.antt =====
-- Small tables of leases.
use eyle.Limiter.Bound.{count-le-limit, next, here, acquire}
use eyle.Limiter.Grant.{round, live, release_then_acquire, AllTaken, try_acquire_cases}
use eyle.Limiter.{
  Owner, Token, acquire_rounds, release, same_owner, try_acquire, Slot, is_lease_of, of_key,
  owner_pid, process, first_free, cleanup_stale, contains, active,
}
use eyle.Base.Table.{count}
use eyle.Base.{
  ℕ, List, Option, ◌<◌, Bool, true, ◌∷◌, ◌≡◌, [], arith, false, max, some, ◌≢◌, none, ◌==◌, ◌≤◌,
  ◌||◌, refl, ◌+◌, ◌⊎◌,
}

abbrev living : Option ℕ → Bool
living none = false
living (some p) = p == 10 || p == 11

abbrev ten : Owner
ten = process 10 1 "a"

abbrev eleven : Owner
eleven = process 11 1 "b"

abbrev gone : Owner
gone = process 99 1 "c"

abbrev lease_of : Owner → ℕ → ℕ → Slot
lease_of o n until = record {
  limiter_key = "llm";
  slot = n;
  owner = o;
  acquired_at = 0;
  expires_at = until;
}

abbrev full_table : List Slot
full_table = lease_of ten 0 50 ∷ lease_of eleven 1 50 ∷ []

program : Unit {0}
unfolding same_owner owner_pid first_free cleanup_stale try_acquire active acquire_rounds release
program = tt

-- The lease of a dead process and an expired one are taken over; a full table refuses.
acquire_runs :
    ((try_acquire living "llm" 2 9 ten 5 (lease_of gone 0 50 ∷ lease_of eleven 1 50 ∷ [])).0
      ≡ some (record { key = "llm"; slot = 0; owner = ten }))
    × ((try_acquire living "llm" 2 9 ten 50 full_table).0
        ≡ some (record { key = "llm"; slot = 0; owner = ten }))
    × ((try_acquire living "llm" 2 9 ten 5 full_table).0 ≡ none)
    × (active living 5 (some "llm") full_table ≡ 2)
unfolding program
acquire_runs = (refl, refl, refl, refl)

-- A locked database costs the round, and the next one succeeds.
acquire_after_busy :
    (acquire_rounds living "llm" 2 9 ten
      (record { now = 1; busy = true; wait = λ t. t }
        ∷ record { now = 2; busy = false; wait = λ t. t }
        ∷ [])
      []).0
    ≡ some (record { key = "llm"; slot = 0; owner = ten })
unfolding program
acquire_after_busy = refl

count-le-limit_example :
    count (of_key "llm") (try_acquire living "llm" 2 (max 1_000_000 9) ten 5 []).1 ≤ 2
count-le-limit_example =
    count-le-limit (λ k. 2) "llm" _ (next here (acquire living "llm" 2 9 5 ten [] (omega arith)))

try_acquire_cases_example :
    ((n : ℕ) × ((round living "llm" 2 9 5 ten full_table).0
        ≡ some (record { key = "llm"; slot = n; owner = ten }))
      × (n < 2)
      × (contains n (live living "llm" 2 9 5 ten full_table) ≡ false)
      × AllTaken n 0 (live living "llm" 2 9 5 ten full_table)
      × (count (of_key "llm") (round living "llm" 2 9 5 ten full_table).1
          ≡ count (of_key "llm") (cleanup_stale living 5 full_table) + 1))
    ⊎ (((round living "llm" 2 9 5 ten full_table).0 ≡ none)
        × AllTaken 2 0 (live living "llm" 2 9 5 ten full_table)
        × ((round living "llm" 2 9 5 ten full_table).1 ≡ cleanup_stale living 5 full_table))
try_acquire_cases_example = try_acquire_cases living "llm" 2 9 5 ten full_table

abbrev first_token : Token
first_token = record { key = "llm"; slot = 0; owner = ten }

held_once : 0 < count (is_lease_of first_token) full_table
unfolding program
held_once = omega arith

release_then_acquire_example :
    ((release first_token full_table).0 ≡ true)
    × ((try_acquire living "llm" 2 9 eleven 5 (release first_token full_table).1).0 ≢ none)
release_then_acquire_example =
    release_then_acquire living first_token 2 9 5 eleven full_table (refl, (refl, tt)) held_once
      (omega arith)
