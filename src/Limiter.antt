-- ===== src/Limiter.antt =====
-- eyle/runtime/limiter.py: a semaphore between processes, kept in a table of leases.
pub mod Slots
pub mod Bound
pub mod Grant
mod Tests
use eyle.Base.Table.{delete, count, select}
use mathlib.Core.Option
use eyle.Base.{
  ℕ, Bool, List, Option, String, any, leb, length, ltb, map, none, some, str_eq, ◌==◌, not, suc,
  ◌&&◌, ◌++◌, ◌||◌, ◌∷◌, false, if◌then◌else◌, ◌+◌, [], max, zero,
}

-- `f"{os.getpid()}-{threading.get_ident()}-{uuid.uuid4().hex}"`, or a text of another form.
pub data Owner : Type 0 where
  process : (pid thread : ℕ) (uuid : String) → Owner
  unknown : String → Owner

unfoldable pub same_owner : Owner → Owner → Bool
same_owner (process p t u) (process q s v) = p == q && t == s && str_eq u v
same_owner (unknown s) (unknown t) = str_eq s t
same_owner _ _ = false

-- `_owner_pid`
unfoldable pub owner_pid : Owner → Option ℕ
owner_pid (process pid thread uuid) = some pid
owner_pid (unknown s) = none

-- A row of `limiter_slots`. `limiter_key` is the digest of the value that is limited; instants are
-- in microseconds.
pub record Slot : Type 0 where
  pub limiter_key : String
  pub slot : ℕ
  pub owner : Owner
  pub acquired_at : ℕ
  pub expires_at : ℕ

pub record Token : Type 0 where
  pub key : String
  pub slot : ℕ
  pub owner : Owner

abbrev pub of_key : String → Slot → Bool
of_key key s = str_eq s.limiter_key key

-- The rows of one key, as the numbers of their slots.
abbrev pub occupied : String → List Slot → List ℕ
occupied key t = map (λ s. s.slot) (select (of_key key) t)

abbrev pub contains : ℕ → List ℕ → Bool
contains n xs = any (λ x. x == n) xs

-- next((c for c in range(k, k + left) if c not in occupied), None)
unfoldable pub first_free : ℕ → ℕ → List ℕ → Option ℕ
first_free zero k taken = none
first_free (suc left) k taken =
    let rest = first_free left (k + 1) taken in if contains k taken then rest else some k

-- `pid_ativo` asks the operating system whether a process lives; for no pid it answers no.
module _ (pid_ativo : Option ℕ → Bool) where
  abbrev pub is_stale : ℕ → Slot → Bool
  is_stale now s = leb s.expires_at now || not (pid_ativo (owner_pid s.owner))

  -- `_cleanup_stale`: the expired leases, and then those whose process is gone.
  unfoldable pub cleanup_stale : ℕ → List Slot → List Slot
  cleanup_stale now t =
      delete (λ s. not (pid_ativo (owner_pid s.owner))) (delete (λ s. leb s.expires_at now) t)

  -- One round of the loop of `acquire`, a transaction.
  unfoldable pub try_acquire : String → ℕ → ℕ → Owner → ℕ → List Slot → Option Token × List Slot
  try_acquire key limit lease owner now t =
      let clean = cleanup_stale now t in
      elim (first_free limit 0 (occupied key clean)) [
        | none ↦ (none, clean)
        | some n ↦ (
          some (record { key = key; slot = n; owner = owner }),
          clean
              ++ record {
                limiter_key = key;
                slot = n;
                owner = owner;
                acquired_at = now;
                expires_at = now + lease;
              }
                ∷ [],
        )
      ]

  -- `active`, of one key and of all.
  unfoldable pub active : ℕ → Option String → List Slot → ℕ
  active now none t = length (cleanup_stale now t)
  active now (some key) t = count (of_key key) (cleanup_stale now t)

-- A round of `acquire`: the clock, whether the database is locked for too long, and what other
-- processes do to the table while this one sleeps.
pub record Round : Type 0 where
  pub now : ℕ
  pub busy : Bool
  pub wait : List Slot → List Slot

module _ (pid_ativo : Option ℕ → Bool) (key : String) (limit lease : ℕ) (owner : Owner) where
  -- The rounds of `acquire`; the last one is that after which no time remains.
  unfoldable pub acquire_rounds : List Round → List Slot → Option Token × List Slot
  acquire_rounds [] t = (none, t)
  acquire_rounds (r ∷ rs) t =
      let (token, after) =
        if r.busy
        then (none, t)
        else try_acquire pid_ativo key (max 1 limit) (max 1_000_000 lease) owner r.now t in
      elim token [ none ↦ acquire_rounds rs (r.wait after) | some got ↦ (some got, after) ]

abbrev pub is_lease_of : Token → Slot → Bool
is_lease_of token s =
    str_eq s.limiter_key token.key && s.slot == token.slot && same_owner s.owner token.owner

-- `release`, of a token that `acquire` gave.
unfoldable pub release : Token → List Slot → Bool × List Slot
release token t = (ltb 0 (count (is_lease_of token) t), delete (is_lease_of token) t)
