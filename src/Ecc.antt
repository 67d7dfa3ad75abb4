-- ===== src/Ecc.antt =====
-- eyle/core/ecc.py: the names under which the model calls the capabilities of a registry. The
-- registry is an argument: what it answers about a capability, and its sorted names.
pub mod Names
pub mod Reachable
pub mod Callable
mod Tests
use eyle.Base.Table.{count}
use eyle.Base.Text.{strip}
use eyle.Base.Dict.{Dict, get, member, enter}
use Prim.Native.String.{◌++◌ as str_append}
use eyle.Base.{
  ℕ, Bool, List, Option, String, if◌then◌else◌, or_else, true, ◌&&◌, [], false, some, str_eq, ◌∷◌,
  none, not, ◌==◌,
}

pub data Family : Type 0 where
  explorar construir : Family

abbrev pub same_family : Family → Family → Bool
same_family explorar explorar = true
same_family construir construir = true
same_family _ _ = false

-- `registry.spec(c)`, `provider_for(c)` and `local_name(c)`, with what `_candidate_name` puts for a
-- missing one. A missing alias is "".
pub record Spec : Type 0 where
  pub effect : String
  pub ecc_name : String
  pub ecc_hidden : Bool
  pub provider : String
  pub local : String

-- `names` is `sorted({str(v) for v in registry.names()})`.
pub record Registry : Type 0 where
  pub names : List String
  pub spec : String → Spec

-- `capability_family`
unfoldable pub family_of : Registry → String → Family
family_of reg c = if str_eq (reg.spec c).effect "mutate" then construir else explorar

unfoldable pub fallback_of : Registry → String → String
fallback_of reg c = str_append (reg.spec c).provider (str_append "." (reg.spec c).local)

unfoldable pub short_of : Registry → String → String
short_of reg c =
    let alias = strip (reg.spec c).ecc_name in if str_eq alias "" then fallback_of reg c else alias

abbrev pub same_key : Registry → String → String → Bool
same_key reg c d =
    same_family (family_of reg d) (family_of reg c) && str_eq (short_of reg d) (short_of reg c)

-- `_stable_public_names(registry)[c]`: the count is of the capabilities with the same key.
unfoldable pub stable_name : Registry → String → String
stable_name reg c =
    if count (same_key reg c) reg.names == 1 then short_of reg c else fallback_of reg c

-- `_stable_public_names(registry).get(c)`
unfoldable pub stable_get : Registry → String → Option String
stable_get reg c = if member c reg.names then some (stable_name reg c) else none

-- `public_name`, with a registry.
unfoldable pub public_name : Registry → String → String
public_name reg c = or_else (stable_get reg c) c

abbrev pub publish : Option String → String → Dict String → Dict String
publish none c out = out
publish (some p) c out = if str_eq p "" then out else enter p c out

-- The loop of `operation_map`, over `sorted(allowed)`.
unfoldable pub map_loop : Registry → Family → List String → Dict String → Dict String
map_loop reg family [] out = out
map_loop reg family (c ∷ cs) out =
    let out' =
      if same_family (family_of reg c) family && not (reg.spec c).ecc_hidden
      then publish (stable_get reg c) c out
      else out in
    map_loop reg family cs out'

unfoldable pub operation_map : Registry → List String → Family → Dict String
operation_map reg available family = map_loop reg family available []

unfoldable pub resolve : String → Family → Registry → List String → Option String
resolve operation family reg available = get (strip operation) (operation_map reg available family)
