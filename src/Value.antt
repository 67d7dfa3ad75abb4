-- ===== src/Value.antt =====
-- The values that cross the program's boundaries as JSON: what `json.loads` returns, and what the
-- program passes to `json.dumps`. `float h` is the float h / 2^1074, which any float has that is neither
-- negative nor infinite; the others are left out. `neg n` is the integer -(n + 1), and `instant t` the ISO
-- text of an instant.
use eyle.Base.Dict.{member}
use Prim.Native.Nat.{◌^◌}
use eyle.Base.{
  List, is_none, ℕ, ◌*◌, String, ◌≡◌, Bool, true, false, not, Option, none, some, arith, ◌==◌,
  if◌then◌else◌, str_eq, eq_iff, suc, ◌&&◌, refl,
}

mutual
  pub data Value : Type 0 where
    null : Value
    bool : Bool → Value
    num neg float : ℕ → Value
    text : String → Value
    instant : ℕ → Value
    arr : Items → Value
    obj : Fields → Value

  -- A dict, in the order of insertion.
  pub data Fields : Type 0 where
    end : Fields
    field : String → Value → Fields → Fields

  pub data Items : Type 0 where
    nil : Items
    cons : Value → Items → Items

-- `d.get(key)`, with `none` for a missing key.
unfoldable pub lookup : String → Fields → Option Value
lookup key end = none
lookup key (field k v d) = if str_eq k key then some v else lookup key d

-- `d[key] = v`: a key that is there keeps its place.
unfoldable pub put : String → Value → Fields → Fields
put key v end = field key v end
put key v (field k w d) = if str_eq k key then field k v d else field k w (put key v d)

-- `d.update(patch)`.
unfoldable pub merge : Fields → Fields → Fields
merge d end = d
merge d (field k v patch) = merge (put k v d) patch

-- The float 1.0.
abbrev pub one_float : ℕ
one_float = 2 ^ 1074

-- `bool(v)`.
unfoldable pub truthy : Value → Bool
truthy null = false
truthy (bool b) = b
truthy (num n) = not (n == 0)
truthy (neg n) = true
truthy (float h) = not (h == 0)
truthy (text s) = not (str_eq s "")
truthy (instant t) = true
truthy (arr nil) = false
truthy (arr (cons v xs)) = true
truthy (obj end) = false
truthy (obj (field k v d)) = true

-- `v == n` for an integer n, which in Python also holds of a bool and of a float.
unfoldable pub equals_num : Value → ℕ → Bool
equals_num (bool true) n = n == 1
equals_num (bool false) n = n == 0
equals_num (num m) n = m == n
equals_num (float h) n = h == n * one_float
equals_num _ n = false

pub lookup-put :
    (j k : String) (v : Value) (d : Fields)
    → lookup j (put k v d) ≡ (if str_eq k j then some v else lookup j d)
unfolding lookup put
lookup-put j k v end = ground arith
lookup-put j k v (field i w d) =
    ground (arith, eq_iff i k, eq_iff i j, eq_iff k j, lookup-put j k v d)

-- `len(d)`.
unfoldable pub entries : Fields → ℕ
entries end = 0
entries (field k v d) = suc (entries d)

-- `v == w`. Dicts are compared by key, whatever their order.
unfoldable mutual
  pub same_value : Value → Value → Bool
  same_value null null = true
  same_value (bool true) w = equals_num w 1
  same_value (bool false) w = equals_num w 0
  same_value (num n) w = equals_num w n
  same_value (neg n) (neg m) = n == m
  same_value (float h) (float g) = h == g
  same_value (float h) (num n) = h == n * one_float
  same_value (float h) (bool true) = h == one_float
  same_value (float h) (bool false) = h == 0
  same_value (text s) (text t) = str_eq s t
  same_value (instant s) (instant t) = s == t
  same_value (arr xs) (arr ys) = same_items xs ys
  same_value (obj d) (obj e) = entries d == entries e && within d e
  same_value _ _ = false

  pub same_items : Items → Items → Bool
  same_items nil nil = true
  same_items (cons v xs) (cons w ys) = same_value v w && same_items xs ys
  same_items _ _ = false

  -- Each key of the first dict has an equal value in the second.
  pub within : Fields → Fields → Bool
  within end e = true
  within (field k v d) e =
      elim (lookup k e) [ none ↦ false | some w ↦ same_value v w ] && within d e

pub same_value-end : same_value (obj end) (obj end) ≡ true
unfolding same_value entries
same_value-end = refl

-- `k in d`
unfoldable pub has_key : String → Fields → Bool
has_key k d = not (is_none (lookup k d))

-- `set(value) <= allowed`
unfoldable pub keys_within : List String → Fields → Bool
keys_within allowed end = true
keys_within allowed (field k v d) = member k allowed && keys_within allowed d

-- `str(v)`; `repr` stands for what `str` makes of a value that is no text.
abbrev pub str_of : (Value → String) → Value → String
str_of repr (text s) = s
str_of repr v = repr v
