-- ===== src/Workspace/Patch.antt =====
-- eyle/providers/standard/transactions.py: the shape of a patch. `repr` stands for what `str` makes of
-- a value that is no text; `none` is an error that is raised, ValueError or TypeError.
use Prim.Native.String.{String}
use Prim.Native.Nat.{◌/◌}
use eyle.Base.Dict.{member}
use eyle.Base.Text.{strip}
use eyle.Base.Chars.{lower, replace_char}
use eyle.Base.Int.{ℤ, pos, negsuc, int_text}
use eyle.Value.{Value, Fields, bool, num, neg, float, text, obj, one_float}
use eyle.Value.{lookup, truthy, str_of, keys_within}
use eyle.Base.{Option, none, some, ◌>>=◌, List, [], ◌∷◌, true, false, if◌then◌else◌, str_eq}

-- What a patch does; the hashes are those of the file and of the range that were observed.
pub data Change : Type 0 where
  update : ℤ → ℤ → String → String → String → Change
  replace : String → String → Change
  create delete : String → Change

pub record Patch : Type 0 where
  pub path : String
  pub change : Change

-- `int(v)`
unfoldable pub int_of : Value → Option ℤ
unfolding int_text
int_of (bool true) = some (pos 1)
int_of (bool false) = some (pos 0)
int_of (num n) = some (pos n)
int_of (neg n) = some (negsuc n)
int_of (float h) = some (pos (h / one_float))
int_of (text s) = int_text s
int_of _ = none

-- `str(raw.get(key) or "")`
unfoldable pub text_or_empty : (Value → String) → Option Value → String
unfolding truthy
text_or_empty repr none = ""
text_or_empty repr (some v) = if truthy v then str_of repr v else ""

unfoldable pub path_of : Value → Option String
unfolding strip replace_char
path_of (text s) = if str_eq (strip s) "" then none else some (replace_char b'\\' "/" (strip s))
path_of _ = none

unfoldable pub content_of : Value → Option String
content_of (text s) = some s
content_of _ = none

-- A change, and the fields of its patch next to the operation and the path.
abbrev pub Shape : Type 0
Shape = Change × List String

module _ (repr : Value → String) (raw : Fields) where
  unfoldable pub update_of : Option Shape
  unfolding int_of
  update_of = do
    line_start ← lookup "line_start" raw
    line_end ← lookup "line_end" raw
    new_code ← lookup "new_code" raw
    file_hash ← lookup "file_hash_expected" raw
    range_hash ← lookup "range_hash_expected" raw
    first ← int_of line_start
    last ← int_of line_end
    some (
      update first last (str_of repr new_code) (str_of repr file_hash) (str_of repr range_hash),
      "line_start" ∷ "line_end" ∷ "new_code" ∷ "file_hash_expected" ∷ "range_hash_expected" ∷ [],
    )

  unfoldable pub replace_of : Option Shape
  unfolding content_of
  replace_of = do
    v ← lookup "content" raw
    content ← content_of v
    file_hash ← lookup "file_hash_expected" raw
    some (replace content (str_of repr file_hash), "content" ∷ "file_hash_expected" ∷ [])

  unfoldable pub create_of : Option Shape
  unfolding content_of
  create_of = do
    v ← lookup "content" raw
    content ← content_of v
    some (create content, "content" ∷ [])

  unfoldable pub delete_of : Option Shape
  delete_of = do
    file_hash ← lookup "file_hash_expected" raw
    some (delete (str_of repr file_hash), "file_hash_expected" ∷ [])

  unfoldable pub shape_of : String → Option Shape
  unfolding update_of replace_of create_of delete_of
  shape_of operation =
      if str_eq operation "update"
      then update_of
      else if str_eq operation "replace"
      then replace_of
      else if str_eq operation "create"
      then create_of
      else if str_eq operation "delete"
      then delete_of
      else none

-- `_normalize_patch`
unfoldable pub normalize_patch : (Value → String) → Value → Option Patch
unfolding text_or_empty lower strip lookup path_of shape_of keys_within member
normalize_patch repr (obj raw) = do
  v ← lookup "path" raw
  path ← path_of v
  (change, keys) ← shape_of repr raw (lower (strip (text_or_empty repr (lookup "operation" raw))))
  let known = keys_within ("operation" ∷ "path" ∷ keys) raw
  if known then some (record { path = path; change = change }) else none
normalize_patch repr _ = none
