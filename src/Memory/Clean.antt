-- ===== src/Memory/Clean.antt =====
-- eyle/runtime/memory_graph.py: the fields of an operation, made canonical. `casefold` and `repr` stand
-- for the methods of `str`.
use mathlib.Core.Option
use Prim.Native.Char.{Char, code}
use Prim.Native.String.{String, [] as empty, ◌∷◌ as ◌▸◌, ◌++◌ as ◌<>◌}
use package.text.Mathlib.Text.{starts_with}
use eyle.Base.Dict.{member}
use eyle.Base.Text.{strip, size}
use eyle.Value.{Value, Fields, Items, null, text, arr, obj, nil, cons}
use eyle.Value.{end, field, lookup, truthy, str_of, keys_within}
use eyle.Epistemic.{
  EpistemicError, invalid, fields_invalid, nature_invalid, confidence_invalid, volatility_invalid,
  temporal_invalid, context_invalid, absent, accepted, refused, normalize_epistemic,
}
use eyle.Memory.{Recall, Try, done, raised, ◌>>=◌, demand, the}
use eyle.Base.{
  Option, none, some, List, [], ◌∷◌, ◌++◌, Bool, if◌then◌else◌, str_eq, true, ℕ, false, leb, not,
  ◌&&◌, ◌||◌, ltb, ◌==◌,
}

-- `str(v or "")`
unfoldable pub text_of : (Value → String) → Option Value → String
unfolding truthy
text_of repr none = ""
text_of repr (some v) = if truthy v then str_of repr v else ""

-- `text or None`
unfoldable pub or_none : String → Option String
or_none s = if str_eq s "" then none else some s

unfoldable pub within_maximum : String → Option ℕ → Bool
unfolding size
within_maximum s none = true
within_maximum s (some n) = leb (size s) n

-- `_clean_text`, with the largest size.
unfoldable pub clean_text : (Value → String) → Option Value → String → Option ℕ → Try String
unfolding text_of strip within_maximum
clean_text repr v code maximum = do
  let s = strip (text_of repr v)
  _ ← demand (not (str_eq s "")) ("MEMORY_" <> (code <> "_EMPTY"))
  _ ← demand (within_maximum s maximum) ("MEMORY_" <> (code <> "_TOO_LARGE"))
  done s

-- The items that a `for` loop gets from a value; `none` where it cannot be iterated.
unfoldable pub characters : String → Items
characters empty = nil
characters (c ▸ s) = cons (text (c ▸ "")) (characters s)

unfoldable pub keys_of : Fields → Items
keys_of end = nil
keys_of (field k v d) = cons (text k) (keys_of d)

unfoldable pub iterate : Option Value → Option Items
unfolding truthy characters keys_of
iterate none = some nil
iterate (some (arr xs)) = some xs
iterate (some (obj d)) = some (keys_of d)
iterate (some (text s)) = some (characters s)
iterate (some v) = if truthy v then none else some nil

module _ (casefold : String → String) where
  -- The tags that are left, after those whose folded form is in `seen`.
  unfoldable pub tags_loop : (Value → String) → List String → Items → List String
  unfolding text_of strip member
  tags_loop repr seen nil = []
  tags_loop repr seen (cons raw rest) =
      let tag = strip (text_of repr (some raw)) in
      elim (str_eq tag "" || member (casefold tag) seen) [
        | true ↦ tags_loop repr seen rest
        | false ↦ tag ∷ tags_loop repr (casefold tag ∷ seen) rest
      ]

  unfoldable pub clean_tags : (Value → String) → Option Value → Try (List String)
  unfolding iterate tags_loop
  clean_tags repr v = elim (iterate v) [
    | none ↦ raised "TypeError"
    | some xs ↦ done (tags_loop repr [] xs)
  ]

  -- The cues of one key.
  unfoldable pub cues_loop : List String → Items → Option (List String)
  unfolding strip member
  cues_loop seen nil = some []
  cues_loop seen (cons (text s) rest) =
      let cue = strip s in
      elim (str_eq cue "") [
        | true ↦ none
        | false ↦ elim (member (casefold cue) seen) [
          | true ↦ cues_loop seen rest
          | false ↦ Option.map (λ cues. cue ∷ cues) (cues_loop (casefold cue ∷ seen) rest)
        ]
      ]
  cues_loop seen (cons raw rest) = none

  unfoldable pub cues_of : Option Value → Option (List String)
  unfolding cues_loop
  cues_of none = some []
  cues_of (some null) = some []
  cues_of (some (arr xs)) = cues_loop [] xs
  cues_of (some v) = none

  -- `_clean_recall_metadata`
  unfoldable pub clean_recall_metadata : Option Value → Try Recall
  unfolding cues_of keys_within lookup the
  clean_recall_metadata none = done (record { aliases = []; concepts = []; cues = [] })
  clean_recall_metadata (some null) = done (record { aliases = []; concepts = []; cues = [] })
  clean_recall_metadata (some (obj d)) = do
    let known = keys_within ("aliases" ∷ "concepts" ∷ "cues" ∷ []) d
    _ ← demand known "MEMORY_RECALL_METADATA_INVALID"
    aliases ← the (cues_of (lookup "aliases" d)) "MEMORY_RECALL_METADATA_INVALID"
    concepts ← the (cues_of (lookup "concepts" d)) "MEMORY_RECALL_METADATA_INVALID"
    cues ← the (cues_of (lookup "cues" d)) "MEMORY_RECALL_METADATA_INVALID"
    done (record { aliases = aliases; concepts = concepts; cues = cues })
  clean_recall_metadata (some v) = raised "MEMORY_RECALL_METADATA_INVALID"

  unfoldable pub fold_all : List String → List String
  fold_all [] = []
  fold_all (s ∷ ss) = casefold s ∷ fold_all ss

  -- The values whose folded form is not among the removed.
  unfoldable pub removed : List String → List String → List String
  unfolding member
  removed gone [] = []
  removed gone (s ∷ ss) =
      let rest = removed gone ss in if member (casefold s) gone then rest else s ∷ rest

  -- The new values whose folded form is not there, at the end.
  unfoldable pub added : List String → List String → List String
  unfolding member fold_all
  added values [] = values
  added values (s ∷ ss) = elim (member (casefold s) (fold_all values)) [
    | true ↦ added values ss
    | false ↦ added (values ++ s ∷ []) ss
  ]

  unfoldable pub merged : List String → List String → List String → List String
  unfolding removed added fold_all
  merged base remove add = added (removed (fold_all remove) base) add

  -- `_merge_recall_metadata`; what is stored is clean.
  unfoldable pub merge_recall_metadata :
      Recall → Option Value → Option Value → Option Value → Try Recall
  unfolding clean_recall_metadata merged
  merge_recall_metadata current replacement additions removals = do
    base ← replaced replacement
    add ← clean_recall_metadata additions
    remove ← clean_recall_metadata removals
    done (record {
      aliases = merged base.aliases remove.aliases add.aliases;
      concepts = merged base.concepts remove.concepts add.concepts;
      cues = merged base.cues remove.cues add.cues;
    })
    where
      replaced : Option Value → Try Recall
      replaced none = done current
      replaced (some null) = done current
      replaced (some v) = clean_recall_metadata (some v)

unfoldable pub epistemic_code : EpistemicError → String
epistemic_code invalid = "MEMORY_EPISTEMIC_INVALID"
epistemic_code fields_invalid = "MEMORY_EPISTEMIC_FIELDS_INVALID"
epistemic_code nature_invalid = "MEMORY_EPISTEMIC_NATURE_INVALID"
epistemic_code confidence_invalid = "MEMORY_EPISTEMIC_CONFIDENCE_INVALID"
epistemic_code volatility_invalid = "MEMORY_EPISTEMIC_VOLATILITY_INVALID"
epistemic_code temporal_invalid = "MEMORY_EPISTEMIC_TEMPORAL_INVALID"
epistemic_code context_invalid = "MEMORY_EPISTEMIC_CONTEXT_INVALID"

-- `_clean_epistemic`
unfoldable pub clean_epistemic : Value → Try Fields
unfolding normalize_epistemic epistemic_code
clean_epistemic v = elim (normalize_epistemic true v) [
  | absent ↦ done end
  | accepted d ↦ done d
  | refused e ↦ raised (epistemic_code e)
]

-- `[A-Za-z0-9._-]`
unfoldable pub is_id_char : Char → Bool
is_id_char ch =
    let c = code ch in
    (leb b'A' c && leb c b'Z')
    || (leb b'a' c && leb c b'z')
    || (leb b'0' c && leb c b'9')
    || c == b'.'
    || c == b'_'
    || c == b'-'

unfoldable pub all_id_chars : String → Bool
unfolding is_id_char
all_id_chars empty = true
all_id_chars (c ▸ s) = is_id_char c && all_id_chars s

-- `_MEM_ID_RE` and `_REL_ID_RE`, by the prefix.
unfoldable pub is_id : String → String → Bool
unfolding all_id_chars size
is_id prefix s = starts_with s prefix && ltb (size prefix) (size s) && all_id_chars s
