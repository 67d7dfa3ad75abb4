-- ===== src/Workspace/Paths.antt =====
-- eyle/providers/standard/security.py: which paths of a project may be touched. `realpath` stands for
-- `os.path.realpath`, which follows the links of the disk and gives an absolute path; `none` is an
-- error that it raises. `ntpath.isabs` is that of Python before 3.13.
use Prim.Native.String.{String, [] as empty, ◌∷◌ as ◌▸◌, ◌++◌ as ◌<>◌}
use eyle.Base.Chars.{is_char, split, join, ends_with}
use eyle.Base.{
  ◌>>=◌, List, [], ◌∷◌, ◌≡◌, refl, ◌||◌, Bool, Option, if◌then◌else◌, false, str_eq, none, some,
  ◌++◌, Bool-cases, inl, arith, eq_iff, ap, inr, unguarded_by, bind-some, granted, sym, ◌∙◌,
}

-- `os.path.isabs` or `ntpath.isabs`, or a drive of Windows.
unfoldable pub is_absolute : String → Bool
unfolding is_char
is_absolute empty = false
is_absolute (c ▸ empty) = is_char b'/' c || is_char b'\\' c
is_absolute (c ▸ d ▸ s) = is_char b'/' c || is_char b'\\' c || is_char b':' d

-- The parts of a path that `os.path.commonpath` compares.
unfoldable pub named : List String → List String
named [] = []
named (p ∷ ps) = let rest = named ps in if str_eq p "" || str_eq p "." then rest else p ∷ rest

unfoldable pub parts : String → List String
unfolding named
parts path = named (split b'/' path)

unfoldable pub common : List String → List String → List String
common (p ∷ ps) (q ∷ qs) = let rest = common ps qs in if str_eq p q then p ∷ rest else []
common _ _ = []

-- An absolute path of these parts.
unfoldable pub from_root : List String → String
from_root ps = "/" ▸ join "/" ps

-- `os.path.commonpath` of two absolute paths.
unfoldable pub commonpath : String → String → String
unfolding parts common from_root
commonpath p q = from_root (common (parts p) (parts q))

-- `os.path.join(base, relativo)` of a path that is not absolute.
unfoldable pub join_path : String → String → String
join_path base relativo =
    if str_eq base "" || ends_with base "/" then base <> relativo else base <> ("/" ▸ relativo)

-- `_resolver_caminho_seguro` of two texts.
unfoldable pub resolver_caminho_seguro : (String → Option String) → String → String → Option String
unfolding is_absolute join_path commonpath
resolver_caminho_seguro realpath projeto relativo =
    if str_eq relativo "" || is_absolute relativo then none else do
      base ← realpath projeto
      alvo ← realpath (join_path base relativo)
      if str_eq (commonpath base alvo) base then some alvo else none

common-prefix : (ps qs : List String) → (rest : List String) × (qs ≡ common ps qs ++ rest)
unfolding common
common-prefix [] qs = (qs, refl)
common-prefix (p ∷ ps) [] = ([], refl)
common-prefix (p ∷ ps) (q ∷ qs) = elim (Bool-cases (str_eq p q)) [
  | inl same ↦
      let (rest, e) = common-prefix ps qs in
      let equal : p ≡ q = ground (arith, eq_iff p q) in (rest, rw (same, equal) (ap (λ s. q ∷ s) e))
  | inr other ↦ (q ∷ qs, rw other refl)
]

-- A path that is granted is what `realpath` makes of the path joined to the root of the project, and it
-- lies in the project: its parts are those that spell the root, and more.
pub resolver_caminho_seguro-Inside :
    (realpath : String → Option String) (projeto relativo alvo : String)
    → resolver_caminho_seguro realpath projeto relativo ≡ some alvo
    → (base : String) × (pasta rest : List String) × (realpath projeto ≡ some base)
      × (realpath (join_path base relativo) ≡ some alvo)
      × (from_root pasta ≡ base)
      × (parts alvo ≡ pasta ++ rest)
unfolding resolver_caminho_seguro
resolver_caminho_seguro-Inside realpath projeto relativo alvo h =
    let (_, e) = unguarded_by (str_eq relativo "" || is_absolute relativo) _ alvo h in
    let (base, root, f) = bind-some (realpath projeto) _ alvo e in
    let (target, followed, g) = bind-some (realpath (join_path base relativo)) _ alvo f in
    let spelled : commonpath base target ≡ base =
      (eq_iff (commonpath base target) base).0
        (granted (str_eq (commonpath base target) base) target alvo g).0 in
    let (_, same) = granted (str_eq (commonpath base target) base) target alvo g in
    let is_alvo : realpath (join_path base relativo) ≡ some alvo = followed ∙ ap some same in
    let (rest, below) = common-prefix (parts base) (parts target) in
    (base, common (parts base) (parts target), rest, root, is_alvo, spelled, rw (sym same) below)
