-- ===== src/Workspace/Policy.antt =====
-- eyle/providers/standard/workspace_policy.py: the files that hold credentials, which no capability
-- may read. `same_file` says of a path that its inode is one of those in the index of protected files.
use Prim.Native.String.{String, [] as empty, ◌∷◌ as ◌▸◌, ◌++◌ as ◌<>◌}
use text.Mathlib.Text.{starts_with}
use eyle.Base.Dict.{member}
use eyle.Base.Chars.{is_char, replace_char, lower, split, join, ends_with}
use eyle.Workspace.Paths.{parts, resolver_caminho_seguro}
use eyle.Base.{
  List, [], ◌∷◌, ◌≡◌, refl, ◌||◌, Bool, Option, drop, map, ℕ, false, if◌then◌else◌, length, not,
  or_else, true, str_eq, ◌&&◌, none, some,
}

unfoldable pub strip_left : ℕ → String → String
unfolding is_char
strip_left n empty = ""
strip_left n (c ▸ s) = let rest = strip_left n s in if is_char n c then rest else c ▸ s

unfoldable pub strip_right : ℕ → String → String
unfolding is_char
strip_right n empty = ""
strip_right n (c ▸ s) =
    let rest = strip_right n s in if is_char n c && str_eq rest "" then "" else c ▸ rest

-- `path.replace("\\", "/").strip("/")`
unfoldable pub slashed : String → String
unfolding strip_left strip_right replace_char
slashed s = strip_right b'/' (strip_left b'/' (replace_char b'\\' "/" s))

unfoldable pub normalize_relative_path : String → String
unfolding lower slashed
normalize_relative_path s = lower (slashed s)

-- `parts[-1]`
unfoldable pub last : List String → String
last [] = ""
last (p ∷ []) = p
last (p ∷ q ∷ ps) = last (q ∷ ps)

-- `path.rsplit("/", 1)[-1]`
unfoldable pub name_of : String → String
unfolding split last
name_of path = last (split b'/' path)

-- Any of the endings.
unfoldable pub ends_with_any : String → List String → Bool
unfolding ends_with
ends_with_any s [] = false
ends_with_any s (t ∷ ts) = ends_with s t || ends_with_any s ts

abbrev pub protected_resource_names : List String
protected_resource_names =
    ".env" ∷ ".envrc" ∷ ".npmrc" ∷ ".pypirc" ∷ ".netrc" ∷ "credentials.json" ∷ "credential.json"
    ∷ "secrets.json" ∷ "secret.json" ∷ "tokens.json" ∷ "token.json" ∷ "service-account.json"
    ∷ "service_account.json" ∷ "application_default_credentials.json" ∷ "id_rsa" ∷ "id_dsa"
    ∷ "id_ecdsa" ∷ "id_ed25519" ∷ "private_key.pem" ∷ "private-key.pem" ∷ "private.pem" ∷ []

abbrev pub protected_resource_suffixes : List String
protected_resource_suffixes =
    ".key" ∷ ".p12" ∷ ".pfx" ∷ ".jks" ∷ ".keystore" ∷ ".kdbx" ∷ ".private.pem" ∷ "-private.pem"
    ∷ "_private.pem" ∷ []

abbrev pub protected_resource_path_suffixes : List String
protected_resource_path_suffixes = "/.aws/credentials" ∷ "/.docker/config.json" ∷ []

abbrev pub readable_env_template_names : List String
readable_env_template_names =
    ".env.example" ∷ ".env.sample" ∷ ".env.template" ∷ ".env.dist" ∷ ".env.default"
    ∷ ".env.defaults" ∷ []

abbrev pub readable_env_template_suffixes : List String
readable_env_template_suffixes =
    ".example" ∷ ".sample" ∷ ".template" ∷ ".dist" ∷ ".default" ∷ ".defaults" ∷ []

unfoldable pub is_readable_env_template_path : String → Bool
unfolding normalize_relative_path name_of ends_with_any
is_readable_env_template_path relative_path =
    let normalized = normalize_relative_path relative_path in
    let name = name_of normalized in
    not (str_eq normalized "")
    && (member name readable_env_template_names
        || (starts_with name ".env." && ends_with_any name readable_env_template_suffixes))

unfoldable pub is_protected_resource_path : String → Bool
unfolding is_readable_env_template_path
is_protected_resource_path relative_path =
    let normalized = normalize_relative_path relative_path in
    let name = name_of normalized in
    not (str_eq normalized "")
    && not (is_readable_env_template_path normalized)
    && (member name protected_resource_names
        || starts_with name ".env."
        || ends_with_any name protected_resource_suffixes
        || ends_with_any ("/" <> normalized) protected_resource_path_suffixes)

-- `os.path.relpath(resolved, root)` of a path in the project.
unfoldable pub relpath : String → String → String
unfolding parts
relpath resolved root =
    let below = drop (length (parts root)) (parts resolved) in
    elim below as (λ _. String) [ [] ↦ "." | p ∷ ps ↦ join "/" (p ∷ ps) ]

-- `is_protected_workspace_resource`
unfoldable pub is_protected_workspace_resource :
    (String → Option String) → (String → Bool) → String → String → Bool
unfolding relpath is_protected_resource_path resolver_caminho_seguro
is_protected_workspace_resource realpath same_file project_root relative_path =
    let normalized = slashed relative_path in
    let root = or_else (realpath project_root) "" in
    if str_eq normalized ""
    then false
    else if is_protected_resource_path normalized
    then true
    else elim (resolver_caminho_seguro realpath root normalized) [
      | none ↦ false
      | some resolved ↦ is_protected_resource_path (relpath resolved root) || same_file resolved
    ]

protected_run :
    map is_protected_resource_path
      ("app\\.ENV" ∷ ".env.example" ∷ "src/main.py" ∷ "x/.AWS/credentials" ∷ "a.key/" ∷ [])
    ≡ true ∷ false ∷ false ∷ true ∷ true ∷ []
unfolding is_protected_resource_path member normalize_relative_path name_of
protected_run = refl
