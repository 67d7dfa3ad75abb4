-- ===== src/Workspace/Undone.antt =====
-- eyle/providers/standard/transactions.py: what a rollback leaves.
use mathlib.Core.Option
use mathlib.Core.Bool.{false≢true}
use mathlib.Core.List.{reverse, reverse-cons, concat-ne-nil}
use Prim.Native.String.{String}
use eyle.Base.Dict.{get, enter, pop, get-enter, get-pop}
use eyle.Base.Table.{All-append}
use eyle.Workspace.Newlines.{normalizar_quebras_idem}
use eyle.Workspace.DryRun.{Host, Files, Prepared, read_text, hash_texto}
use eyle.Workspace.Apply.{RolledBack, restore, rollback_loop, same_hash, restore_to}
use eyle.Workspace.Originals.{IsOriginal}
use eyle.Base.{
  Option, none, some, List, [], ◌∷◌, ◌++◌, All, Bool, ◌≡◌, arith, false, true, ◌||◌, eq_refl,
  if◌then◌else◌, refl, str_eq, Bool-cases, inl, inr, ap, not, is_none, ◌&&◌, eq_iff, ◌∙◌,
}

-- A member writes this path.
unfoldable pub touched : String → List Prepared → Bool
touched a [] = false
touched a (p ∷ ps) = str_eq p.absolute a || touched a ps

pub touched-append :
    (a : String) (ps qs : List Prepared) → touched a (ps ++ qs) ≡ (touched a ps || touched a qs)
unfolding touched
touched-append a [] qs = refl
touched-append a (p ∷ ps) qs = ground (arith, touched-append a ps qs)

pub touched-reverse : (a : String) (ps : List Prepared) → touched a (reverse ps) ≡ touched a ps
touched-reverse a [] = refl
touched-reverse a (p ∷ ps) =
    rw (reverse-cons p ps, touched-append a (reverse ps) (p ∷ []), touched-reverse a ps)
      (unfold touched in ground arith)

pub All-reverse : (P : Prepared → Type 0) (ps : List Prepared) → All P ps → All P (reverse ps)
All-reverse P [] h = tt
All-reverse P (p ∷ ps) (h, hs) =
    rw (reverse-cons p ps) (All-append P (reverse ps) (p ∷ []) (All-reverse P ps hs) (h, tt))

pub hash_texto-read_text :
    (host : Host) (s : String) → hash_texto host (read_text s) ≡ hash_texto host s
unfolding hash_texto
hash_texto-read_text host s = ap host.sha256 (normalizar_quebras_idem s)

same_hash-some : (host : Host) (s : String) → same_hash host s (some s) ≡ true
unfolding same_hash
same_hash-some host s = rw (hash_texto-read_text host s) (eq_refl _)

-- A text that is written is read with the hash that it has.
pub same_hash-written :
    (host : Host) (k s : String) (files : Files) → same_hash host s (get k (enter k s files)) ≡ true
same_hash-written host k s files =
    let there : get k (enter k s files) ≡ some s = rw (get-enter k k s files, eq_refl k) refl in
    rw there (same_hash-some host s)

-- A step that reports success is the one behind the guard.
behind_guard :
    (b : Bool) (files : Files) (r : Bool × Files)
    → (if b then (false, files) else r).0 ≡ true
    → (if b then (false, files) else r) ≡ r
behind_guard true files r h = absurd (false≢true h)
behind_guard false files r h = refl

none_noted :
    (b : Bool) (s : String) (ps : List String)
    → (if b then ps else ps ++ s ∷ []) ≡ []
    → (b ≡ true) × (ps ≡ [])
none_noted true s ps h = (refl, h)
none_noted false s ps h = absurd (concat-ne-nil s ps h)

-- A member that restores the text of its file is one of those that do.
restored_or_not :
    (files : Files) (p : Prepared) (a : String) (rest : Bool) (now : Option String)
    → IsOriginal files p
    → (if rest
        then Option.map read_text (get a files)
        else if str_eq p.absolute a
        then p.original_content
        else now)
      ≡ (if str_eq p.absolute a || rest then Option.map read_text (get a files) else now)
restored_or_not files p a true now o = elim (Bool-cases (str_eq p.absolute a)) [
  | inl same ↦ rw same refl
  | inr other ↦ rw other refl
]
restored_or_not files p a false now o = elim (Bool-cases (str_eq p.absolute a)) [
  | inl same ↦
      let e : p.absolute ≡ a = ground (arith, eq_iff p.absolute a) in
      rw same (o ∙ ap (λ k. Option.map read_text (get k files)) e)
  | inr other ↦ rw other refl
]

module _ (host : Host) (fails : String → Bool) where
  -- A member that is reported as restored has its original content again, and no other file changes.
  get-restore_to :
      (path k a : String) (o : Option String) (files : Files)
      → (restore_to host fails path k o files).0 ≡ true
      → get a (restore_to host fails path k o files).1 ≡ (if str_eq k a then o else get a files)
  unfolding restore_to
  get-restore_to path k a none files h =
      rw (behind_guard (not (is_none (get k files)) && fails path) files (true, pop k files) h)
        (get-pop a k files)
  get-restore_to path k a (some s) files h =
      let next = enter k s files in
      rw (behind_guard (fails path) files (same_hash host s (get k next), next) h)
        (get-enter a k s files)

  get-restore :
      (p : Prepared) (a : String) (files : Files)
      → (restore host fails p files).0 ≡ true
      → get a (restore host fails p files).1
        ≡ (if str_eq p.absolute a then p.original_content else get a files)
  unfolding restore
  get-restore p a files h = get-restore_to p.path p.absolute a p.original_content files h

  -- The failures that a loop begins with stay.
  rollback_loop-failures :
      (ps : List Prepared) (r : RolledBack)
      → (rollback_loop host fails ps r).failures ≡ []
      → r.failures ≡ []
  unfolding rollback_loop
  rollback_loop-failures [] r h = h
  rollback_loop-failures (p ∷ ps) r h =
      (none_noted (restore host fails p r.files).0 p.path r.failures
        (rollback_loop-failures ps _ h)).1

  -- Where no failure is reported, each file that was touched is as it was read.
  pub get-rollback_loop :
      (files : Files) (ps : List Prepared) (r : RolledBack) (a : String)
      → All (IsOriginal files) ps
      → (rollback_loop host fails ps r).failures ≡ []
      → get a (rollback_loop host fails ps r).files
        ≡ (if touched a ps then Option.map read_text (get a files) else get a r.files)
  unfolding rollback_loop touched
  get-rollback_loop files [] r a os h = refl
  get-rollback_loop files (p ∷ ps) r a os h =
      let now =
        (none_noted (restore host fails p r.files).0 p.path r.failures
          (rollback_loop-failures ps _ h)).0 in
      get-rollback_loop files ps _ a os.1 h
      ∙ rw (get-restore p a r.files now)
          (restored_or_not files p a (touched a ps) (get a r.files) os.0)
