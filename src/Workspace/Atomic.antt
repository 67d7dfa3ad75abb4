-- ===== src/Workspace/Atomic.antt =====
-- eyle/providers/standard/transactions.py and workspace_transaction.py: a transaction that is not
-- confirmed leaves the project as it was.
use mathlib.Core.Path.{refl}
use mathlib.Core.Option.{some-injective}
use Prim.Native.String.{String}
use eyle.Base.Dict.{get, enter, pop, get-enter, get-pop}
use eyle.Base.Table.{All-append}
use eyle.Value.{Value, cons, arr}
use eyle.Workspace.DryRun.{Host, Files, Prepared, invalid_argument}
use eyle.Workspace.DryRun.{dry_run_patch_set}
use eyle.Workspace.Apply.{Applied, apply_loop, write, write_to}
use eyle.Workspace.Originals.{IsOriginal, Approved, dry_run_loop-IsOriginal, Approved-refused}
use eyle.Workspace.Undone.{touched, touched-append}
use eyle.Base.{
  Option, none, some, List, [], ◌∷◌, ◌++◌, All, Bool, ◌≡◌, false, if◌then◌else◌, true, str_eq,
  Bool-cases, ◌||◌, inl, sym, inr, unguarded, ◌∙◌, Option-cases, arith, is_none, subst,
}

pub dry_run_patch_set-IsOriginal :
    (host : Host) (files : Files) (patches : Value)
    → Approved (All (IsOriginal files)) (dry_run_patch_set host files patches)
unfolding dry_run_patch_set
dry_run_patch_set-IsOriginal host files (arr (cons raw rest)) =
    dry_run_loop-IsOriginal host files [] (cons raw rest)
dry_run_patch_set-IsOriginal host files _ =
    Approved-refused (All (IsOriginal files)) invalid_argument

module _ (fails : String → Bool) where
  pub apply_loop-fails :
      (p : Prepared) (ps done : List Prepared) (files : Files)
      → fails p.path ≡ true
      → apply_loop fails (p ∷ ps) done files ≡ record { files = files; done = done; failed = true }
  unfolding apply_loop
  apply_loop-fails p ps done files h = rw h refl

  pub apply_loop-stops :
      (p : Prepared) (ps done : List Prepared) (files : Files)
      → fails p.path ≡ false
      → write p files ≡ none
      → apply_loop fails (p ∷ ps) done files ≡ record { files = files; done = done; failed = true }
  unfolding apply_loop
  apply_loop-stops p ps done files h e = rw (h, e) refl

  pub apply_loop-writes :
      (p : Prepared) (ps done : List Prepared) (files next : Files)
      → fails p.path ≡ false
      → write p files ≡ some next
      → apply_loop fails (p ∷ ps) done files ≡ apply_loop fails ps (done ++ p ∷ []) next
  unfolding apply_loop
  apply_loop-writes p ps done files next h e = rw (h, e) refl

get-write_to :
    (k a : String) (o : Option String) (files next : Files)
    → write_to k o files ≡ some next
    → get a next ≡ (if str_eq k a then o else get a files)
unfolding write_to
get-write_to k a (some s) files next h =
    rw (sym (some-injective (enter k s files) next h)) (get-enter a k s files)
get-write_to k a none files next h =
    rw (sym (unguarded (is_none (get k files)) (pop k files) next h).1) (get-pop a k files)

pub get-write :
    (p : Prepared) (a : String) (files next : Files)
    → write p files ≡ some next
    → get a next ≡ (if str_eq p.absolute a then p.result_content else get a files)
unfolding write
get-write p a files next h = get-write_to p.absolute a p.result_content files next h

untouched_last :
    (a : String) (done : List Prepared) (p : Prepared)
    → touched a (done ++ p ∷ []) ≡ false
    → (touched a done ≡ false) × (str_eq p.absolute a ≡ false)
untouched_last a done p h =
    let e : (touched a done || touched a (p ∷ [])) ≡ false =
      sym (touched-append a done (p ∷ [])) ∙ h in
    unfold touched in (ground arith, ground arith)

-- A file that no member has written is as it was.
abbrev pub Untouched : List Prepared → Files → String → Applied → Type 0
Untouched done files a run =
    touched a run.done ≡ false → (touched a done ≡ false) × (get a run.files ≡ get a files)

module _ (fails : String → Bool) where
  pub apply_loop-Untouched :
      (ps done : List Prepared) (files : Files) (a : String)
      → Untouched done files a (apply_loop fails ps done files)
  apply_loop-Untouched [] done files a = unfold apply_loop in λ h. (h, refl)
  apply_loop-Untouched (p ∷ ps) done files a = elim (Bool-cases (fails p.path)) [
    | inl failed ↦
        subst (Untouched done files a) (sym (apply_loop-fails fails p ps done files failed))
          λ h. (h, refl)
    | inr works ↦ elim (Option-cases (write p files)) [
      | inl stuck ↦
          subst (Untouched done files a) (sym (apply_loop-stops fails p ps done files works stuck))
            λ h. (h, refl)
      | inr (next, e) ↦
          subst (Untouched done files a)
            (sym (apply_loop-writes fails p ps done files next works e))
            λ h.
              let (before, now) = apply_loop-Untouched ps (done ++ p ∷ []) next a h in
              let (old, other) = untouched_last a done p before in
              let kept : get a next ≡ get a files = get-write p a files next e ∙ rw other refl in
              (old, now ∙ kept)
    ]
  ]

  -- What all members have, those have that are done.
  pub apply_loop-All :
      (P : Prepared → Type 0) (ps done : List Prepared) (files : Files)
      → All P ps
      → All P done
      → All P (apply_loop fails ps done files).done
  apply_loop-All P [] done files hs h = unfold apply_loop in h
  apply_loop-All P (p ∷ ps) done files (hp, hs) h = elim (Bool-cases (fails p.path)) [
    | inl failed ↦
        subst (λ run. All P run.done) (sym (apply_loop-fails fails p ps done files failed)) h
    | inr works ↦ elim (Option-cases (write p files)) [
      | inl stuck ↦
          subst (λ run. All P run.done) (sym (apply_loop-stops fails p ps done files works stuck)) h
      | inr (next, e) ↦
          subst (λ run. All P run.done) (sym (apply_loop-writes fails p ps done files next works e))
            (apply_loop-All P ps (done ++ p ∷ []) next hs (All-append P done (p ∷ []) h (hp, tt)))
    ]
  ]
