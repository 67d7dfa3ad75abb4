-- ===== src/Memory/Holds.antt =====
-- eyle/runtime/memory_graph.py: what holds of each result that is not an error.
use mathlib.Core.Path.{refl}
use Prim.Native.String.{String}
use eyle.Memory.{Try, done, raised, ◌>>=◌, demand, the}
use eyle.Base.{Option, none, some, Bool, ◌≡◌, subst, true, false, if◌then◌else◌}

unfoldable pub Holds : {A : Type 0} → (A → Type 0) → Try A → Type 0
Holds P (done a) = P a
Holds P (raised code) = Unit

pub Holds-done : {A : Type 0} (P : A → Type 0) (a : A) → P a → Holds P (done a)
unfolding Holds
Holds-done P a h = h

pub Holds-result : {A : Type 0} (P : A → Type 0) {r : Try A} (a : A) → r ≡ done a → Holds P r → P a
unfolding Holds
Holds-result P a e h = subst (Holds P) e h

pub Holds-raised : {A : Type 0} (P : A → Type 0) (code : String) → Holds P (raised code)
unfolding Holds
Holds-raised P code = tt

pub Holds-bind :
    {A B : Type 0} (P : B → Type 0) (r : Try A) (next : A → Try B)
    → ((a : A) → r ≡ done a → Holds P (next a))
    → Holds P (r >>= next)
unfolding Holds ◌>>=◌
Holds-bind P (raised code) next h = tt
Holds-bind P (done a) next h = h a refl

-- A bind whose first part is known by what holds of it.
pub Holds-after :
    {A B : Type 0} (Q : A → Type 0) (P : B → Type 0) (r : Try A) (next : A → Try B)
    → Holds Q r
    → ((a : A) → Q a → Holds P (next a))
    → Holds P (r >>= next)
unfolding Holds ◌>>=◌
Holds-after Q P (raised code) next q h = tt
Holds-after Q P (done a) next q h = h a q

pub Holds-demand :
    {B : Type 0} (P : B → Type 0) (b : Bool) (code : String) (next : Unit → Try B)
    → (b ≡ true → Holds P (next tt))
    → Holds P (demand b code >>= next)
unfolding Holds ◌>>=◌ demand
Holds-demand P true code next h = h refl
Holds-demand P false code next h = tt

pub Holds-the :
    {A B : Type 0} (P : B → Type 0) (o : Option A) (code : String) (next : A → Try B)
    → ((a : A) → o ≡ some a → Holds P (next a))
    → Holds P (the o code >>= next)
unfolding Holds ◌>>=◌ the
Holds-the P none code next h = tt
Holds-the P (some a) code next h = h a refl

pub Holds-if :
    {A : Type 0} (P : A → Type 0) (b : Bool) (r s : Try A)
    → Holds P r
    → Holds P s
    → Holds P (if b then r else s)
Holds-if P true r s h k = h
Holds-if P false r s h k = k

pub Holds-both :
    {A : Type 0} (P Q : A → Type 0) (r : Try A) → Holds P r → Holds Q r → Holds (λ a. P a × Q a) r
unfolding Holds
Holds-both P Q (raised code) h k = tt
Holds-both P Q (done a) h k = (h, k)

pub Holds-map :
    {A : Type 0} (P Q : A → Type 0) (r : Try A) → ((a : A) → P a → Q a) → Holds P r → Holds Q r
unfolding Holds
Holds-map P Q (raised code) f h = tt
Holds-map P Q (done a) f h = f a h
