-- ===== src/Base/Ensures.antt =====
-- What an operation guarantees where it succeeds, and the rules by which a sequence does.
use Prim.Native.String.{String}
use mathlib.Core.Path.{◌≡◌, refl, subst}
use mathlib.Core.Bool.{Bool, true, false}
use serverless_flux.Base.Tests.{if◌then◌else◌}
use serverless_flux.Base.Result.{Result, ok, err}
use serverless_flux.Base.Action.{Action, proceed, relabel}

-- If the operation succeeded, its value and the world have the property.
abbrev pub Ensures : {A W : Type 0} → (A → W → Type 0) → Result A × W → Type 0
Ensures P (err e, w) = Unit
Ensures P (ok a, w) = P a w

pub proceed-Ensures :
    {A B W : Type 0} (Q : A → W → Type 0) (P : B → W → Type 0) (next : A → Action W B)
    (r : Result A × W)
    → Ensures Q r
    → ((a : A) (v : W) → Q a v → Ensures P (next a v))
    → Ensures P (proceed next r)
proceed-Ensures Q P next (err e, w) h k = tt
proceed-Ensures Q P next (ok a, w) h k = k a w h

pub relabel-Ensures :
    {A W : Type 0} (P : A → W → Type 0) (label : String) (r : Result A × W)
    → Ensures P r
    → Ensures P (relabel label r)
relabel-Ensures P label (err e, w) h = tt
relabel-Ensures P label (ok a, w) h = h

pub Ensures_of :
    {A W : Type 0} (P : A → W → Type 0) (r : Result A × W)
    → ((a : A) → r.0 ≡ ok a → P a r.1)
    → Ensures P r
Ensures_of P (err e, w) h = tt
Ensures_of P (ok a, w) h = h a refl

pub weaken :
    {A W : Type 0} (P Q : A → W → Type 0) (r : Result A × W)
    → ((a : A) (v : W) → P a v → Q a v)
    → Ensures P r
    → Ensures Q r
weaken P Q (err e, w) k h = tt
weaken P Q (ok a, w) k h = k a w h

-- The next step goes its way whatever this one did.
pub after :
    {A B W : Type 0} (P : B → W → Type 0) (next : A → Action W B) (r : Result A × W)
    → ((a : A) (v : W) → Ensures P (next a v))
    → Ensures P (proceed next r)
after P next (err e, w) k = tt
after P next (ok a, w) k = k a w

pub Ensures-if :
    {A W : Type 0} (P : A → W → Type 0) (b : Bool) (r s : Result A × W)
    → (b ≡ true → Ensures P r)
    → Ensures P s
    → Ensures P (if b then r else s)
Ensures-if P true r s h k = h refl
Ensures-if P false r s h k = k

pub Ensures-eq :
    {A W : Type 0} (P : A → W → Type 0) (r : Result A × W) (a : A) (w : W)
    → Ensures P r
    → r ≡ (ok a, w)
    → P a w
Ensures-eq P r a w h e = subst (Ensures P) e h

pub Ensures-self : {A W : Type 0} (r : Result A × W) → Ensures (λ a v. r ≡ (ok a, v)) r
Ensures-self (err e, w) = tt
Ensures-self (ok a, w) = refl

-- The next step is given what this one returned.
pub exactly :
    {A B W : Type 0} (P : B → W → Type 0) (next : A → Action W B) (r : Result A × W)
    → ((a : A) (v : W) → r ≡ (ok a, v) → Ensures P (next a v))
    → Ensures P (proceed next r)
exactly P next (err e, w) k = tt
exactly P next (ok a, w) k = k a w refl
