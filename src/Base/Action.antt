-- ===== src/Base/Action.antt =====
-- An operation on a world that may fail: what it did before an error stays done.
use Prim.Native.String.{String, ◌++◌ as ◌<>◌}
use mathlib.Core.Path.{◌≡◌, refl}
use serverless_flux.Base.Result.{Result, ok, err}

abbrev pub Action : Type 0 → Type 0 → Type 0
Action W A = W → Result A × W

module _ {A B : Type 0} {W : Type 0} where
  -- the rest of a function after `if err != nil { return err }`
  abbrev pub proceed : (A → Action W B) → Result A × W → Result B × W
  proceed next (err e, w) = (err e, w)
  proceed next (ok a, w) = next a w

  infixl 5 ◌>>=◌
  abbrev pub ◌>>=◌ : Action W A → (A → Action W B) → Action W B
  ◌>>=◌ m next w = proceed next (m w)

  -- The two parts of a sequence that succeeded.
  pub proceed-eq-ok :
      (next : A → Action W B) (r : Result A × W) {b : B} {w' : W}
      → proceed next r ≡ (ok b, w')
      → (a : A) × (v : W) × (r ≡ (ok a, v)) × (next a v ≡ (ok b, w'))
  proceed-eq-ok next (err e, w) h = cc
  proceed-eq-ok next (ok a, w) h = (a, w, refl, h)

infixl 5 ◌>>◌
abbrev pub ◌>>◌ : {A B W : Type 0} → Action W A → Action W B → Action W B
m >> k = m >>= λ _. k

module _ {A W : Type 0} where
  abbrev pub return : A → Action W A
  return a w = (ok a, w)

  abbrev pub raise : String → Action W A
  raise e w = (err e, w)

  abbrev pub of_result : Result A → Action W A
  of_result r w = (r, w)

  abbrev pub relabel : String → Result A × W → Result A × W
  relabel label (err e, w) = (err (label <> e), w)
  relabel label (ok a, w) = (ok a, w)

  -- `fmt.Errorf("<label>%w", err)` where the operation fails
  abbrev pub labelled : String → Action W A → Action W A
  labelled label m w = relabel label (m w)

  pub relabel-eq-ok :
      (label : String) (r : Result A × W) {a : A} {w' : W}
      → relabel label r ≡ (ok a, w')
      → r ≡ (ok a, w')
  relabel-eq-ok label (err e, w) h = cc
  relabel-eq-ok label (ok a, w) h = h
