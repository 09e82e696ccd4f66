-- ===== src/Base/Startup.antt =====
-- The start of the program, step by step: it goes on, or the process ends, by `log.Fatalf` or by a
-- panic.
use Prim.Native.String.{String, ◌++◌ as ◌<>◌}
use mathlib.Core.Option.{Option, none, some}
use mathlib.Core.Path.{◌≡◌, refl}
use serverless_flux.Base.Result.{Result, ok, err}

pub data Startup {ℓ} (A : Type ℓ) : Type ℓ where
  going : A → Startup A
  exited : String → Startup A
  panicked : String → Startup A

module _ {A B S : Type 0} where
  abbrev pub proceed : Startup A × S → (A → S → Startup B × S) → Startup B × S
  proceed (going a, s) next = next a s
  proceed (exited e, s) next = (exited e, s)
  proceed (panicked e, s) next = (panicked e, s)

  infixl 5 ◌>>=◌
  abbrev pub ◌>>=◌ : (S → Startup A × S) → (A → S → Startup B × S) → S → Startup B × S
  ◌>>=◌ m next s = proceed (m s) next

  -- The two parts of a start that went through.
  pub proceed-eq-going :
      (r : Startup A × S) (next : A → S → Startup B × S) {b : B} {s' : S}
      → proceed r next ≡ (going b, s')
      → (a : A) × (s : S) × (r ≡ (going a, s)) × (next a s ≡ (going b, s'))
  proceed-eq-going (going a, s) next h = (a, s, refl, h)
  proceed-eq-going (exited e, s) next h = cc
  proceed-eq-going (panicked e, s) next h = cc

-- A method on a pointer that may be nil.
abbrev pub dereferenced : {A : Type 0} → Option A → Startup A
dereferenced none = panicked "invalid memory address or nil pointer dereference"
dereferenced (some a) = going a

module _ {A S : Type 0} where
  abbrev pub continue : A → S → Startup A × S
  continue a s = (going a, s)

  -- `if err != nil { log.Fatalf("<label>%v", err) }`
  abbrev pub or_exit : String → Result A × S → Startup A × S
  or_exit label (err e, s) = (exited (label <> e), s)
  or_exit label (ok a, s) = (going a, s)

  pub or_exit-eq-going :
      (label : String) (r : Result A × S) {a : A} {s' : S}
      → or_exit label r ≡ (going a, s')
      → r ≡ (ok a, s')
  or_exit-eq-going label (err e, s) h = cc
  or_exit-eq-going label (ok a, s) h = cc

  pub continue-injective : {a b : A} {s s' : S} → continue a s ≡ continue b s' → a ≡ b
  continue-injective h = cc
