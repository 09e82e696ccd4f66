-- ===== src/Base/Result.antt =====
-- A Go result `(value, error)`, of which a caller reads the value only if the error is nil.
use Prim.Native.String.{String}
use mathlib.Core.Path.{◌≡◌, refl}

pub data Result {ℓ} (A : Type ℓ) : Type ℓ where
  err : (message : String) → Result A
  ok : (value : A) → Result A

pub ok-injective {ℓ} : {A : Type ℓ} {a b : A} → ok a ≡ ok b → a ≡ b
ok-injective h = cc

module _ {ℓ κ} {A : Type ℓ} {B : Type κ} where
  -- `if err != nil { return err }`
  infixl 5 ◌>>=◌
  abbrev pub ◌>>=◌ : Result A → (A → Result B) → Result B
  err message >>= next = err message
  ok value >>= next = next value

  -- The parts of a chain that succeeded.
  pub >>=-eq-ok :
      (m : Result A) (next : A → Result B) {b : B}
      → (m >>= next) ≡ ok b
      → (value : A) × (m ≡ ok value) × (next value ≡ ok b)
  >>=-eq-ok (err message) next h = cc
  >>=-eq-ok (ok value) next h = (value, refl, h)
