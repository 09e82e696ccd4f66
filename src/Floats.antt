-- ===== src/Floats.antt =====
-- Go's `float64`, which the language gives: a type with its operations, and the laws of IEEE 754
-- that proofs rely on. The laws speak of numbers only: a NaN differs from itself.
use serverless_flux.Base.Int.{ℤ, pos, negsuc}
use serverless_flux.Base.{ℕ, ◌+◌, ◌-◌, ◌*◌, ◌/◌, ◌≡◌, Bool, true, false, arith, ltb, leb, eqb}

pub record Floats (F : Type 0) : Type 0 where
  -- a constant, or the conversion of an unsigned integer
  pub of_ℕ : ℕ → F
  -- the conversion of a signed integer
  pub of_ℤ : ℤ → F
  pub flt : F → F → Bool
  pub fle : F → F → Bool
  pub feq : F → F → Bool
  pub fadd : F → F → F
  pub fsub : F → F → F
  pub fmul : F → F → F
  pub fdiv : F → F → F
  -- `math.Sqrt`
  pub fsqrt : F → F

module _ {F : Type 0} ⦃o : Floats F⦄ where
  -- `x == x`, false of a NaN
  abbrev pub IsNumber : F → Type 0
  IsNumber x = o.feq x x ≡ true

-- The order of the numbers.
pub record FloatLaws (F : Type 0) (o : Floats F) : Type 0 where
  pub flt_irrefl : (a : F) → o.flt a a ≡ false
  pub flt_asymm : (a b : F) → o.flt a b ≡ true → o.flt b a ≡ false
  pub flt_trans : (a b c : F) → o.flt a b ≡ true → o.flt b c ≡ true → o.flt a c ≡ true
  pub feq_flt : (a b c : F) → o.feq a b ≡ true → o.flt a c ≡ o.flt b c
  -- `a ≥ b ≥ c` among numbers
  pub not_flt_trans :
      (a b c : F)
      → o.feq a a ≡ true
      → o.feq b b ≡ true
      → o.feq c c ≡ true
      → o.flt a b ≡ false
      → o.flt b c ≡ false
      → o.flt a c ≡ false

-- An instance over whole numbers, at which the theorems are run.
instance abbrev pub whole_floats : Floats ℕ
whole_floats = record {
  of_ℕ = λ n. n;
  of_ℤ = λ z. elim z [ pos n ↦ n | negsuc n ↦ 0 ];
  flt = ltb;
  fle = leb;
  feq = eqb;
  fadd = λ a b. a + b;
  fsub = λ a b. a - b;
  fmul = λ a b. a * b;
  fdiv = λ a b. a / b;
  fsqrt = λ a. a;
}

pub whole_floats-FloatLaws : FloatLaws ℕ whole_floats
whole_floats-FloatLaws = record {
  flt_irrefl = λ a. ground arith;
  flt_asymm = λ a b h. ground arith;
  flt_trans = λ a b c h k. ground arith;
  feq_flt = λ a b c h. ground arith;
  not_flt_trans = λ a b c x y z h k. ground arith;
}
