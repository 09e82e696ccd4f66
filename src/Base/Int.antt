-- ===== src/Base/Int.antt =====
-- Signed 64-bit integers: `int`, `int32`, `int64`, `time.Duration` of the source.
use Prim.Native.Nat.{ℕ, suc, ◌+◌, ◌-◌, ◌*◌, ◌%◌, ◌^◌, ◌≤◌, ◌<◌, min}
use mathlib.Core.Path.{◌≡◌}
use mathlib.Core.Bool.{Bool, true, false}
use native.Mathlib.Omega.{arith}
use serverless_flux.Base.Tests.{leb, ltb, eqb, if◌then◌else◌}

-- `negsuc n` is -(n + 1).
pub data ℤ : Type 0 where
  pos : ℕ → ℤ
  negsuc : ℕ → ℤ

-- The tests `<`, `<=`, `==` of Go on signed integers.
abbrev pub int_ltb : ℤ → ℤ → Bool
int_ltb (pos a) (pos b) = ltb a b
int_ltb (pos a) (negsuc b) = false
int_ltb (negsuc a) (pos b) = true
int_ltb (negsuc a) (negsuc b) = ltb b a

abbrev pub int_leb : ℤ → ℤ → Bool
int_leb (pos a) (pos b) = leb a b
int_leb (pos a) (negsuc b) = false
int_leb (negsuc a) (pos b) = true
int_leb (negsuc a) (negsuc b) = leb b a

abbrev pub int_eqb : ℤ → ℤ → Bool
int_eqb (pos a) (pos b) = eqb a b
int_eqb (negsuc a) (negsuc b) = eqb a b
int_eqb _ _ = false

-- a - b, as an integer.
abbrev pub sub_ℕ : ℕ → ℕ → ℤ
sub_ℕ a b = if leb b a then pos (a - b) else negsuc (b - a - 1)

abbrev pub int_sub : ℤ → ℤ → ℤ
int_sub (pos a) (pos b) = sub_ℕ a b
int_sub (pos a) (negsuc b) = pos (a + suc b)
int_sub (negsuc a) (pos b) = negsuc (a + b)
int_sub (negsuc a) (negsuc b) = sub_ℕ b a

-- The residue modulo 2^64 as a signed 64-bit integer: what Go's arithmetic keeps.
abbrev pub signed64 : ℕ → ℤ
signed64 m = if ltb m (2 ^ 63) then pos m else negsuc (2 ^ 64 - m - 1)

abbrev pub wrap64 : ℤ → ℤ
wrap64 (pos n) = signed64 (n % 2 ^ 64)
wrap64 (negsuc n) = signed64 (2 ^ 64 - 1 - n % 2 ^ 64)

-- A count kept in an `int32`.
abbrev pub count32 : ℕ → ℤ
count32 n = let m = n % 2 ^ 32 in if ltb m (2 ^ 31) then pos m else negsuc (2 ^ 32 - m - 1)

-- `a - b` on `int`.
unfoldable pub sub64 : ℤ → ℤ → ℤ
sub64 a b = wrap64 (int_sub a b)

abbrev pub times_ℕ : ℤ → ℕ → ℤ
times_ℕ (pos n) k = pos (n * k)
times_ℕ (negsuc n) k = int_sub (pos 0) (pos (suc n * k))

-- `time.Duration(n) * time.Second`, in nanoseconds.
unfoldable pub seconds : ℤ → ℤ
seconds n = wrap64 (times_ℕ n 1000000000)

-- `t.Sub(u)` for instants in nanoseconds since the zero `time.Time`: the difference, held to the
-- range of a `time.Duration`.
unfoldable pub time_sub : ℕ → ℕ → ℤ
time_sub t u =
    if leb u t then pos (min (t - u) (2 ^ 63 - 1)) else negsuc (min (u - t - 1) (2 ^ 63 - 1))

-- A count of seconds below the 292 years of a `time.Duration` is converted with no wrap.
pub seconds_lem : (n : ℕ) → n < 9223372036 → seconds (pos n) ≡ pos (n * 1000000000)
unfolding seconds
seconds_lem n h = ground arith

pub time_sub_lem : (t u : ℕ) → u ≤ t → t - u < 2 ^ 63 → time_sub t u ≡ pos (t - u)
unfolding time_sub
time_sub_lem t u h k = ground arith

-- the conversion of an int64 to a uint64
abbrev pub unsigned64 : ℤ → ℕ
unsigned64 (pos n) = n
unsigned64 (negsuc n) = 2 ^ 64 - n - 1
