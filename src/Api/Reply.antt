-- ===== src/Api/Reply.antt =====
-- The replies of pkg/api/handlers.go: a status code, with a message or with a JSON body, which is
-- given by the values in it.
use serverless_flux.Base.{ℕ, String, Bool, true, false, Option, none, some}
use text.Mathlib.Text.{find?}

pub data Reply (A : Type 0) : Type 0 where
  fail : ℕ → String → Reply A
  sent : ℕ → A → Reply A

-- `o != nil`
abbrev pub is_some {ℓ} : {A : Type ℓ} → Option A → Bool
is_some none = false
is_some (some _) = true

-- `strings.Contains`
abbrev pub contains : String → String → Bool
contains s part = is_some (find? s part)
