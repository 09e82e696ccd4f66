-- ===== src/Memory/Redis/Keys.antt =====
-- The keys of pkg/memory/redis.go: one namespace for each kind of entry, and no key in two.
use Prim.Native.String.{◌∷◌}
use Prim.Native.Char
use Prim.Native.Char.{Char}
use text.Mathlib.TextLemmas.{append_cancel_left, cons-append, append_assoc, head-eq_of_cons-eq}
use serverless_flux.Base.{
  String, ◌<>◌, ◌≡◌, refl, sym, ◌∙◌, ap, Bool, true, false, arith, Bool-cases, inl, inr, ◌==◌,
  eq_iff,
}
use serverless_flux.Memory.Redis.{agents_prefix, functions_prefix, code_prefix, execmap_prefix}

pub data Namespace : Type 0 where
  agents functions code execmap : Namespace

abbrev pub prefix : Namespace → String
prefix agents = agents_prefix
prefix functions = functions_prefix
prefix code = code_prefix
prefix execmap = execmap_prefix

-- what follows "flux:", by its first character
abbrev initial : Namespace → Char
initial agents = "a"
initial functions = "f"
initial code = "c"
initial execmap = "e"

abbrev others : Namespace → String
others agents = "gents:"
others functions = "unctions:"
others code = "ode:"
others execmap = "xecmap:"

abbrev pub same : Namespace → Namespace → Bool
same agents agents = true
same functions functions = true
same code code = true
same execmap execmap = true
same _ _ = false

prefix-eq-append : (n : Namespace) → prefix n ≡ "flux:" <> (initial n ∷ others n)
prefix-eq-append agents = refl
prefix-eq-append functions = refl
prefix-eq-append code = refl
prefix-eq-append execmap = refl

tails :
    (n m : Namespace) (i j : String)
    → prefix n <> i ≡ prefix m <> j
    → (initial n ∷ others n) <> i ≡ (initial m ∷ others m) <> j
tails n m i j e =
    append_cancel_left "flux:" ((initial n ∷ others n) <> i) ((initial m ∷ others m) <> j) (
      sym (append_assoc "flux:" ((initial n ∷ others n)) i)
      ∙ ap (λ s. s <> i) (sym (prefix-eq-append n))
      ∙ e
      ∙ ap (λ s. s <> j) (prefix-eq-append m)
      ∙ append_assoc "flux:" ((initial m ∷ others m)) j)

initial-same : (n m : Namespace) → Char.code (initial n) ≡ Char.code (initial m) → same n m ≡ true
initial-same agents agents h = refl
initial-same functions functions h = refl
initial-same code code h = refl
initial-same execmap execmap h = refl
initial-same _ _ h = absurd (omega arith)

-- Keys of two namespaces differ.
pub prefix-same : (n m : Namespace) (i j : String) → prefix n <> i ≡ prefix m <> j → same n m ≡ true
prefix-same n m i j e = initial-same n m (
    ap Char.code (
      head-eq_of_cons-eq (
        sym (cons-append (initial n) (others n) i)
        ∙ tails n m i j e
        ∙ cons-append (initial m) (others m) j)))

pub prefix-injective : (n : Namespace) (i j : String) → prefix n <> i ≡ prefix n <> j → i ≡ j
prefix-injective n i j e = append_cancel_left (prefix n) i j e

-- The same as tests on keys.
pub key-other :
    (n m : Namespace) (i j : String) → same n m ≡ false → (prefix n <> i == prefix m <> j) ≡ false
key-other n m i j h = elim (Bool-cases (prefix n <> i == prefix m <> j)) [
  | inl e ↦ cc (prefix-same n m i j ((eq_iff _ _).0 e))
  | inr e ↦ e
]

pub key-eq :
    (n : Namespace) (i j : String) → (i == j) ≡ false → (prefix n <> i == prefix n <> j) ≡ false
key-eq n i j h = elim (Bool-cases (prefix n <> i == prefix n <> j)) [
  | inl e ↦ cc ((eq_iff i j).1 (prefix-injective n i j ((eq_iff _ _).0 e)))
  | inr e ↦ e
]
