-- ===== src/Base/Select.antt =====
-- Loops that keep the best entry so far: `if best == nil || better(x, best) { best = x }`.
use mathlib.Core.Path.{◌≡◌, refl, sym, ap, subst, ◌∙◌}
use mathlib.Core.Logic.{inl, inr}
use mathlib.Core.Bool.{Bool, true, false}
use mathlib.Core.Option.{Option, none, some, some-injective}
use mathlib.Core.List.{List, [], ◌∷◌, Memᴰ}
use serverless_flux.Base.Tests.{if◌then◌else◌, Bool-cases}
use serverless_flux.Base.Lists.{keep, All, All-keep, All-mem, mem-keep, keep-mem}

module _ {ℓ} {A : Type ℓ} (better : A → A → Bool) where
  unfoldable pub best_from : A → List A → A
  best_from best [] = best
  best_from best (x ∷ xs) = best_from (if better x best then x else best) xs

  abbrev pub best_of : List A → Option A
  best_of [] = none
  best_of (x ∷ xs) = some (best_from x xs)

  -- one round over an entry that may be skipped
  abbrev pub improve : Bool → A → Option A → Option A
  improve false x best = best
  improve true x none = some x
  improve true x (some b) = if better x b then some x else some b

  -- `for x { if !eligible(x) { continue }; if best == nil || better(x, best) { best = x } }`
  unfoldable pub choose : (A → Bool) → Option A → List A → Option A
  choose eligible best [] = best
  choose eligible best (x ∷ xs) = choose eligible (improve (eligible x) x best) xs

  pub best_from-mem : (b : A) (xs : List A) → Memᴰ (best_from b xs) (b ∷ xs)
  unfolding best_from
  best_from-mem b [] = Memᴰ.head refl
  best_from-mem b (x ∷ xs) = elim (Bool-cases (better x b)) [
    | inl e ↦ rw e (Memᴰ.tail (best_from-mem x xs))
    | inr e ↦ rw e (skip (best_from-mem b xs))
  ]
    where
      skip : {a : A} → Memᴰ a (b ∷ xs) → Memᴰ a (b ∷ x ∷ xs)
      skip (Memᴰ.head p) = Memᴰ.head p
      skip (Memᴰ.tail m) = Memᴰ.tail (Memᴰ.tail m)

  best_from-win :
      (b x : A) (xs : List A) → better x b ≡ true → best_from b (x ∷ xs) ≡ best_from x xs
  unfolding best_from
  best_from-win b x xs e = ap (λ c. best_from (if c then x else b) xs) e

  best_from-lose :
      (b x : A) (xs : List A) → better x b ≡ false → best_from b (x ∷ xs) ≡ best_from b xs
  unfolding best_from
  best_from-lose b x xs e = ap (λ c. best_from (if c then x else b) xs) e

  choose-some :
      (eligible : A → Bool) (b : A) (xs : List A)
      → choose eligible (some b) xs ≡ some (best_from b (keep eligible xs))
  unfolding choose
  choose-some eligible b [] = unfold best_from in refl
  choose-some eligible b (x ∷ xs) = elim (Bool-cases (eligible x)) [
    | inr e ↦ rw e (choose-some eligible b xs)
    | inl e ↦ rw e (elim (Bool-cases (better x b)) [
      | inl f ↦ rw (f, best_from-win b x _ f) (choose-some eligible x xs)
      | inr f ↦ rw (f, best_from-lose b x _ f) (choose-some eligible b xs)
    ])
  ]

  -- The loop returns the best of the eligible entries.
  pub choose-eq-best_of :
      (eligible : A → Bool) (xs : List A) → choose eligible none xs ≡ best_of (keep eligible xs)
  unfolding choose
  choose-eq-best_of eligible [] = refl
  choose-eq-best_of eligible (x ∷ xs) = elim (Bool-cases (eligible x)) [
    | inr e ↦ rw e (choose-eq-best_of eligible xs)
    | inl e ↦ rw e (choose-some eligible x xs)
  ]

-- The entries that no other beats, where `better` is a strict weak order on the entries of `P`.
module _ {ℓ κ} {A : Type ℓ} (better : A → A → Bool) (P : A → Type κ)
    (asymm : (x y : A) → better x y ≡ true → better y x ≡ false)
    (irrefl : (x : A) → better x x ≡ false)
    (not_trans : (x y z : A)
      → P x
      → P y
      → P z
      → better x y ≡ false
      → better y z ≡ false
      → better x z ≡ false) where
  best_from-P : (b : A) (xs : List A) → P b → All P xs → P (best_from better b xs)
  unfolding best_from
  best_from-P b [] p h = p
  best_from-P b (x ∷ xs) p (q, h) = elim (Bool-cases (better x b)) [
    | inl e ↦ rw e (best_from-P x xs q h)
    | inr e ↦ rw e (best_from-P b xs p h)
  ]

  abbrev pub Unbeaten : A → A → Type 0
  Unbeaten a x = better x a ≡ false

  pub best_from-Unbeaten :
      (b : A) (xs : List A) → P b → All P xs → All (Unbeaten (best_from better b xs)) (b ∷ xs)
  best_from-Unbeaten b [] p h = unfold best_from in (irrefl b, tt)
  best_from-Unbeaten b (x ∷ xs) p (q, h) = elim (Bool-cases (better x b)) [
    | inl e ↦
        let (now, later) = best_from-Unbeaten x xs q h in
        subst (λ r. All (Unbeaten r) (b ∷ x ∷ xs)) (sym (best_from-win better b x xs e))
          (not_trans b x _ p q (best_from-P x xs q h) (asymm x b e) now, (now, later))
    | inr e ↦
        let (now, later) = best_from-Unbeaten b xs p h in
        subst (λ r. All (Unbeaten r) (b ∷ x ∷ xs)) (sym (best_from-lose better b x xs e))
          (now, (not_trans x b _ q p (best_from-P b xs p h) e now, later))
  ]

  best_of-lem :
      (xs : List A) (t : A)
      → All P xs
      → best_of better xs ≡ some t
      → Memᴰ t xs × All (Unbeaten t) xs
  best_of-lem [] t h e = cc
  best_of-lem (x ∷ xs) t (p, h) e =
      let q = some-injective _ _ e in
      (
        subst (λ z. Memᴰ z (x ∷ xs)) q (best_from-mem better x xs),
        subst (λ z. All (Unbeaten z) (x ∷ xs)) q (best_from-Unbeaten x xs p h),
      )

  -- What the loop chooses is eligible, and no eligible entry beats it.
  pub choose_lem :
      (eligible : A → Bool) (xs : List A) (t : A)
      → All P xs
      → choose better eligible none xs ≡ some t
      → Memᴰ t xs
        × (eligible t ≡ true)
        × ((x : A) → Memᴰ x xs → eligible x ≡ true → better x t ≡ false)
  choose_lem eligible xs t h e =
      let (there, best) =
        best_of-lem (keep eligible xs) t (All-keep P eligible xs h)
          (sym (choose-eq-best_of better eligible xs) ∙ e) in
      let (m, fit) = mem-keep eligible t xs there in
      (m, fit, λ x n f. All-mem (Unbeaten t) (keep eligible xs) (keep-mem eligible x xs n f) best)

-- The loop chooses nothing exactly when nothing is eligible.
pub choose-eq-none {ℓ} :
    {A : Type ℓ} (better : A → A → Bool) (eligible : A → Bool) (xs : List A)
    → choose better eligible none xs ≡ none
    → (x : A) → Memᴰ x xs
    → eligible x ≡ false
choose-eq-none {A} better eligible xs e x m = elim (Bool-cases (eligible x)) [
  | inr f ↦ f
  | inl t ↦ absurd (
      no_entry (keep eligible xs) (sym (choose-eq-best_of better eligible xs) ∙ e)
        (keep-mem eligible x xs m t))
]
  where
    no_entry : (l : List A) → best_of better l ≡ none → Memᴰ x l → ⊥
    no_entry [] q n = elim n [ ]
    no_entry (y ∷ l) q n = cc

-- What the loop chooses is one of the eligible entries.
pub choose-mem {ℓ} :
    {A : Type ℓ} (better : A → A → Bool) (eligible : A → Bool) (xs : List A) (t : A)
    → choose better eligible none xs ≡ some t
    → Memᴰ t xs × (eligible t ≡ true)
choose-mem {A} better eligible xs t e =
    mem-keep eligible t xs
      (chosen (keep eligible xs) (sym (choose-eq-best_of better eligible xs) ∙ e))
  where
    chosen : (l : List A) → best_of better l ≡ some t → Memᴰ t l
    chosen [] q = cc
    chosen (y ∷ l) q = subst (λ z. Memᴰ z (y ∷ l)) (some-injective _ _ q) (best_from-mem better y l)
