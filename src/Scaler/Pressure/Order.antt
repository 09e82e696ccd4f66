-- ===== src/Scaler/Pressure/Order.antt =====
-- The decision of `shouldScale` in pkg/resource/scaler.go and the order of the agents, which the
-- store lists in any.
use mathlib.Core.List.{Memᴰ}
use serverless_flux.Base.{
  ℕ, String, ◌≡◌, refl, subst, ◌≢◌, ◌↔◌, List, [], ◌∷◌, All, All-mem, mem-keep, keep-mem, sym,
}
use serverless_flux.Base.Int.{ℤ}
use serverless_flux.Floats.{Floats}
use serverless_flux.Models.{Agent}
use serverless_flux.Config.{AutoscaleConfig}
use serverless_flux.Scaler.Pressure.{ScaleDirection, up, neutral, down, History, should_scale}
use serverless_flux.Scaler.Pressure.Decision.{managed, should_scale-up_iff, should_scale-down_iff}

-- The lists have the same entries, in whatever order and however often.
abbrev pub SameEntries {ℓ} : {A : Type ℓ} → List A → List A → Type ℓ
SameEntries {A} xs ys = (x : A) → Memᴰ x xs ↔ Memᴰ x ys

flip {ℓ} : {A : Type ℓ} {xs ys : List A} → SameEntries xs ys → SameEntries ys xs
flip s x = ((s x).1, (s x).0)

All-of_mem {ℓ κ} :
    {A : Type ℓ} (P : A → Type κ) (xs : List A) → ((x : A) → Memᴰ x xs → P x) → All P xs
All-of_mem P [] h = tt
All-of_mem P (x ∷ xs) h = (h x (Memᴰ.head refl), All-of_mem P xs (λ y m. h y (Memᴰ.tail m)))

All-same {ℓ κ} :
    {A : Type ℓ} (P : A → Type κ) {xs ys : List A} → SameEntries xs ys → All P xs → All P ys
All-same P {xs} {ys} s h = All-of_mem P ys (λ x m. All-mem P xs ((s x).1 m) h)

nonempty-same {ℓ} : {A : Type ℓ} (xs : List A) {ys : List A} → SameEntries xs ys → xs ≢ [] → ys ≢ []
nonempty-same [] s h e = h refl
nonempty-same (x ∷ xs) s h e = elim (subst (Memᴰ x) e ((s x).0 (Memᴰ.head refl))) [ ]

agreed : (d e : ScaleDirection) → (d ≡ up ↔ e ≡ up) → (d ≡ down ↔ e ≡ down) → d ≡ e
agreed up e h k = sym (h.0 refl)
agreed down e h k = sym (k.0 refl)
agreed neutral up h k = h.1 refl
agreed neutral down h k = k.1 refl
agreed neutral neutral h k = refl

module _ {F : Type 0} ⦃o : Floats F⦄ (cfg : AutoscaleConfig F) (provider : String) (now : ℕ)
    (window : ℤ) (history : History F) where
  managed-same :
      {l m : List (Agent F)}
      → SameEntries l m
      → SameEntries (managed provider l) (managed provider m)
  managed-same {l} {m} s x = (through l m s, through m l (flip s))
    where
      through :
          (l m : List (Agent F))
          → SameEntries l m
          → Memᴰ x (managed provider l)
          → Memᴰ x (managed provider m)
      through l m s h = let (there, own) = mem-keep _ x l h in keep-mem _ x m ((s x).0 there) own

  up-same :
      (l m : List (Agent F))
      → SameEntries l m
      → should_scale cfg provider now window history l ≡ up
      → should_scale cfg provider now window history m ≡ up
  up-same l m s e =
      let (some, ready, hot) = (should_scale-up_iff cfg provider now window history l).0 e in
      let t = managed-same s in
      (should_scale-up_iff cfg provider now window history m).1
        (nonempty-same _ t some, All-same _ t ready, All-same _ t hot)

  down-same :
      (l m : List (Agent F))
      → SameEntries l m
      → should_scale cfg provider now window history l ≡ down
      → should_scale cfg provider now window history m ≡ down
  down-same l m s e =
      let (some, ready, cold, not_hot) =
        (should_scale-down_iff cfg provider now window history l).0 e in
      let t = managed-same s in
      (should_scale-down_iff cfg provider now window history m).1 (
        nonempty-same _ t some,
        All-same _ t ready,
        All-same _ t cold,
        λ hot. not_hot (All-same _ (flip t) hot),
      )

  -- The decision of the autoscaler depends on which agents the store lists as online, not on the
  -- order in which it does, nor on whether it lists one twice.
  pub should_scale-same :
      (l m : List (Agent F))
      → SameEntries l m
      → should_scale cfg provider now window history l
        ≡ should_scale cfg provider now window history m
  should_scale-same l m s =
      agreed _ _ (up-same l m s, up-same m l (flip s)) (down-same l m s, down-same m l (flip s))
