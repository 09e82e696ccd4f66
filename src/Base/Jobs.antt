-- ===== src/Base/Jobs.antt =====
-- Goroutines that run at once: a list of jobs of which a scheduler advances one at a time, by a
-- step that is a single operation on the shared world.
use serverless_flux.Base.{
  ℕ, zero, suc, false, ◌≡◌, refl, List, [], ◌∷◌, some, length, get_elem?, arith, eqb, All,
}

module _ {J W : Type 0} (advance : J → W → J × W) where
  -- the i-th job makes one step; there may be none
  unfoldable pub poke : ℕ → List J → W → List J × W
  poke i [] w = ([], w)
  poke zero (j ∷ js) w = let (j', w') = advance j w in (j' ∷ js, w')
  poke (suc i) (j ∷ js) w = let (js', w') = poke i js w in (j ∷ js', w')

  pub length-poke : (i : ℕ) (js : List J) (w : W) → length (poke i js w).0 ≡ length js
  unfolding poke
  length-poke i [] w = refl
  length-poke zero (j ∷ js) w = refl
  length-poke (suc i) (j ∷ js) w = omega (arith, length-poke i js w)

  pub get_elem?-poke_self :
      (i : ℕ) (js : List J) (w : W) {j : J}
      → get_elem? js i ≡ some j
      → get_elem? (poke i js w).0 i ≡ some (advance j w).0
  unfolding poke
  get_elem?-poke_self i [] w h = cc
  get_elem?-poke_self zero (j ∷ js) w h = cc
  get_elem?-poke_self (suc i) (j ∷ js) w h = get_elem?-poke_self i js w h

  pub get_elem?-poke_other :
      (i k : ℕ) (js : List J) (w : W)
      → eqb k i ≡ false
      → get_elem? (poke k js w).0 i ≡ get_elem? js i
  unfolding poke
  get_elem?-poke_other i k [] w h = refl
  get_elem?-poke_other zero zero (j ∷ js) w h = cc
  get_elem?-poke_other zero (suc k) (j ∷ js) w h = refl
  get_elem?-poke_other (suc i) zero (j ∷ js) w h = refl
  get_elem?-poke_other (suc i) (suc k) (j ∷ js) w h = get_elem?-poke_other i k js w (ground arith)

  -- A property that every step keeps holds of all the jobs.
  pub All-poke :
      (P : J → Type 0)
      → ((j : J) (w : W) → P j → P (advance j w).0)
      → (i : ℕ) (js : List J) (w : W) → All P js
      → All P (poke i js w).0
  unfolding poke
  All-poke P keep i [] w h = tt
  All-poke P keep zero (j ∷ js) w (p, h) = (keep j w p, h)
  All-poke P keep (suc i) (j ∷ js) w (p, h) = (p, All-poke P keep i js w h)
