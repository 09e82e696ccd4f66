-- ===== src/Scaler/Bootstrap/Deadline.antt =====
-- pkg/resource/bootstrap.go: the three minutes that `dial` gives a node to come up.
use mathlib.Core.Option
use serverless_flux.Base.{
  ℕ, zero, suc, ◌+◌, ◌*◌, ◌≤◌, ◌<◌, ltb, String, ◌<>◌, ◌≡◌, refl, ap, Option, some, Bool-cases, inl,
  inr, arith,
}
use serverless_flux.Base.Result.{Result, ok, err}
use serverless_flux.Pki.{Disk, Crypto}
use serverless_flux.Scaler.Provider.{ProvisionedNode}
use serverless_flux.Scaler.Bootstrap.{
  Ssh, BootstrapConfig, tick, three_minutes, waited, after_dial, connected, installed, dial_loop,
  dial, load_signer, bootstrap,
}

module _ {Signer Conn Session Pipe W : Type 0} (H : Ssh Signer Conn Session Pipe W) where
  -- What `time` documents: the n-th tick of a ticker does not come before n periods are over, and
  -- no dialling turns the clock back.
  pub record ClockLaws : Type 0 where
    pub tick_late :
        (start n : ℕ) (w : W)
        → (H.next_tick start n w).0 ≡ ok tt
        → start + n * tick ≤ H.clock (H.next_tick start n w).1
    pub dial_forward :
        (addr user : String) (signer : Signer) (w : W)
        → H.clock w ≤ H.clock (H.dial addr user signer w).1

abbrev Returns : {A : Type 0} → Option A → Type 0
Returns {A} o = (a : A) × (o ≡ some a)

module _ {Signer Conn Session Pipe W : Type 0} (H : Ssh Signer Conn Session Pipe W)
    (L : ClockLaws H) where
  waited-Returns :
      {A : Type 0} (rest : W → Option (Result A × W)) (bound : ℕ) (r : Result (Unit {0}) × W)
      → (r.0 ≡ ok tt → bound ≤ H.clock r.1)
      → ((u : W) → bound ≤ H.clock u → Returns (rest u))
      → Returns (waited H rest r)
  unfolding waited
  waited-Returns rest bound (err e, u) h k = ((err e, u), refl)
  waited-Returns rest bound (ok t, u) h k = k u (h refl)

  -- Before the deadline an attempt waits for the next tick; after it there is no next one.
  after_dial-Returns :
      {A : Type 0} (start n : ℕ) (rest : W → Option (Result A × W)) (r : Result A × W)
      → start + n * tick ≤ H.clock r.1
      → (n < 37 → (u : W) → start + (n + 1) * tick ≤ H.clock u → Returns (rest u))
      → Returns (after_dial H start n rest r)
  unfolding after_dial
  after_dial-Returns start n rest (ok c, v) h k = ((ok c, v), refl)
  after_dial-Returns start n rest (err e, v) h k =
      elim (Bool-cases (ltb (start + three_minutes) (H.clock v))) [
        | inl late ↦ ((err ("SSH unreachable after 3 minutes: " <> e), v), rw late)
        | inr early ↦ rw early (
            waited-Returns rest (start + (n + 1) * tick) (H.next_tick start (n + 1) v)
              (L.tick_late start (n + 1) v) (k (ground arith)))
      ]

  dial_loop-Returns :
      (fuel : ℕ) (start : ℕ) (addr user : String) (signer : Signer) (n : ℕ) (w : W)
      → 38 ≤ n + fuel
      → n ≤ 37
      → start + n * tick ≤ H.clock w
      → Returns (dial_loop H fuel start addr user signer n w)
  unfolding dial_loop
  dial_loop-Returns zero start addr user signer n w e h c = absurd (omega arith)
  dial_loop-Returns (suc fuel) start addr user signer n w e h c =
      after_dial-Returns start n (dial_loop H fuel start addr user signer (n + 1))
        (H.dial addr user signer w) (omega (arith, L.dial_forward addr user signer w))
        (λ lt u late.
          dial_loop-Returns fuel start addr user signer (n + 1) u (omega arith) (omega arith) late)

  module _ {Serial Cert Key : Type 0} (D : Disk W) (X : Crypto Serial Cert Key W)
      (cfg : BootstrapConfig Cert Key) where
    connected-Returns :
        (fuel : ℕ) (host : String) (r : Result Signer × W)
        → 38 ≤ fuel
        → Returns (connected H D X cfg fuel host r)
    unfolding connected
    connected-Returns fuel host (err e, w) h = ((err e, w), refl)
    connected-Returns fuel host (ok signer, w) h =
        dial_loop-Returns fuel (H.clock w) _ cfg.ssh_user signer 0 w (omega arith) (omega arith)
          (omega arith)

    -- For a ticker and a clock that keep what `time` documents, 38 attempts to connect are all that
    -- the three minutes leave room for: with that many `Bootstrap` returns, whatever the network,
    -- the commands on the node and the context do.
    pub bootstrap-returns :
        (fuel : ℕ) (node : ProvisionedNode) (w : W)
        → 38 ≤ fuel
        → (r : Result (Unit {0}) × W) × (bootstrap H D X cfg fuel node w ≡ some r)
    unfolding bootstrap dial
    bootstrap-returns fuel node w h =
        let (r, e) = connected-Returns fuel node.public_ip (load_signer H D X cfg w) h in
        (installed H D X cfg node r, ap (Option.map (installed H D X cfg node)) e)
