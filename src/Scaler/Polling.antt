-- ===== src/Scaler/Polling.antt =====
-- What pkg/resource/aws.go and gcp.go have in common: the wait for the addresses of an instance,
-- and the settings that they take from the configuration.
use serverless_flux.Base.{
  String, ◌<>◌, ◌==◌, false, Option, none, some, ◌⊎◌, inl, inr, ◌≡◌, arith, List, [], ◌∷◌,
  if◌then◌else◌,
}
use serverless_flux.Base.Result.{Result, ok, err}
use serverless_flux.Base.Action.{Action}
use serverless_flux.Config.{AutoscaleConfig, NodeTypeConfig}

-- How a wait goes on: `select` on a timeout, the context and a ticker. A tick comes after some
-- change of the world, and the wait ends.
pub data Wait (W : Type 0) : Type 0 where
  timed_out : Wait W
  cancelled : String → Wait W
  ticked : (W → W) → Wait W → Wait W

module _ {W : Type 0} where
  -- an error of the request, or no addresses yet: `continue`
  unfoldable pub polled :
      Action W (String × String)
      → Result (Option (String × String)) × W
      → Result (String × String) × W
  polled rest (err e, w) = rest w
  polled rest (ok none, w) = rest w
  polled rest (ok (some ips), w) = (ok ips, w)

  -- the `for` of `waitForIPs`, over the request for the addresses
  unfoldable pub wait_for_ips :
      Action W (Option (String × String)) → String → Wait W → Action W (String × String)
  unfolding polled
  wait_for_ips ask id timed_out w = (err ("timed out waiting for IPs on " <> id), w)
  wait_for_ips ask id (cancelled e) w = (err e, w)
  wait_for_ips ask id (ticked step rest) w = polled (wait_for_ips ask id rest) (ask (step w))

-- `pub != "" && priv != ""`
abbrev pub both_known : String → String → Option (String × String)
both_known public private =
    if public == "" then none else if private == "" then none else some (public, private)

abbrev pub or_else {ℓ} : {A : Type ℓ} → Option A → Option A → Option A
or_else none b = b
or_else (some a) b = some a

-- the node types of the provider, where there are any
abbrev pub node_types_of : {F : Type 0} → Option (AutoscaleConfig F) → List (NodeTypeConfig F)
node_types_of none = []
node_types_of (some scaling) = scaling.node_types

abbrev pub configured : {A : Type 0} → List A → Result (List A)
configured [] = err "no node_types configured"
configured (t ∷ types) = ok (t ∷ types)

module _ {W : Type 0} where
  polled-eq-ok :
      (rest : Action W (String × String)) (r : Result (Option (String × String)) × W)
      {ips : String × String} {w' : W}
      → polled rest r ≡ (ok ips, w')
      → ((v : W) × (rest v ≡ (ok ips, w'))) ⊎ (r ≡ (ok (some ips), w'))
  unfolding polled
  polled-eq-ok rest (err e, v) h = inl (v, h)
  polled-eq-ok rest (ok none, v) h = inl (v, h)
  polled-eq-ok rest (ok (some ips), v) h = inr (cc)

  -- A wait that succeeded ends with an answer that has the addresses.
  pub wait_for_ips-eq-ok :
      (ask : Action W (Option (String × String))) (id : String) (wait : Wait W) (w : W)
      {ips : String × String} {w' : W}
      → wait_for_ips ask id wait w ≡ (ok ips, w')
      → (u : W) × (ask u ≡ (ok (some ips), w'))
  unfolding wait_for_ips
  wait_for_ips-eq-ok ask id timed_out w h = cc
  wait_for_ips-eq-ok ask id (cancelled e) w h = cc
  wait_for_ips-eq-ok ask id (ticked step rest) w h =
      elim (polled-eq-ok (wait_for_ips ask id rest) (ask (step w)) h) [
        | inl again ↦ wait_for_ips-eq-ok ask id rest again.0 again.1
        | inr now ↦ (step w, now)
      ]

pub both_known-eq-some :
    (public private : String) {ips : String × String}
    → both_known public private ≡ some ips
    → ((ips.0 == "") ≡ false) × ((ips.1 == "") ≡ false)
both_known-eq-some public private h = ground arith

-- Neither address of a pair is empty.
abbrev pub AreKnown : String × String → Type 0
AreKnown ips = ((ips.0 == "") ≡ false) × ((ips.1 == "") ≡ false)

pub configured-eq-ok : {A : Type 0} (l types : List A) → configured l ≡ ok types → types ≡ l
configured-eq-ok [] types h = cc
configured-eq-ok (t ∷ l) types h = cc
