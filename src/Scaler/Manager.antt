-- ===== src/Scaler/Manager.antt =====
-- pkg/resource/providers_manager.go: the cloud providers, the fleet that they start with, and its
-- removal. A goroutine is a job that makes one operation at a time, and what a scheduler does is
-- a list of events. A counter is an `int32`, which wraps.
pub mod Providers
pub mod Filling
pub mod Progress
pub mod Emptying
use serverless_flux.Base.{
  ℕ, suc, String, ◌<>◌, ◌==◌, Bool, true, false, Option, none, some, List, [], ◌∷◌, ◌++◌, keep,
  length, replicate, if◌then◌else◌,
}
use serverless_flux.Base.Int.{ℤ, pos, negsuc, int_leb, sub64, count32}
use serverless_flux.Base.Result.{Result, ok, err}
use serverless_flux.Base.Jobs.{poke}
use serverless_flux.Floats.{Floats}
use serverless_flux.Models.{Agent}
use serverless_flux.Config.{NodeTypeConfig}
use serverless_flux.Memory.{Memory}
use serverless_flux.Registry
use serverless_flux.Scaler.NodeTypes.{NodeResources, smallest_node_resources}
use serverless_flux.Scaler.Provider.{ProvisionedNode, CloudProvider}

-- `providerEntry`
pub record ProviderEntry (F W : Type 0) : Type 0 where
  pub provider : CloudProvider F W
  pub min_nodes : ℤ
  pub node_types : List (NodeTypeConfig F)

-- A goroutine of `InitializeNodes`, by the operation that it makes next, or its success.
pub data Launch (F W : Type 0) : Type 0 where
  spawning : CloudProvider F W → NodeResources F → Launch F W
  bootstrapping : CloudProvider F W → ProvisionedNode → Launch F W
  discarding : CloudProvider F W → ProvisionedNode → Launch F W
  registering : CloudProvider F W → ProvisionedNode → Launch F W
  launched : Bool → Launch F W

-- A goroutine of `TerminateNodes`.
pub data Removal (F W : Type 0) : Type 0 where
  deregistering : CloudProvider F W → Agent F → Removal F W
  terminating : CloudProvider F W → Agent F → Removal F W
  removed : Bool → Removal F W

-- `InitializeNodes` under way: the entries that its loop has not seen, and its goroutines.
pub record Fill (F W : Type 0) : Type 0 where
  pub entries : List (ProviderEntry F W)
  pub launches : List (Launch F W)

-- What happens next: the loop of `InitializeNodes` sees an entry, the i-th goroutine makes a step,
-- or the rest of the system changes the world.
pub data Event (W : Type 0) : Type 0 where
  loop : Event W
  run : ℕ → Event W
  other : (W → W) → Event W

-- `for i := 0; i < need; i++`
abbrev pub rounds : ℤ → ℕ
rounds (pos n) = n
rounds (negsuc n) = 0

abbrev pub is_empty {ℓ} : {A : Type ℓ} → List A → Bool
is_empty [] = true
is_empty (_ ∷ _) = false

module _ {F W : Type 0} ⦃o : Floats F⦄ (M : Memory F W) (port : String) (clock : W → ℕ) where
  spawn_done : CloudProvider F W → Result ProvisionedNode × W → Launch F W × W
  spawn_done p (err e, w) = (launched false, w)
  spawn_done p (ok node, w) = (bootstrapping p node, w)

  bootstrap_done : CloudProvider F W → ProvisionedNode → Result (Unit {0}) × W → Launch F W × W
  bootstrap_done p node (err e, w) = (discarding p node, w)
  bootstrap_done p node (ok _, w) = (registering p node, w)

  -- one operation of a goroutine of `InitializeNodes`
  unfoldable pub launch : Launch F W → W → Launch F W × W
  unfolding spawn_done bootstrap_done
  launch (spawning p resources) w = spawn_done p (p.spawn_node resources w)
  launch (bootstrapping p node) w = bootstrap_done p node (p.bootstrap node w)
  launch (discarding p node) w = (launched false, (p.terminate_node node.provider_id w).1)
  launch (registering p node) w = (
    launched true,
    Registry.register_offline_agent M node.agent_id (node.public_ip <> (":" <> port))
        node.provider_id node.instance_type p.name (clock w) w,
  )
  launch (launched b) w = (launched b, w)

  -- The goroutines that the loop starts for an entry.
  unfoldable pub launches_for : ProviderEntry F W → W → List (Launch F W)
  unfolding sub64
  launches_for e w =
      let need = sub64 e.min_nodes (pos (length (Registry.get_all_agents M w))) in
      if int_leb need (pos 0)
      then []
      else if is_empty e.node_types
      then []
      else replicate (rounds need) (spawning e.provider (smallest_node_resources e.node_types))

  start_next : List (ProviderEntry F W) → List (Launch F W) → W → Fill F W
  unfolding launches_for
  start_next [] launches w = record { entries = []; launches = launches }
  start_next (e ∷ entries) launches w = record {
    entries = entries;
    launches = launches ++ launches_for e w;
  }

  unfoldable pub fill_event : Event W → Fill F W → W → Fill F W × W
  unfolding start_next launch
  fill_event loop f w = (start_next f.entries f.launches w, w)
  fill_event (run i) f w =
      let (launches, w') = poke launch i f.launches w in (record f { launches = launches }, w')
  fill_event (other step) f w = (f, step w)

  unfoldable pub fill_events : List (Event W) → Fill F W → W → Fill F W × W
  unfolding fill_event
  fill_events [] f w = (f, w)
  fill_events (e ∷ es) f w = let (f', w') = fill_event e f w in fill_events es f' w'

abbrev pub is_launched : {F W : Type 0} → Launch F W → Bool
is_launched (launched b) = true
is_launched _ = false

abbrev pub has_succeeded : {F W : Type 0} → Launch F W → Bool
has_succeeded (launched b) = b
has_succeeded _ = false

-- `wg.Wait()`: every goroutine has ended
abbrev pub all_of {ℓ} : {A : Type ℓ} → (A → Bool) → List A → Bool
all_of p [] = true
all_of p (x ∷ xs) = let rest = all_of p xs in if p x then rest else false

-- What `InitializeNodes` returns, once it does: the numbers that succeeded and were attempted.
unfoldable pub initialized : {F W : Type 0} → Fill F W → Option (ℤ × ℤ)
initialized f =
    if is_empty f.entries
    then (if all_of is_launched f.launches
        then some (count32 (length (keep has_succeeded f.launches)), count32 (length f.launches))
        else none)
    else none

module _ {F W : Type 0} (M : Memory F W) where
  -- the goroutines of `TerminateNodes`: for each entry, over the agents read at its start
  removals_of : CloudProvider F W → List (Agent F) → List (Removal F W)
  removals_of p [] = []
  removals_of p (a ∷ agents) =
      let rest = removals_of p agents in
      if a.provider == p.name then deregistering p a ∷ rest else rest

  unfoldable pub removals : List (ProviderEntry F W) → List (Agent F) → List (Removal F W)
  unfolding removals_of
  removals [] agents = []
  removals (e ∷ entries) agents = removals_of e.provider agents ++ removals entries agents

  abbrev pub was_removed : Result (Unit {0}) → Bool
  was_removed (err e) = false
  was_removed (ok _) = true

  unfoldable pub remove : Removal F W → W → Removal F W × W
  remove (deregistering p a) w = (terminating p a, Registry.deregister_agent M a.id w)
  remove (terminating p a) w =
      let (r, w') = p.terminate_node a.provider_id w in (removed (was_removed r), w')
  remove (removed b) w = (removed b, w)

  unfoldable pub empty_events : List (Event W) → List (Removal F W) → W → List (Removal F W) × W
  unfolding remove
  empty_events [] rs w = (rs, w)
  empty_events (loop ∷ es) rs w = empty_events es rs w
  empty_events (run i ∷ es) rs w = let (rs', w') = poke remove i rs w in empty_events es rs' w'
  empty_events (other step ∷ es) rs w = empty_events es rs (step w)

abbrev pub is_removed : {F W : Type 0} → Removal F W → Bool
is_removed (removed b) = true
is_removed _ = false

abbrev pub is_terminated : {F W : Type 0} → Removal F W → Bool
is_terminated (removed b) = b
is_terminated _ = false

-- What `TerminateNodes` returns, once it does.
unfoldable pub emptied : {F W : Type 0} → List (Removal F W) → Option ℤ
emptied rs = if all_of is_removed rs then some (count32 (length (keep is_terminated rs))) else none
