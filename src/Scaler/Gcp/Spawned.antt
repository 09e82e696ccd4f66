-- ===== src/Scaler/Gcp/Spawned.antt =====
-- pkg/resource/gcp.go: what is known of a node that `SpawnNode` returns.
use serverless_flux.Base.{
  String, ◌<>◌, ◌≡◌, refl, subst, ap, ◌∙◌, inl, inr, Option-cases, none, some, List, [], ◌∷◌,
}
use serverless_flux.Base.Result.{ok}
use serverless_flux.Base.Action.{proceed-eq-ok}
use serverless_flux.Base.Ensures.{
  Ensures, proceed-Ensures, relabel-Ensures, weaken, Ensures_of, Ensures-self, Ensures-eq, exactly,
  after,
}
use serverless_flux.Floats.{Floats}
use serverless_flux.Memory.{Bytes}
use serverless_flux.Config.{GcpProviderConfig}
use serverless_flux.Scaler.NodeTypes.{NodeResources}
use serverless_flux.Scaler.Catalog.{Sort, select_instance_type}
use serverless_flux.Scaler.Provider.{ProvisionedNode}
use serverless_flux.Scaler.Polling.{
  AreKnown, wait_for_ips, wait_for_ips-eq-ok, both_known, both_known-eq-some, node_types_of,
  configured, configured-eq-ok,
}
use serverless_flux.Scaler.Gcp.{
  Gce, OpWait, failed, done, pending, NetworkInterface, NewInstance, first_nat, first_address,
  op_loop, wait_for_op, ask_address, new_agent_id, launch_instance, new_instance, spawn_node,
}

first_nat-AreKnown :
    (private : String) (l : List String) {ips : String × String}
    → first_nat private l ≡ some ips
    → AreKnown ips
unfolding first_nat
first_nat-AreKnown private [] h = cc
first_nat-AreKnown private (nat ∷ rest) h = elim (Option-cases (both_known nat private)) [
  | inl e ↦ first_nat-AreKnown private rest (rw e at h)
  | inr e ↦ both_known-eq-some nat private (e.1 ∙ (rw e.1 at h))
]

first_address-AreKnown :
    (l : List NetworkInterface) {ips : String × String} → first_address l ≡ some ips → AreKnown ips
unfolding first_address
first_address-AreKnown [] h = cc
first_address-AreKnown (i ∷ rest) h = elim (Option-cases (first_nat i.network_ip i.nat_ips)) [
  | inl e ↦ first_address-AreKnown rest (rw e at h)
  | inr e ↦ first_nat-AreKnown i.network_ip i.nat_ips (e.1 ∙ (rw e.1 at h))
]

-- The answers end with the operation done, and no error in it.
abbrev pub EndsWell : {W : Type 0} → OpWait W → Type 0
EndsWell (failed e) = ⊥
EndsWell (done none) = Unit {0}
EndsWell (done (some e)) = ⊥
EndsWell (pending step rest) = EndsWell rest

module _ {Conn W : Type 0} (E : Gce Conn W) where
  op_loop-EndsWell :
      (op : String) (a : OpWait W) (w : W) → Ensures (λ _ _. EndsWell a) (op_loop E op a w)
  unfolding op_loop
  op_loop-EndsWell op (failed e) w = tt
  op_loop-EndsWell op (done none) w = tt
  op_loop-EndsWell op (done (some e)) w = tt
  op_loop-EndsWell op (pending step rest) w = op_loop-EndsWell op rest (step w)

  module _ {F : Type 0} (cfg : GcpProviderConfig F) (client : Conn) where
    -- An instance was requested, and the operation ended well.
    abbrev pub IsInserted : NewInstance → Type 0
    IsInserted spec =
        (u : W) × (v : W) × (op : String) × (E.insert client cfg.project_id cfg.zone spec u
          ≡ (ok op, v))
        × EndsWell (E.op_wait client cfg.project_id cfg.zone op v)

    -- The request for an instance of the node's type, named after the node's agent.
    abbrev pub IsRequest : NewInstance → ProvisionedNode → Type 0
    IsRequest spec node =
        (spec.name ≡ "flux-agent-" <> node.agent_id)
        × (spec.machine_type ≡ "zones/" <> (cfg.zone <> ("/machineTypes/" <> node.instance_type)))

    -- The provider described the instance of that name with these addresses.
    abbrev pub IsDescribed : String → String × String → Type 0
    IsDescribed name ips =
        (u : W) × (v : W) × (interfaces : List NetworkInterface) × (E.get client cfg.project_id
            cfg.zone name u
          ≡ (ok interfaces, v))
        × (first_address interfaces ≡ some ips)

    ask_address-IsDescribed :
        (name : String) (u : W) {ips : String × String} {v : W}
        → ask_address E cfg client name u ≡ (ok (some ips), v)
        → IsDescribed name ips
    unfolding ask_address
    ask_address-IsDescribed name u h =
        let (l, v', e, g) = proceed-eq-ok _ (E.get client cfg.project_id cfg.zone name u) h in
        (u, v', l, e, cc)

    IsLaunched : NewInstance → String × String → W → Type 0
    IsLaunched spec ips _ = IsInserted spec × IsDescribed spec.name ips

    waited :
        (spec : NewInstance) (w : W)
        → Ensures
            (λ ips _. IsDescribed spec.name ips)
            (wait_for_ips (ask_address E cfg client spec.name) spec.name (E.wait w) w)
    waited spec w =
        weaken
          (λ ips v.
            wait_for_ips (ask_address E cfg client spec.name) spec.name (E.wait w) w ≡ (ok ips, v))
          (λ ips _. IsDescribed spec.name ips) _
          (λ ips v e.
            let (z, asked) =
              wait_for_ips-eq-ok (ask_address E cfg client spec.name) spec.name (E.wait w) w e in
            ask_address-IsDescribed spec.name z asked)
          (Ensures-self _)

    launch_instance-IsLaunched :
        (spec : NewInstance) (w : W)
        → Ensures (IsLaunched spec) (launch_instance E cfg client spec w)
    unfolding launch_instance wait_for_op IsLaunched
    launch_instance-IsLaunched spec w =
        proceed-Ensures (λ op v. E.insert client cfg.project_id cfg.zone spec w ≡ (ok op, v))
          (IsLaunched spec) _ _
          (relabel-Ensures (λ op v. E.insert client cfg.project_id cfg.zone spec w ≡ (ok op, v))
            "Insert: " _ (Ensures-self (E.insert client cfg.project_id cfg.zone spec w)))
          λ op v e.
            proceed-Ensures (λ _ _. EndsWell (E.op_wait client cfg.project_id cfg.zone op v))
              (IsLaunched spec) _ _
              (relabel-Ensures (λ _ _. EndsWell (E.op_wait client cfg.project_id cfg.zone op v))
                ("insert " <> (spec.name <> ": ")) _
                (op_loop-EndsWell op (E.op_wait client cfg.project_id cfg.zone op v) v))
              λ t x ends.
                relabel-Ensures (IsLaunched spec)
                  ("instance " <> (spec.name <> " launched but IP wait failed: ")) _
                  (weaken (λ ips _. IsDescribed spec.name ips) (IsLaunched spec) _
                    (λ ips y d. ((w, v, op, e, ends), d)) (waited spec x))

    module _ ⦃o : Floats F⦄ (sort : Sort F) (public : Bytes) where
      abbrev IsSound : NodeResources F → ProvisionedNode → Type 0
      IsSound resources node =
          (select_instance_type sort (node_types_of cfg.autoscaling) resources
            ≡ ok node.instance_type)
          × (node.provider_id ≡ "flux-agent-" <> node.agent_id)
          × ((spec : NewInstance) × IsRequest spec node × IsInserted spec)
          × IsDescribed node.provider_id (node.public_ip, node.private_ip)
          × AreKnown (node.public_ip, node.private_ip)

      spawn_node-Ensures :
          (resources : NodeResources F) (w : W)
          → Ensures
              (λ node _. IsSound resources node)
              (spawn_node E sort cfg public client resources w)
      unfolding spawn_node IsLaunched new_instance
      spawn_node-Ensures resources w =
          exactly P _ (configured (node_types_of cfg.autoscaling), w)
            λ types w1 e1.
              let q = configured-eq-ok (node_types_of cfg.autoscaling) types (ap (λ p. p.0) e1) in
              proceed-Ensures (λ t _. select_instance_type sort types resources ≡ ok t) P _ _
                (relabel-Ensures (λ t _. select_instance_type sort types resources ≡ ok t)
                  "instance selection failed: " (select_instance_type sort types resources, w1)
                  (Ensures_of (λ t _. select_instance_type sort types resources ≡ ok t)
                    (select_instance_type sort types resources, w1) (λ t e. e)))
                λ type w2 e2. after P _ (new_agent_id E w2) λ agent w3.
                  proceed-Ensures (IsLaunched (new_instance cfg public agent type)) P _ _
                    (launch_instance-IsLaunched (new_instance cfg public agent type) w3)
                    λ ips w4 launched. (
                      subst (λ k. select_instance_type sort k resources ≡ ok type) q e2,
                      refl,
                      (new_instance cfg public agent type, (refl, refl), launched.0),
                      launched.1,
                      first_address-AreKnown launched.1.2 launched.1.4,
                    )
        where
          P : ProvisionedNode → W → Type 0
          P node _ = IsSound resources node

      -- If `SpawnNode` returns a node, its type is the one selected for the requested resources
      -- among the configured ones; an instance with that type, named after the node's agent, was
      -- requested, and the operation ended without an error; and the provider described the
      -- instance of that name, which is the node's id, with the node's two addresses, neither of
      -- which is empty.
      pub spawn_node-IsReady :
          (resources : NodeResources F) (w : W) (node : ProvisionedNode) (w' : W)
          → spawn_node E sort cfg public client resources w ≡ (ok node, w')
          → (select_instance_type sort (node_types_of cfg.autoscaling) resources
              ≡ ok node.instance_type)
            × (node.provider_id ≡ "flux-agent-" <> node.agent_id)
            × ((spec : NewInstance) × IsRequest spec node × IsInserted spec)
            × IsDescribed node.provider_id (node.public_ip, node.private_ip)
            × AreKnown (node.public_ip, node.private_ip)
      spawn_node-IsReady resources w node w' h =
          Ensures-eq (λ n _. IsSound resources n) (spawn_node E sort cfg public client resources w)
            node w' (spawn_node-Ensures resources w) h
