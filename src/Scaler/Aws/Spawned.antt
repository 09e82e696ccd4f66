-- ===== src/Scaler/Aws/Spawned.antt =====
-- pkg/resource/aws.go: what is known of a node that `SpawnNode` returns.
use mathlib.Core.List.{Memᴰ}
use serverless_flux.Base.{
  String, ◌<>◌, ◌≡◌, refl, subst, ap, ◌∙◌, inl, inr, Option, Option-cases, some, List, [], ◌∷◌,
}
use serverless_flux.Base.Result.{ok}
use serverless_flux.Base.Action.{proceed-eq-ok}
use serverless_flux.Base.Ensures.{
  Ensures, proceed-Ensures, relabel-Ensures, Ensures_of, Ensures-self, Ensures-eq, exactly, after,
}
use serverless_flux.Floats.{Floats}
use serverless_flux.Config.{AwsProviderConfig, NodeTypeConfig}
use serverless_flux.Scaler.NodeTypes.{NodeResources}
use serverless_flux.Scaler.Catalog.{Sort, select_instance_type}
use serverless_flux.Scaler.Provider.{ProvisionedNode}
use serverless_flux.Scaler.Polling.{
  AreKnown, configured-eq-ok, wait_for_ips, wait_for_ips-eq-ok, both_known-eq-some, node_types_of,
  configured,
}
use serverless_flux.Scaler.Aws.{
  Ec2, Instance, RunInstancesInput, to_string, ips_of, first_of_instances, first_ips,
  first_instance, launch_input, ask_ips, new_agent_id, spawn_node,
}

first_of_instances-AreKnown :
    (l : List Instance) {ips : String × String} → first_of_instances l ≡ some ips → AreKnown ips
unfolding first_of_instances
first_of_instances-AreKnown [] h = cc
first_of_instances-AreKnown (x ∷ rest) h = elim (Option-cases (ips_of x)) [
  | inl e ↦ first_of_instances-AreKnown rest (rw e at h)
  | inr e ↦
      both_known-eq-some (to_string x.public_ip_address) (to_string x.private_ip_address)
        (e.1 ∙ (rw e.1 at h))
]

first_ips-AreKnown :
    (l : List (List Instance)) {ips : String × String} → first_ips l ≡ some ips → AreKnown ips
unfolding first_ips
first_ips-AreKnown [] h = cc
first_ips-AreKnown (x ∷ rest) h = elim (Option-cases (first_of_instances x)) [
  | inl e ↦ first_ips-AreKnown rest (rw e at h)
  | inr e ↦ first_of_instances-AreKnown x (e.1 ∙ (rw e.1 at h))
]

first_instance-eq-ok :
    (l : List (Option String)) (id : String)
    → first_instance l ≡ ok id
    → (first : Option String) × (rest : List (Option String)) × (l ≡ first ∷ rest)
      × (to_string first ≡ id)
unfolding first_instance
first_instance-eq-ok [] id h = cc
first_instance-eq-ok (x ∷ rest) id h = (x, rest, refl, cc)

-- One instance of the node's type, with the name and the tags of its agent.
abbrev pub IsRequest : RunInstancesInput → ProvisionedNode → Type 0
IsRequest input node =
    (input.instance_type ≡ node.instance_type)
    × ((input.min_count ≡ 1) × (input.max_count ≡ 1))
    × Memᴰ ("Name", "flux-agent-" <> node.agent_id) input.instance_tags
    × Memᴰ ("flux:role", "agent") input.instance_tags
    × Memᴰ ("flux:agent-id", node.agent_id) input.instance_tags

module _ {Conn W : Type 0} (E : Ec2 Conn W) where
  -- The first instance of an answer to the request for one of the node's type, with the tags of its
  -- agent.
  abbrev pub IsLaunched : Conn → ProvisionedNode → Type 0
  IsLaunched client node =
      (u : W) × (v : W) × (first : Option String) × (rest : List (Option String))
      × (input : RunInstancesInput) × (E.run_instances client input u ≡ (ok (first ∷ rest), v))
      × (to_string first ≡ node.provider_id)
      × IsRequest input node

  -- The provider described an instance of the node's id with the node's addresses.
  abbrev pub IsDescribed : Conn → ProvisionedNode → Type 0
  IsDescribed client node =
      (u : W) × (v : W) × (reservations : List (List Instance)) × (E.describe_instances client
          node.provider_id u
        ≡ (ok reservations, v))
      × (first_ips reservations ≡ some (node.public_ip, node.private_ip))

  ask_ips-eq-ok :
      (client : Conn) (id : String) (u : W) {ips : String × String} {v : W}
      → ask_ips E client id u ≡ (ok (some ips), v)
      → (v' : W) × (reservations : List (List Instance)) × (E.describe_instances client id u
          ≡ (ok reservations, v'))
        × (first_ips reservations ≡ some ips)
  unfolding ask_ips
  ask_ips-eq-ok client id u h =
      let (rs, v', e, g) = proceed-eq-ok _ (E.describe_instances client id u) h in (v', rs, e, cc)

  module _ {F : Type 0} ⦃o : Floats F⦄ (sort : Sort F) (cfg : AwsProviderConfig F) where
    abbrev IsSound : Conn → NodeResources F → ProvisionedNode → Type 0
    IsSound client resources node =
        (select_instance_type sort (node_types_of cfg.autoscaling) resources
          ≡ ok node.instance_type)
        × IsLaunched client node
        × IsDescribed client node
        × AreKnown (node.public_ip, node.private_ip)

    -- from the results of the steps
    sound :
        (client : Conn) (resources : NodeResources F) (types : List (NodeTypeConfig F))
        (type agent : String) (l : List (Option String)) (id : String) (ips : String × String)
        (u v x y : W)
        → configured (node_types_of cfg.autoscaling) ≡ ok types
        → select_instance_type sort types resources ≡ ok type
        → E.run_instances client (launch_input cfg agent type) u ≡ (ok l, v)
        → first_instance l ≡ ok id
        → wait_for_ips (ask_ips E client id) id (E.wait x) x ≡ (ok ips, y)
        → IsSound client resources (record {
          provider_id = id;
          agent_id = agent;
          instance_type = type;
          public_ip = ips.0;
          private_ip = ips.1;
        })
    sound client resources types type agent l id ips u v x y c selected launched named waited =
        let t = configured-eq-ok (node_types_of cfg.autoscaling) types c in
        let (first, rest, same, is_id) = first_instance-eq-ok l id named in
        let (z, asked) = wait_for_ips-eq-ok (ask_ips E client id) id (E.wait x) x waited in
        let (z', reservations, described, found) = ask_ips-eq-ok client id z asked in
        (
          subst (λ k. select_instance_type sort k resources ≡ ok type) t selected,
          (
            u,
            v,
            first,
            rest,
            launch_input cfg agent type,
            subst (λ k. E.run_instances client (launch_input cfg agent type) u ≡ (ok k, v)) same
                launched,
            is_id,
            (
              refl,
              (refl, refl),
              Memᴰ.head refl,
              Memᴰ.tail (Memᴰ.head refl),
              Memᴰ.tail (Memᴰ.tail (Memᴰ.head refl)),
            ),
          ),
          (z, z', reservations, described, found),
          first_ips-AreKnown reservations found,
        )

    spawn_node-Ensures :
        (client : Conn) (resources : NodeResources F) (w : W)
        → Ensures
            (λ node _. IsSound client resources node)
            (spawn_node E sort cfg client resources w)
    unfolding spawn_node
    spawn_node-Ensures client resources w =
        exactly P _ (configured (node_types_of cfg.autoscaling), w)
          λ types w1 e1.
            proceed-Ensures (λ t _. select_instance_type sort types resources ≡ ok t) P _ _
              (relabel-Ensures (λ t _. select_instance_type sort types resources ≡ ok t)
                "instance selection failed: " (select_instance_type sort types resources, w1)
                (Ensures_of (λ t _. select_instance_type sort types resources ≡ ok t)
                  (select_instance_type sort types resources, w1) (λ t e. e)))
              λ type w2 e2. after P _ (new_agent_id E w2) λ agent w3.
                proceed-Ensures
                  (λ l v. E.run_instances client (launch_input cfg agent type) w3 ≡ (ok l, v)) P _ _
                  (relabel-Ensures
                    (λ l v. E.run_instances client (launch_input cfg agent type) w3 ≡ (ok l, v))
                    "RunInstances: " _
                    (Ensures-self (E.run_instances client (launch_input cfg agent type) w3)))
                  λ l w4 e4.
                    exactly P _ (first_instance l, w4)
                      λ id w5 e5.
                        proceed-Ensures
                          (λ ips v.
                            wait_for_ips (ask_ips E client id) id (E.wait w5) w5 ≡ (ok ips, v))
                          P _ _
                          (relabel-Ensures
                            (λ ips v.
                              wait_for_ips (ask_ips E client id) id (E.wait w5) w5 ≡ (ok ips, v))
                            ("instance " <> (id <> " launched but IP wait failed: ")) _
                            (Ensures-self (wait_for_ips (ask_ips E client id) id (E.wait w5) w5)))
                          λ ips w6 e6.
                            sound client resources types type agent l id ips w3 w4 w5 w6
                              (ap (λ p. p.0) e1) e2 e4 (ap (λ p. p.0) e5) e6
      where
        P : ProvisionedNode → W → Type 0
        P node _ = IsSound client resources node

    -- If `SpawnNode` returns a node, its type is the one selected for the requested resources among
    -- the configured ones; the provider launched an instance of that type, tagged with the node's
    -- agent, whose id the node has; and the provider described the instance of that id with the
    -- node's two addresses, neither of which is empty.
    pub spawn_node-IsSound :
        (client : Conn) (resources : NodeResources F) (w : W) (node : ProvisionedNode) (w' : W)
        → spawn_node E sort cfg client resources w ≡ (ok node, w')
        → (select_instance_type sort (node_types_of cfg.autoscaling) resources
            ≡ ok node.instance_type)
          × IsLaunched client node
          × IsDescribed client node
          × AreKnown (node.public_ip, node.private_ip)
    spawn_node-IsSound client resources w node w' h =
        Ensures-eq (λ n _. IsSound client resources n) (spawn_node E sort cfg client resources w)
          node w' (spawn_node-Ensures client resources w) h
