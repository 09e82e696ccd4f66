-- ===== src/Scaler/Autoscaler/Growth.antt =====
-- How the autoscaler of pkg/resource/scaler.go adds and replaces nodes.
use mathlib.Core.List.{Memᴰ}
use mathlib.Core.Option.{some-injective}
use serverless_flux.Base.{
  ℕ, String, ◌≡◌, refl, sym, ap, subst, ◌≢◌, ◌⊎◌, inl, inr, Bool, true, false, some, List, [], ◌∷◌,
  length, find, ◌<>◌, arith, ◌==◌, Bool-cases, Option-cases,
}
use serverless_flux.Base.Int.{pos, int_ltb, int_eqb}
use serverless_flux.Base.Result.{Result, ok, err}
use serverless_flux.Floats.{Floats}
use serverless_flux.Models.{Agent}
use serverless_flux.Config.{AutoscaleConfig}
use serverless_flux.Memory.{Memory}
use serverless_flux.Registry
use serverless_flux.Scaler.NodeTypes.{
  smallest_node_resources, largest_node_resources, largest_instance_type,
}
use serverless_flux.Scaler.Provider.{ProvisionedNode, CloudProvider}
use serverless_flux.Scaler.Autoscaler.{
  Autoscaler, drain_and_replace, bootstrap, Outcome, cooling, upgradable, managed_agents,
  register_spawned, upgrade, try_scale_up,
}
use serverless_flux.Scaler.Autoscaler.Limits.{managed-provider}

module _ {A : Type 0} (p : A → Bool) where
  find-some : (l : List A) (x : A) → find p l ≡ some x → Memᴰ x l × (p x ≡ true)
  find-some [] x e = cc
  find-some (y ∷ l) x e = elim (Bool-cases (p y)) [
    | inl t ↦
        let q : y ≡ x = some-injective y x (rw t at e) in
        (Memᴰ.head (sym q), subst (λ z. p z ≡ true) q t)
    | inr f ↦ let (m, t) = find-some l x (rw f at e) in (Memᴰ.tail m, t)
  ]

upgradable_lem :
    {F : Type 0} ⦃o : Floats F⦄
    → (cfg : AutoscaleConfig F) (x : Agent F) → upgradable cfg x ≡ true
    → ((x.instance_type == largest_instance_type cfg.node_types) ≡ false)
      × (int_eqb x.active_count (pos 0) ≡ true)
upgradable_lem cfg x h = ground arith

module _ {F W : Type 0} ⦃o : Floats F⦄ (M : Memory F W) (P : CloudProvider F W)
    (cfg : AutoscaleConfig F) (port : String) (a : Autoscaler F) where
  abbrev below_max : W → Bool
  below_max w = int_ltb (pos (length (managed_agents M P cfg port w))) cfg.max_nodes

  -- A launch: there were fewer managed nodes than the maximum, and the provider spawned a node
  -- for the smallest configured resources, which is registered offline and bootstrapped.
  pub record IsLaunch (stamp : ℕ) (w : W) (r : Outcome F W) : Type 0 where
    pub node : ProvisionedNode
    pub room : below_max w ≡ true
    pub spawned : (P.spawn_node (smallest_node_resources cfg.node_types) w).0 ≡ ok node
    pub result : r ≡ (
      record a { last_scale_up = stamp; history = [] },
      Registry.register_offline_agent M node.agent_id
          (node.public_ip <> (":" <> port))
          node.provider_id
          node.instance_type
          P.name
          stamp
          (P.spawn_node (smallest_node_resources cfg.node_types) w).1,
      bootstrap node ∷ [],
    )

  -- A replacement: the maximum was reached, and an idle node of the provider that is not of the
  -- largest type is set to draining, to be terminated and followed by one of the largest type.
  pub record IsReplacement (stamp : ℕ) (w : W) (r : Outcome F W) : Type 0 where
    pub node : Agent F
    pub full : below_max w ≡ false
    pub listed : Memᴰ node (Registry.get_all_agents M w)
    pub own : (node.provider == P.name) ≡ true
    pub small : (node.instance_type == largest_instance_type cfg.node_types) ≡ false
    pub idle : int_eqb node.active_count (pos 0) ≡ true
    pub result : r ≡ (
      record a { last_scale_up = stamp },
      Registry.set_draining M node.id w,
      drain_and_replace node.id node.address node.provider_id
            (largest_node_resources cfg.node_types)
          ∷ [],
    )

  launch_lem :
      (stamp : ℕ) (w : W) (r : Result ProvisionedNode × W)
      → below_max w ≡ true
      → P.spawn_node (smallest_node_resources cfg.node_types) w ≡ r
      → (register_spawned M P cfg port (record a { last_scale_up = stamp }) stamp r).2 ≢ []
      → IsLaunch stamp w
          (register_spawned M P cfg port (record a { last_scale_up = stamp }) stamp r)
  unfolding register_spawned
  launch_lem stamp w (ok node, w') room e h = record {
    node = node;
    room = room;
    spawned = ap (λ x. x.0) e;
    result = rw e refl;
  }
  launch_lem stamp w (err x, w') room e h = absurd (h refl)

  -- A scale-up that starts a goroutine comes after the cooldown, and is a launch or a replacement.
  pub try_scale_up_cases :
      (now stamp : ℕ) (w : W)
      → (try_scale_up M P cfg port a now stamp w).2 ≢ []
      → (cooling cfg now a.last_scale_up ≡ false)
        × (IsLaunch stamp w (try_scale_up M P cfg port a now stamp w)
            ⊎ IsReplacement stamp w (try_scale_up M P cfg port a now stamp w))
  unfolding try_scale_up
  try_scale_up_cases now stamp w h = elim (Bool-cases (cooling cfg now a.last_scale_up)) [
    | inl c ↦ absurd (h (rw c))
    | inr c ↦ elim (Bool-cases (below_max w)) [
      | inl m ↦ (c, rw (c, m) (inl (launch_lem stamp w _ m refl (rw (c, m) at h))))
      | inr m ↦ elim (Option-cases (find (upgradable cfg) (managed_agents M P cfg port w))) [
        | inl e ↦ absurd (h (rw (c, m, e, upgrade)))
        | inr (x, e) ↦
            let (there, fit) = find-some (upgradable cfg) _ x e in
            let (listed, own) = managed-provider M P cfg port a w x there in
            (
              c,
              inr (record {
                node = x;
                full = m;
                listed = listed;
                own = own;
                small = (upgradable_lem cfg x fit).0;
                idle = (upgradable_lem cfg x fit).1;
                result = rw (c, m, e, upgrade);
              }),
            )
      ]
    ]
  ]
