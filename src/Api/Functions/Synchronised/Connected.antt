-- ===== src/Api/Functions/Synchronised/Connected.antt =====
-- The client of pkg/client/agent.go, over the connections that it holds, calls agents as the
-- synchronisation in pkg/api/handlers.go asks of it.
use serverless_flux.Base.{
  String, ◌≡◌, refl, sym, ap, ◌∙◌, Bool, false, Option, some, List, [], ◌∷◌, ◌++◌, Bool-cases, inl,
  inr, subst,
}
use serverless_flux.Base.Dict
use serverless_flux.Base.Result.{Result, ok, err}
use serverless_flux.Base.Action.{proceed}
use serverless_flux.Models.{Agent, Function}
use serverless_flux.Memory.{Bytes, Memory}
use serverless_flux.Registry
use serverless_flux.Client.Grpc.{
  Grpc, Ack, FunctionConfig, CertPaths, Clients, settle, config_of, acknowledged, grpc_client,
}
use serverless_flux.Api.Functions.Synchronised.{Call, registering, deploying, accepted, CallLaws}

-- The agent took what it was sent.
abbrev took : Result Ack → Bool
took (err e) = false
took (ok r) = r.success

-- A message over a connection is one to its address, and is recorded.
pub record WireLaws {F Creds Conn W : Type 0} (G : Grpc F Creds Conn W) (calls : W → List Call)
    (address_of : Conn → String) : Type 0 where
  pub register_wire :
      (c : Conn) (m : FunctionConfig) (w : W)
      → calls (G.register_function c 10 m w).1
        ≡ calls w ++ (registering (address_of c) m (took (G.register_function c 10 m w).0) ∷ [])
  pub deploy_wire :
      (c : Conn) (name : String) (code : Bytes) (w : W)
      → calls (G.deploy_function c 30 name code w).1
        ≡ calls w ++ (deploying (address_of c) name code ∷ [])

-- The client holds a connection to the address.
abbrev pub IsConnected : {Conn W : Type 0} → (Conn → String) → Clients Conn W → String → Type 0
IsConnected {Conn = Conn} address_of s address =
    (c : Conn) × (Dict.get address s.clients ≡ some c) × (address_of c ≡ address)

module _ {F Creds Conn W : Type 0} (G : Grpc F Creds Conn W) (pki : Option CertPaths) where
  -- what follows the answer
  abbrev reply_of : String → Clients Conn W → Result Ack × W → Result (Unit {0}) × Clients Conn W
  reply_of label s r = proceed (acknowledged label) (settle s r)

  register_connected :
      (a : Agent F) (fn : Function) (s : Clients Conn W) (c : Conn)
      → Dict.get a.address s.clients ≡ some c
      → (grpc_client G pki).register_function a fn s
        ≡ reply_of "registration failed: " s (G.register_function c 10 (config_of fn) s.outside)
  unfolding grpc_client Dict.get
  register_connected a fn s c h = rw h refl

  deploy_connected :
      (a : Agent F) (name : String) (code : Bytes) (s : Clients Conn W) (c : Conn)
      → Dict.get a.address s.clients ≡ some c
      → (grpc_client G pki).deploy_function a name code s
        ≡ reply_of "deployment failed: " s (G.deploy_function c 30 name code s.outside)
  unfolding grpc_client Dict.get
  deploy_connected a name code s c h = rw h refl

  reply_of-outside :
      (label : String) (s : Clients Conn W) (r : Result Ack × W)
      → (reply_of label s r).1 ≡ record s { outside = r.1 }
  reply_of-outside label s (err e, w) = refl
  reply_of-outside label s (ok r, w) = refl

  accepted-reply_of :
      (label : String) (s : Clients Conn W) (r : Result Ack × W)
      → accepted (reply_of label s r).0 ≡ took r.0
  accepted-reply_of label s (err e, w) = refl
  accepted-reply_of label s (ok r, w) = elim (Bool-cases r.success) [
    | inl e ↦ rw e refl
    | inr e ↦ rw e refl
  ]

module _ {F Creds Conn W : Type 0} (G : Grpc F Creds Conn W) (pki : Option CertPaths)
    (calls : W → List Call) (address_of : Conn → String) (L : WireLaws G calls address_of) where
  abbrev called : Clients Conn W → List Call
  called s = calls s.outside

  registers :
      (a : Agent F) (fn : Function) (s : Clients Conn W)
      → IsConnected address_of s a.address
      → let r = (grpc_client G pki).register_function a fn s in
        (called r.1 ≡ called s ++ (registering a.address (config_of fn) (accepted r.0) ∷ []))
        × IsConnected address_of r.1 a.address
  registers a fn s (c, held, of) =
      let label : String = "registration failed: " in
      let r = G.register_function c 10 (config_of fn) s.outside in
      let e = register_connected G pki a fn s c held in
      let out = ap (λ x. x.1) e ∙ reply_of-outside G pki label s r in
      (
        ap called out
            ∙ L.register_wire c (config_of fn) s.outside
            ∙ ap (λ d. called s ++ (registering d (config_of fn) (took r.0) ∷ [])) of
            ∙ ap (λ b. called s ++ (registering a.address (config_of fn) b ∷ []))
                (sym (ap (λ x. accepted x.0) e ∙ accepted-reply_of G pki label s r)),
        subst (λ x. IsConnected address_of x a.address) (sym out) (c, held, of),
      )

  deploys :
      (a : Agent F) (name : String) (code : Bytes) (s : Clients Conn W)
      → IsConnected address_of s a.address
      → let r = (grpc_client G pki).deploy_function a name code s in
        (called r.1 ≡ called s ++ (deploying a.address name code ∷ []))
        × IsConnected address_of r.1 a.address
  deploys a name code s (c, held, of) =
      let label : String = "deployment failed: " in
      let r = G.deploy_function c 30 name code s.outside in
      let e = deploy_connected G pki a name code s c held in
      let out = ap (λ x. x.1) e ∙ reply_of-outside G pki label s r in
      (
        ap called out
            ∙ L.deploy_wire c name code s.outside
            ∙ ap (λ d. called s ++ (deploying d name code ∷ [])) of,
        subst (λ x. IsConnected address_of x a.address) (sym out) (c, held, of),
      )

  -- If the calls of the client leave the store alone, the client does what a synchronisation relies
  -- on, at the addresses to which it holds a connection.
  grpc_client-CallLaws :
      (M : Memory F (Clients Conn W))
      → ((a : Agent F) (fn : Function) (s : Clients Conn W) (name : String)
          → Registry.get_code_archive M name ((grpc_client G pki).register_function a fn s).1
            ≡ Registry.get_code_archive M name s)
      → ((a : Agent F) (of : String) (code : Bytes) (s : Clients Conn W) (name : String)
          → Registry.get_code_archive M name ((grpc_client G pki).deploy_function a of code s).1
            ≡ Registry.get_code_archive M name s)
      → CallLaws M (grpc_client G pki) (λ s. calls s.outside) (IsConnected address_of)
  grpc_client-CallLaws M keeps leaves = record {
    register_calls = λ a fn s y. (registers a fn s y).0;
    deploy_calls = λ a name code s y. (deploys a name code s y).0;
    register_reaches = λ a fn s y. (registers a fn s y).1;
    deploy_reaches = λ a name code s y. (deploys a name code s y).1;
    register_archive = keeps;
    deploy_archive = leaves;
  }
