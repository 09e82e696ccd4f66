-- ===== src/Client/Grpc/Calls.antt =====
-- What the answers of `AgentClient` of pkg/client/agent.go stand for.
use serverless_flux.Base.{
  String, ◌≡◌, refl, sym, ap, true, false, not, Option, none, some, ◌⊎◌, inl, inr, Bool-cases,
  if◌then◌else◌,
}
use serverless_flux.Base.Result.{Result, ok, err}
use serverless_flux.Base.Action.{Action, proceed, proceed-eq-ok}
use serverless_flux.Models.{Agent, Function, ExecutionRecord}
use serverless_flux.Memory.{Bytes}
use serverless_flux.Client.Grpc.{
  Grpc, Ack, GetExecutionResponse, CertPaths, Clients, settle, outside_of, acknowledged, config_of,
  decoded_record, get, call_register_function, call_deploy_function, call_get_execution,
  grpc_client,
}

module _ {F Creds Conn W : Type 0} (G : Grpc F Creds Conn W) (pki : Option CertPaths) (a : Agent F)
    (s : Clients Conn W) where
  -- The client had or opened a connection to the agent, and over it the call of the service, made
  -- in the world after that, answered `r`; it left the world of `s'` and the connections alone.
  pub record IsAnswered {A : Type 0} (call : Conn → Action W A) (r : A) (s' : Clients Conn W)
      : Type 0 where
    pub conn : Conn
    pub opened : Clients Conn W
    pub connected : get G pki a.address s ≡ (ok conn, opened)
    pub answered : call conn opened.outside ≡ (ok r, s'.outside)
    pub same_clients : s'.clients ≡ opened.clients

  settle-parts :
      {A : Type 0} (v : Clients Conn W) (q : Result A × W) (r : A) (s' : Clients Conn W)
      → settle v q ≡ (ok r, s')
      → (q ≡ (ok r, s'.outside)) × (s'.clients ≡ v.clients)
  settle-parts v (err e, w) r s' h = cc
  settle-parts v (ok b, w) r s' h = (ap (λ x. (x.0, x.1.outside)) h, sym (ap (λ x. x.1.clients) h))

  call-IsAnswered :
      {A : Type 0} (call : Conn → Action W A) (r : A) (v s' : Clients Conn W) (cl : Conn)
      → get G pki a.address s ≡ (ok cl, v)
      → outside_of (call cl) v ≡ (ok r, s')
      → IsAnswered call r s'
  call-IsAnswered call r v s' cl g h =
      let (p, q) = settle-parts v (call cl v.outside) r s' h in
      record { conn = cl; opened = v; connected = g; answered = p; same_clients = q }

  acknowledged-parts :
      (label : String) (r : Ack) (v s' : Clients Conn W)
      → acknowledged label r v ≡ (ok tt, s')
      → (r.success ≡ true) × (v ≡ s')
  acknowledged-parts label r v s' h = elim (Bool-cases r.success) [
    | inl e ↦ (e, ap (λ x. x.1) (rw e at h))
    | inr e ↦ absurd (err_ne_ok (rw e at h))
  ]
    where
      err_ne_ok :
          {m : String} {u w : Clients Conn W}
          → Path (Result (Unit {0}) × Clients Conn W) (err m, u) (ok tt, w)
          → ⊥
      err_ne_ok q = cc

  acknowledged-IsAnswered :
      (call : Conn → Action W Ack) (label : String) (s' : Clients Conn W)
      → proceed
          (λ cl. λ u. proceed (acknowledged label) (outside_of (call cl) u))
          (get G pki a.address s)
        ≡ (ok tt, s')
      → (r : Ack) × (r.success ≡ true) × IsAnswered call r s'
  acknowledged-IsAnswered call label s' h =
      let (cl, v, g, k) =
        proceed-eq-ok (λ cl. λ u. proceed (acknowledged label) (outside_of (call cl) u)) _ h in
      let (r, u, p, q) = proceed-eq-ok (acknowledged label) _ k in
      let (e, t) = acknowledged-parts label r u s' q in
      (r, e, call-IsAnswered call r v s' cl g (rw (← t) p))

  -- A registration succeeds only if the agent acknowledged the configuration of the function.
  pub register_function-IsAnswered :
      (fn : Function) (s' : Clients Conn W)
      → (grpc_client G pki).register_function a fn s ≡ (ok tt, s')
      → (r : Ack) × (r.success ≡ true)
        × IsAnswered (λ c. G.register_function c 10 (config_of fn)) r s'
  unfolding grpc_client call_register_function
  register_function-IsAnswered fn s' h = acknowledged-IsAnswered _ _ s' h

  -- A deployment succeeds only if the agent acknowledged the archive of the function.
  pub deploy_function-IsAnswered :
      (name : String) (archive : Bytes) (s' : Clients Conn W)
      → (grpc_client G pki).deploy_function a name archive s ≡ (ok tt, s')
      → (r : Ack) × (r.success ≡ true) × IsAnswered (λ c. G.deploy_function c 30 name archive) r s'
  unfolding grpc_client call_deploy_function
  deploy_function-IsAnswered name archive s' h = acknowledged-IsAnswered _ _ s' h

  -- What `GetExecution` reports is what the agent answered: no record only if it found none, and a
  -- record only if it found one, of which the answer is the JSON.
  get_execution-IsAnswered :
      (id : String) (o : Option ExecutionRecord) (s' : Clients Conn W)
      → (grpc_client G pki).get_execution a id s ≡ (ok o, s')
      → (r : GetExecutionResponse) × IsAnswered (λ c. G.get_execution c 5 id) r s'
        × (((o ≡ none) × (r.found ≡ false))
            ⊎ ((e : ExecutionRecord) × (o ≡ some e)
                × (r.found ≡ true)
                × (G.decode_record r.body ≡ ok e)))
  unfolding grpc_client call_get_execution
  get_execution-IsAnswered id o s' h =
      let (cl, v, g, k) = proceed-eq-ok _ (get G pki a.address s) h in
      let (r, u, p, q) = proceed-eq-ok _ (outside_of (G.get_execution cl 5 id) v) k in
      let e : u ≡ s' = ap (λ x. x.1) q in
      (r, call-IsAnswered _ r v s' cl g (rw (← e) p), read r (ap (λ x. x.0) q))
    where
      found :
          (d : Result ExecutionRecord)
          → decoded_record G d ≡ ok o
          → (e : ExecutionRecord) × (o ≡ some e) × (d ≡ ok e)
      found (err m) k = unfold decoded_record in cc
      found (ok e) k = (e, unfold decoded_record in cc, refl)

      read :
          (r : GetExecutionResponse)
          → Path
              (Result (Option ExecutionRecord))
              (if not r.found then ok none else decoded_record G (G.decode_record r.body))
              (ok o)
          → ((o ≡ none) × (r.found ≡ false))
            ⊎ ((e : ExecutionRecord) × (o ≡ some e)
                × (r.found ≡ true)
                × (G.decode_record r.body ≡ ok e))
      read r k = elim (Bool-cases r.found) [
        | inr f ↦ inl (cc (rw f at k), f)
        | inl t ↦ let (e, p, q) = found _ (rw t at k) in inr (e, p, t, q)
      ]
