-- ===== src/Client/Grpc/Connections.antt =====
-- The cache of connections of pkg/client/agent.go among concurrent callers.
use serverless_flux.Base.{
  String, ◌≡◌, refl, sym, ap, ◌∙◌, Option, none, some, List, [], ◌∷◌, ◌==◌, Bool-cases, inl, inr,
  eq_iff, eq_refl, subst,
}
use serverless_flux.Base.Dict
use serverless_flux.Base.Dict.{Dict, get-put}
use serverless_flux.Base.Result.{Result, ok, err}
use serverless_flux.Client.Grpc.{
  Grpc, CertPaths, Clients, connect, keep_client, open_client, locked_get, get_cached, get,
  outside_of,
}

ok_parts :
    {A S : Type 0} {a b : A} {v w : S} → Path (Result A × S) (ok a, v) (ok b, w) → (a ≡ b) × (v ≡ w)
ok_parts h = (cc, cc)

-- What happens between two looks of a caller at the cache: another caller comes through the write
-- lock for an address, or the world changes outside, as by a call over a connection.
pub data Turn (W : Type 0) : Type 0 where
  locked : String → Turn W
  elsewhere : (W → W) → Turn W

module _ {F Creds Conn W : Type 0} (G : Grpc F Creds Conn W) (pki : Option CertPaths) where
  abbrev turn : Turn W → Clients Conn W → Clients Conn W
  turn (locked address) s = (locked_get G pki address s).1
  turn (elsewhere step) s = record s { outside = step s.outside }

  unfoldable pub turns : List (Turn W) → Clients Conn W → Clients Conn W
  turns [] s = s
  turns (t ∷ ts) s = turns ts (turn t s)

  keep_client-keeps :
      (a b : String) (c : Conn) (s : Clients Conn W) (r : Result Conn × Clients Conn W)
      → r.1.clients ≡ s.clients
      → Dict.get b s.clients ≡ none
      → Dict.get a s.clients ≡ some c
      → Dict.get a (keep_client G b r).1.clients ≡ some c
  unfolding keep_client
  keep_client-keeps a b c s (err e, v) k m h = rw k h
  keep_client-keeps a b c s (ok d, v) k m h = elim (Bool-cases (b == a)) [
    | inl same ↦
        let p = (eq_iff b a).0 same in
        let q : none ≡ some c = sym m ∙ ap (λ x. Dict.get x s.clients) p ∙ h in cc
    | inr other ↦ simp (get-put, other, k, h)
  ]

  -- Whoever comes through the lock leaves a cached connection where it is.
  locked_get-keeps :
      (a b : String) (c : Conn) (s : Clients Conn W)
      → Dict.get a s.clients ≡ some c
      → Dict.get a (locked_get G pki b s).1.clients ≡ some c
  unfolding locked_get
  locked_get-keeps a b c s h = by (Dict.get b s.clients) refl
    where
      by :
          (o : Option Conn)
          → Dict.get b s.clients ≡ o
          → Dict.get a (open_client G pki b o s).1.clients ≡ some c
      by (some d) e = unfold open_client in h
      by none e =
          unfold open_client in keep_client-keeps a b c s (outside_of (connect G pki b) s) refl e h

  turns-keep :
      (ts : List (Turn W)) (a : String) (c : Conn) (s : Clients Conn W)
      → Dict.get a s.clients ≡ some c
      → Dict.get a (turns ts s).clients ≡ some c
  unfolding turns
  turns-keep [] a c s h = h
  turns-keep (locked b ∷ ts) a c s h = turns-keep ts a c _ (locked_get-keeps a b c s h)
  turns-keep (elsewhere step ∷ ts) a c s h = turns-keep ts a c _ h

  get-cached :
      (a : String) (c : Conn) (s s' : Clients Conn W)
      → get G pki a s ≡ (ok c, s')
      → Dict.get a s'.clients ≡ some c
  unfolding get
  get-cached a c s s' h = by (Dict.get a s.clients) refl h
    where
      put_same :
          (d : Conn) (v : Clients Conn W)
          → Path
              (Result Conn × Clients Conn W)
              (ok d, record v { clients = Dict.put a d v.clients })
              (ok c, s')
          → Dict.get a s'.clients ≡ some c
      put_same d v k =
          let (p, q) = ok_parts k in
          subst (λ x. Dict.get a x.clients ≡ some c) q (simp (get-put, eq_refl) (ap some p))

      kept :
          (r : Result Conn × Clients Conn W)
          → keep_client G a r ≡ (ok c, s')
          → Dict.get a s'.clients ≡ some c
      kept (err e, v) k = unfold keep_client in cc
      kept (ok d, v) k = unfold keep_client in put_same d v k

      locked :
          (o : Option Conn)
          → o ≡ none
          → open_client G pki a o s ≡ (ok c, s')
          → Dict.get a s'.clients ≡ some c
      locked (some d) e k = cc
      locked none e k = kept _ (unfold open_client in k)

      by :
          (o : Option Conn)
          → Dict.get a s.clients ≡ o
          → get_cached G pki a o s ≡ (ok c, s')
          → Dict.get a s'.clients ≡ some c
      by (some d) e k =
          let (p, q) = ok_parts (unfold get_cached in k) in
          subst (λ x. Dict.get a x.clients ≡ some c) q (e ∙ ap some p)
      by none e k = locked (Dict.get a s.clients) e (unfold get_cached locked_get in k)

  -- Once a caller has a connection to an address, every later caller gets the same one and opens
  -- none, whatever others did in between: at the read lock, and at the write lock for a caller
  -- that had missed it at the read lock before.
  pub get-stable :
      (ts : List (Turn W)) (a : String) (c : Conn) (s s' : Clients Conn W)
      → get G pki a s ≡ (ok c, s')
      → (get G pki a (turns ts s') ≡ (ok c, turns ts s'))
        × (locked_get G pki a (turns ts s') ≡ (ok c, turns ts s'))
  get-stable ts a c s s' h =
      let e = turns-keep ts a c s' (get-cached a c s s' h) in
      (unfold get get_cached in rw e, unfold locked_get open_client in rw e)
