-- ===== src/Scaler/Bootstrap/Sent.antt =====
-- What an operation of pkg/resource/bootstrap.go sends to the node, and the rules by which a
-- sequence of operations sends a sequence.
use mathlib.Core.List.{append_assoc, append-nil}
use serverless_flux.Base.{String, ◌≡◌, refl, sym, ap, ◌∙◌, List, [], ◌++◌}
use serverless_flux.Base.Result.{Result, ok, err}
use serverless_flux.Base.Action.{Action, proceed, relabel}
use serverless_flux.Base.Ensures.{Ensures, Ensures_of}
use serverless_flux.Memory.{Bytes}

-- A command that was started on the node, or an input that it took as a whole.
pub data Event : Type 0 where
  command : String → Event
  input : Bytes → Event

module _ {W : Type 0} (sent : W → List Event) where
  -- From `before` on, the operation sent `steps` if it succeeded, and a beginning of them if not.
  abbrev pub Sends : {A : Type 0} → List Event → List Event → Result A × W → Type 0
  Sends before steps (ok a, w) = sent w ≡ before ++ steps
  Sends before steps (err e, w) =
      (begun : List Event) × (rest : List Event) × (steps ≡ begun ++ rest)
      × (sent w ≡ before ++ begun)

  pub later :
      {A : Type 0} (before steps then_steps : List Event) (r : Result A × W)
      → Sends (before ++ steps) then_steps r
      → Sends before (steps ++ then_steps) r
  later before steps more (ok a, w) h = h ∙ append_assoc before steps more
  later before steps more (err e, w) (begun, rest, p, q) = (
    steps ++ begun,
    rest,
    ap (λ l. steps ++ l) p ∙ sym (append_assoc steps begun rest),
    q ∙ append_assoc before steps begun,
  )

  pub proceed-Sends :
      {A B : Type 0} (before steps more : List Event) (next : A → Action W B) (r : Result A × W)
      → Sends before steps r
      → ((a : A) (v : W) → Sends (sent v) more (next a v))
      → Sends before (steps ++ more) (proceed next r)
  proceed-Sends before steps more next (err e, w) (begun, rest, p, q) k =
      (begun, rest ++ more, ap (λ l. l ++ more) p ∙ append_assoc begun rest more, q)
  proceed-Sends before steps more next (ok a, w) h k =
      later before steps more (next a w) (rw (← h) (k a w))

  pub relabel-Sends :
      {A : Type 0} (before steps : List Event) (label : String) (r : Result A × W)
      → Sends before steps r
      → Sends before steps (relabel label r)
  relabel-Sends before steps label (ok a, w) h = h
  relabel-Sends before steps label (err e, w) h = h

  -- a deferred call that sends nothing
  pub finally-Sends :
      {A : Type 0} (before steps : List Event) (last : W → W) (r : Result A × W)
      → ((v : W) → sent (last v) ≡ sent v)
      → Sends before steps r
      → Sends before steps (r.0, last r.1)
  finally-Sends before steps last (ok a, v) q h = q v ∙ h
  finally-Sends before steps last (err e, v) q (begun, rest, p, s) = (begun, rest, p, q v ∙ s)

  -- An operation that sends nothing.
  pub silent : {A : Type 0} (w : W) (r : Result A × W) → sent r.1 ≡ sent w → Sends (sent w) [] r
  silent w (ok a, v) h = h ∙ sym (append-nil (sent w))
  silent w (err e, v) h = ([], [], refl, h ∙ sym (append-nil (sent w)))

  -- For one of the plans, the operation sent it or a beginning of it, and the plan has the property
  -- if the operation succeeded.
  abbrev pub Follows :
      {A X : Type 0} → (X → Type 0) → List Event → (X → List Event) → Result A × W → Type 0
  Follows {X} P before plan r = (x : X) × Sends before (plan x) r × Ensures (λ _ _. P x) r

  pub proceed-Follows :
      {A B X : Type 0} (P : X → Type 0) (any : X) (before steps : List Event)
      (plan : X → List Event) (next : A → Action W B) (r : Result A × W)
      → Sends before steps r
      → ((a : A) (v : W) → Follows P (sent v) plan (next a v))
      → Follows P before (λ x. steps ++ plan x) (proceed next r)
  proceed-Follows P any before steps plan next (err e, w) (begun, rest, p, q) k = (
    any,
    (begun, rest ++ plan any, ap (λ l. l ++ plan any) p ∙ append_assoc begun rest (plan any), q),
    tt,
  )
  proceed-Follows P any before steps plan next (ok a, w) h k =
      let (x, s, t) = k a w in (x, later before steps (plan x) (next a w) (rw (← h) s), t)

  -- The value of a silent operation is the plan's.
  pub chosen-Follows :
      {B X : Type 0} (P : X → Type 0) (any : X) (before : List Event) (plan : X → List Event)
      (next : X → Action W B) (r : Result X × W)
      → sent r.1 ≡ before
      → ((x : X) (v : W) → r ≡ (ok x, v) → P x × Sends (sent v) (plan x) (next x v))
      → Follows P before plan (proceed next r)
  chosen-Follows P any before plan next (err e, w) h k =
      (any, ([], plan any, refl, h ∙ sym (append-nil before)), tt)
  chosen-Follows P any before plan next (ok x, w) h k =
      let (p, s) = k x w refl in (x, rw (← h) s, Ensures_of (λ _ _. P x) (next x w) λ a e. p)

  pub finally-Follows :
      {A X : Type 0} (P : X → Type 0) (before : List Event) (plan : X → List Event) (last : W → W)
      (r : Result A × W)
      → ((v : W) → sent (last v) ≡ sent v)
      → Follows P before plan r
      → Follows P before plan (r.0, last r.1)
  finally-Follows P before plan last (ok a, v) q (x, s, t) = (x, q v ∙ s, t)
  finally-Follows P before plan last (err e, v) q (x, (begun, rest, p, s), t) =
      (x, (begun, rest, p, q v ∙ s), t)
