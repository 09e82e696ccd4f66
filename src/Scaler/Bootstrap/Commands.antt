-- ===== src/Scaler/Bootstrap/Commands.antt =====
-- pkg/resource/bootstrap.go: what `run` and `uploadBytes` send to the node.
use mathlib.Core.List.{append-nil}
use serverless_flux.Base.{
  ℕ, String, ◌<>◌, ◌≡◌, refl, sym, ◌∙◌, ◌⊎◌, inl, inr, Option, none, some, List, [], ◌∷◌, ◌++◌,
}
use serverless_flux.Base.Result.{Result, ok, err}
use serverless_flux.Base.Action.{proceed, ◌>>◌}
use serverless_flux.Memory.{Bytes}
use serverless_flux.Pki.{Disk, Crypto}
use serverless_flux.Scaler.Bootstrap.{Ssh, command_error, run, upload_bytes}
use serverless_flux.Scaler.Bootstrap.Sent.{
  Event, command, input, Sends, proceed-Sends, finally-Sends, silent,
}

-- What an operation that may or may not have sent one event leaves.
abbrev pub MayAdd : {E : Type 0} → List E → E → List E → Type 0
MayAdd before e now = (now ≡ before ++ (e ∷ [])) ⊎ (now ≡ before)

-- What the SSH client sends: an operation that fails has sent its part or not.
pub record SshLaws {Signer Conn Session Pipe W : Type 0} (H : Ssh Signer Conn Session Pipe W)
    (sent : W → List Event) : Type 0 where
  pub dial_sends :
      (addr user : String) (s : Signer) (w : W) → sent (H.dial addr user s w).1 ≡ sent w
  pub close_sends : (c : Conn) (w : W) → sent (H.close c w) ≡ sent w
  pub new_session_sends : (c : Conn) (w : W) → sent (H.new_session c w).1 ≡ sent w
  pub close_session_sends : (s : Session) (w : W) → sent (H.close_session s w) ≡ sent w
  pub output_ok :
      (s : Session) (cmd : String) (w : W)
      → (H.combined_output s cmd w).0.1 ≡ none
      → sent (H.combined_output s cmd w).1 ≡ sent w ++ (command cmd ∷ [])
  pub output_any :
      (s : Session) (cmd : String) (w : W)
      → MayAdd (sent w) (command cmd) (sent (H.combined_output s cmd w).1)
  pub stdin_sends : (s : Session) (w : W) → sent (H.stdin_pipe s w).1 ≡ sent w
  pub start_ok :
      (s : Session) (cmd : String) (w : W)
      → (H.start s cmd w).0 ≡ ok tt
      → sent (H.start s cmd w).1 ≡ sent w ++ (command cmd ∷ [])
  pub start_any :
      (s : Session) (cmd : String) (w : W)
      → MayAdd (sent w) (command cmd) (sent (H.start s cmd w).1)
  pub write_ok :
      (p : Pipe) (b : Bytes) (w : W)
      → (H.write p b w).0 ≡ ok tt
      → sent (H.write p b w).1 ≡ sent w ++ (input b ∷ [])
  pub write_any :
      (p : Pipe) (b : Bytes) (w : W) → MayAdd (sent w) (input b) (sent (H.write p b w).1)
  pub close_pipe_sends : (p : Pipe) (w : W) → sent (H.close_pipe p w) ≡ sent w
  pub wait_sends : (s : Session) (w : W) → sent (H.wait s w).1 ≡ sent w
  pub tick_sends : (start n : ℕ) (w : W) → sent (H.next_tick start n w).1 ≡ sent w

-- The operations on files and keys send nothing to a node.
pub record LocalLaws {Serial Cert Key W : Type 0} (D : Disk W) (X : Crypto Serial Cert Key W)
    (sent : W → List Event) : Type 0 where
  pub mkdir_sends : (p : String) (mode : ℕ) (w : W) → sent (D.mkdir_all p mode w).1 ≡ sent w
  pub write_file_sends :
      (p : String) (b : Bytes) (mode : ℕ) (w : W) → sent (D.write_file p b mode w).1 ≡ sent w
  pub key_sends : (w : W) → sent (X.generate_key w).1 ≡ sent w
  pub serial_sends : (w : W) → sent (X.random_serial w).1 ≡ sent w
  pub certificate_sends :
      (t : _) (parent : Option Cert) (key signer : Key) (w : W)
      → sent (X.create_certificate t parent key signer w).1 ≡ sent w

-- the two events of an upload
abbrev pub uploading : String → Bytes → List Event
uploading remote b = command ("sudo tee " <> (remote <> " > /dev/null")) ∷ input b ∷ []

failed :
    {W : Type 0} (A : Type 0) (sent : W → List Event) (e : Event) (w v : W) (x : String)
    → MayAdd (sent w) e (sent v)
    → Sends sent {A = A} (sent w) (e ∷ []) (err x, v)
failed A sent e w v x (inl p) = (e ∷ [], [], refl, p)
failed A sent e w v x (inr p) = ([], e ∷ [], refl, p ∙ sym (append-nil (sent w)))

-- An operation sends one event if it succeeds, and that or nothing if it fails.
one_event :
    {W : Type 0} (sent : W → List Event) {A : Type 0} (e : Event) (w : W) (r : Result A × W)
    → ((a : A) → r.0 ≡ ok a → sent r.1 ≡ sent w ++ (e ∷ []))
    → MayAdd (sent w) e (sent r.1)
    → Sends sent (sent w) (e ∷ []) r
one_event sent e w (ok a, v) h k = h a refl
one_event sent {A} e w (err x, v) h k = failed A sent e w v x k

module _ {Signer Conn Session Pipe W : Type 0} (H : Ssh Signer Conn Session Pipe W)
    (sent : W → List Event) (L : SshLaws H sent) where
  output-Sends :
      (s : Session) (cmd : String) (w : W)
      → Sends sent
          (sent w)
          (command cmd ∷ [])
          (command_error H cmd (H.combined_output s cmd w).0, (H.combined_output s cmd w).1)
  unfolding command_error
  output-Sends s cmd w =
      from (H.combined_output s cmd w).0 (L.output_ok s cmd w) (L.output_any s cmd w)
    where
      from :
          (o : String × Option String)
          → (o.1 ≡ none → sent (H.combined_output s cmd w).1 ≡ sent w ++ (command cmd ∷ []))
          → MayAdd (sent w) (command cmd) (sent (H.combined_output s cmd w).1)
          → Sends sent
              (sent w)
              (command cmd ∷ [])
              (command_error H cmd o, (H.combined_output s cmd w).1)
      from (out, none) h k = h refl
      from (out, some e) h k =
          failed Unit sent (command cmd) w (H.combined_output s cmd w).1
            ("command " <> (H.quote cmd <> (": " <> (e <> ("\noutput: " <> out))))) k

  pub run-Sends :
      (c : Conn) (cmd : String) (w : W) → Sends sent (sent w) (command cmd ∷ []) (run H c cmd w)
  unfolding run
  run-Sends c cmd w =
      proceed-Sends sent (sent w) [] (command cmd ∷ []) _ (H.new_session c w)
        (silent sent w _ (L.new_session_sends c w))
        λ s v.
          finally-Sends sent (sent v) (command cmd ∷ []) (H.close_session s)
            (command_error H cmd (H.combined_output s cmd v).0, (H.combined_output s cmd v).1)
            (L.close_session_sends s) (output-Sends s cmd v)

  wait-Sends :
      (s : Session) (p : Pipe) (w : W) → Sends sent (sent w) [] (H.wait s (H.close_pipe p w))
  wait-Sends s p w = silent sent w _ (L.wait_sends s _ ∙ L.close_pipe_sends p w)

  write-Sends :
      (s : Session) (p : Pipe) (b : Bytes) (w : W)
      → Sends sent
          (sent w)
          (input b ∷ [])
          (proceed (λ _ v. H.wait s (H.close_pipe p v)) (H.write p b w))
  write-Sends s p b w =
      proceed-Sends sent (sent w) (input b ∷ []) [] _ (H.write p b w)
        (one_event sent (input b) w (H.write p b w) (λ a e. L.write_ok p b w e) (L.write_any p b w))
        λ _ v. wait-Sends s p v

  start-Sends :
      (s : Session) (p : Pipe) (b : Bytes) (remote : String) (w : W)
      → Sends sent (sent w) (uploading remote b) (
          proceed
            (λ _. H.write p b >> (λ v. H.wait s (H.close_pipe p v)))
            (H.start s ("sudo tee " <> (remote <> " > /dev/null")) w))
  start-Sends s p b remote w =
      let begin = "sudo tee " <> (remote <> " > /dev/null") in
      proceed-Sends sent (sent w) (command begin ∷ []) (input b ∷ []) _ (H.start s begin w)
        (one_event sent (command begin) w (H.start s begin w) (λ a e. L.start_ok s begin w e)
          (L.start_any s begin w))
        λ _ v. write-Sends s p b v

  pub upload-Sends :
      (c : Conn) (b : Bytes) (remote : String) (w : W)
      → Sends sent (sent w) (uploading remote b) (upload_bytes H c b remote w)
  unfolding upload_bytes
  upload-Sends c b remote w =
      proceed-Sends sent (sent w) [] (uploading remote b) _ (H.new_session c w)
        (silent sent w _ (L.new_session_sends c w))
        λ s v.
          finally-Sends sent (sent v) (uploading remote b) (H.close_session s)
            (proceed
              (λ p.
                H.start s ("sudo tee " <> (remote <> " > /dev/null"))
                >> (H.write p b >> (λ u. H.wait s (H.close_pipe p u))))
              (H.stdin_pipe s v))
            (L.close_session_sends s)
            (proceed-Sends sent (sent v) [] (uploading remote b) _ (H.stdin_pipe s v)
              (silent sent v _ (L.stdin_sends s v)) λ p u. start-Sends s p b remote u)
