-- ===== src/Protocol/Duplex.antt =====
-- A descriptor of which the program both reads and writes: reading leaves what was sent.
use kafka_cpp_server.Prelude.{
  ℕ, zero, suc, ◌-◌, ◌≡◌, refl, ◌∙◌, [], ◌∷◌, ◌==◌, length, Bool, true, false, ◌⊎◌, inl, inr,
  if◌then◌else◌,
}
use kafka_cpp_server.Prelude.{drop}
use kafka_cpp_server.Protocol.FileDescriptor.{after_write, write_loop, write_fd}
use kafka_cpp_server.Protocol.Types.{Bytes}
use kafka_cpp_server.Protocol.Outcome.{Outcome, ok, throw, undefined, unfinished}
use kafka_cpp_server.Protocol.FileDescriptor.{
  SysResult, failed, done, Kernel, FileDescriptor, prepend, after_read, read_loop, read_fd,
  fd_readable,
}
use kafka_cpp_server.Protocol.Simulation.{Refines, IsStream}
use kafka_cpp_server.Protocol.Streams.{IsReliable, AnyState, incoming, read_fd_agrees}

prepend-ok :
    {S : Type 0} (bs : Bytes) (o : Outcome (Bytes × S)) {a : Bytes} {s : S}
    → prepend bs o ≡ ok (a, s)
    → (rest : Bytes) × (o ≡ ok (rest, s))
prepend-ok bs (ok (rest, t)) h = (rest, cc)
prepend-ok bs (throw e) h = cc
prepend-ok bs undefined h = cc
prepend-ok bs unfinished h = cc

-- The same outcome under a stronger invariant.
strengthen :
    {S A : Type 0} (weak strong : S → Type 0) (view : S → Bytes) (o : Outcome (A × S))
    (p : Outcome (A × Bytes))
    → Refines weak view o p
    → ((a : A) (s : S) → o ≡ ok (a, s) → strong s)
    → Refines strong view o p
strengthen weak strong view (ok (a, s)) (ok (b, t)) (e, v, h) k = (e, v, k a s refl)
strengthen weak strong view (throw e) (throw x) r k = tt
strengthen weak strong view undefined undefined r k = tt
strengthen weak strong view unfinished unfinished r k = tt
strengthen weak strong view _ _ r k = absurd r

either_branch :
    {A : Type 0} (b : Bool) (x y : A) {z : A} → (if b then x else y) ≡ z → (x ≡ z) ⊎ (y ≡ z)
either_branch true x y h = inl h
either_branch false x y h = inr h

module _ {K : Type 0} ⦃kernel : Kernel K⦄ (sent : K → Bytes)
    (keeps : (n : ℕ) (k : K) → sent (kernel.sys_read n k).1 ≡ sent k) where
  after_read-keeps :
      (p : SysResult Bytes × K) (rest : ℕ → FileDescriptor K → Outcome (Bytes × FileDescriptor K))
      {a : Bytes} {s' : FileDescriptor K}
      → ((j : ℕ) (s : FileDescriptor K) (b : Bytes)
          → rest j s ≡ ok (b, s')
          → sent s'.fd ≡ sent s.fd)
      → after_read p rest ≡ ok (a, s')
      → sent s'.fd ≡ sent p.1
  unfolding after_read
  after_read-keeps (failed, k) rest later h = cc
  after_read-keeps (done [], k) rest later h = cc
  after_read-keeps (done (b ∷ bs), k) rest later h =
      let (more, e) = prepend-ok (b ∷ bs) (rest (length (b ∷ bs)) (record { fd = k })) h in
      later (length (b ∷ bs)) (record { fd = k }) more e

  same_state :
      (s s' : FileDescriptor K) (b a : Bytes)
      → ◌≡◌ {A = Outcome (Bytes × FileDescriptor K)} (ok (b, s)) (ok (a, s'))
      → sent s'.fd ≡ sent s.fd
  same_state s s' b a h = cc

  read_loop-keeps :
      (fuel n : ℕ) (s s' : FileDescriptor K) (a : Bytes)
      → read_loop fuel n s ≡ ok (a, s')
      → sent s'.fd ≡ sent s.fd
  unfolding read_loop
  read_loop-keeps zero n s s' a h = elim (either_branch (n == 0) _ _ h) [
    | inl e ↦ same_state s s' [] a e
    | inr e ↦ cc
  ]
  read_loop-keeps (suc fuel) n s s' a h = elim (either_branch (n == 0) _ _ h) [
    | inl e ↦ same_state s s' [] a e
    | inr e ↦
        after_read-keeps (kernel.sys_read n s.fd) (λ nr. read_loop fuel (n - nr))
          (λ j t b. read_loop-keeps fuel (n - j) t s' b) e
        ∙ keeps n s.fd
  ]

  -- The bytes to come are read, and what was sent stays `out`.
  pub duplex-IsStream :
      (pending : K → Bytes) (out : Bytes)
      → IsReliable pending
      → IsStream (λ (s : FileDescriptor K). sent s.fd ≡ out) (incoming pending)
  unfolding read_fd
  duplex-IsStream pending out reliable = record {
    read_refines = λ n. record {
      at = λ s h.
          strengthen AnyState _ (incoming pending) _ _ (read_fd_agrees pending reliable n s)
            (λ a s' e. read_loop-keeps n n s s' a e ∙ h);
    };
  }

module _ {K : Type 0} ⦃kernel : Kernel K⦄ (pending : K → Bytes)
    (keeps : (src : Bytes) (k : K) → pending (kernel.sys_write src k).1 ≡ pending k) where
  after_write-keeps :
      (p : SysResult ℕ × K) (rest : ℕ → FileDescriptor K → Outcome (Unit {0} × FileDescriptor K))
      {s' : FileDescriptor K}
      → ((j : ℕ) (s : FileDescriptor K) → rest j s ≡ ok (tt, s') → pending s'.fd ≡ pending s.fd)
      → after_write p rest ≡ ok (tt, s')
      → pending s'.fd ≡ pending p.1
  unfolding after_write
  after_write-keeps (failed, k) rest later h = cc
  after_write-keeps (done nw, k) rest later h = later nw (record { fd = k }) h

  write_loop-keeps :
      (fuel : ℕ) (src : Bytes) (s s' : FileDescriptor K)
      → write_loop fuel src s ≡ ok (tt, s')
      → pending s'.fd ≡ pending s.fd
  unfolding write_loop
  write_loop-keeps zero [] s s' h = cc
  write_loop-keeps (suc fuel) [] s s' h = cc
  write_loop-keeps zero (b ∷ bs) s s' h = cc
  write_loop-keeps (suc fuel) (b ∷ bs) s s' h =
      after_write-keeps (kernel.sys_write (b ∷ bs) s.fd) (λ nw. write_loop fuel (drop nw (b ∷ bs)))
        (λ nw t. write_loop-keeps fuel (drop nw (b ∷ bs)) t s') h
      ∙ keeps (b ∷ bs) s.fd

  pub write_fd-keeps :
      (src : Bytes) (s s' : FileDescriptor K)
      → write_fd src s ≡ ok (tt, s')
      → pending s'.fd ≡ pending s.fd
  unfolding write_fd
  write_fd-keeps src s s' h = write_loop-keeps (length src) src s s' h
