-- ===== src/Protocol/Sending.antt =====
-- What the loop of `write` of src/protocol/file_descriptor.cpp puts to a descriptor.
use kafka_cpp_server.Prelude.{
  ℕ, zero, suc, ◌≤◌, ◌<◌, ◌≡◌, ◌≢◌, ◌⊎◌, inl, inr, refl, ap, sym, ◌∙◌, [], ◌∷◌, ◌++◌, append_assoc,
  append-nil, length, take, drop, take-drop, length-drop, arith,
}
use kafka_cpp_server.Protocol.Types.{Bytes}
use kafka_cpp_server.Protocol.Outcome.{Outcome, ok, throw, system_error}
use kafka_cpp_server.Protocol.FileDescriptor.{
  SysResult, failed, done, Kernel, FileDescriptor, after_write, write_loop, write_fd,
}

-- What `write(2)` documents, for a descriptor that does not fail and is not asked for nothing: a call
-- takes some of the bytes, one at least, from the front, and sends them behind those before.
pub record Sends {K : Type 0} ⦃kernel : Kernel K⦄ (sent : K → Bytes) : Type 0 where
  pub takes :
      (src : Bytes) (k : K)
      → 0 < length src
      → (nw : ℕ) × (k' : K) × (kernel.sys_write src k ≡ (done nw, k'))
        × (0 < nw)
        × (nw ≤ length src)
        × (sent k' ≡ sent k ++ take nw src)

-- The same for a descriptor that may fail: a call that does not take bytes so returns a negative number.
pub record MaySend {K : Type 0} ⦃kernel : Kernel K⦄ (sent : K → Bytes) : Type 0 where
  pub takes_or_fails :
      (src : Bytes) (k : K)
      → 0 < length src
      → ((nw : ℕ) × (k' : K) × (kernel.sys_write src k ≡ (done nw, k'))
          × (0 < nw)
          × (nw ≤ length src)
          × (sent k' ≡ sent k ++ take nw src))
        ⊎ ((k' : K) × (kernel.sys_write src k ≡ (failed, k')))

module _ {K : Type 0} ⦃kernel : Kernel K⦄ (sent : K → Bytes) where
  -- All bytes are sent, behind those before.
  abbrev pub SentAll : Bytes → FileDescriptor K → Outcome (Unit {0} × FileDescriptor K) → Type 0
  SentAll src s o = (s' : FileDescriptor K) × (o ≡ ok (tt, s')) × (sent s'.fd ≡ sent s.fd ++ src)

  -- A part at the front is sent, and the call for the rest fails, which is thrown.
  abbrev pub CutOff : Bytes → FileDescriptor K → Outcome (Unit {0} × FileDescriptor K) → Type 0
  CutOff src s o =
      (taken : Bytes) × (rest : Bytes) × (k : K) × (k' : K) × (src ≡ taken ++ rest)
      × (0 < length rest)
      × (sent k ≡ sent s.fd ++ taken)
      × (kernel.sys_write rest k ≡ (failed, k'))
      × (o ≡ throw (system_error "write"))

  module _ (may : MaySend sent) where
    write_loop_lem :
        (fuel : ℕ) (src : Bytes) (s : FileDescriptor K)
        → length src ≤ fuel
        → SentAll src s (write_loop fuel src s) ⊎ CutOff src s (write_loop fuel src s)
    unfolding write_loop after_write
    write_loop_lem fuel [] s h = inl (s, refl, sym (append-nil (sent s.fd)))
    write_loop_lem zero (b ∷ bs) s h = absurd (omega arith)
    write_loop_lem (suc fuel) (b ∷ bs) s h = elim (may.takes_or_fails (b ∷ bs) s.fd (omega arith)) [
      | inr (k', e) ↦
          inr ([], b ∷ bs, s.fd, k', refl, omega arith, sym (append-nil (sent s.fd)), e, rw e refl)
      | inl (nw, k, e, some_taken, fits, grown) ↦
          elim (write_loop_lem fuel (drop nw (b ∷ bs)) (record { fd = k })
            (omega (arith, length-drop nw (b ∷ bs)))) [
              | inl (s', made, all) ↦
                  inl (s', rw e made, all ∙ rw (grown, append_assoc, take-drop nw (b ∷ bs)) refl)
              | inr (taken, rest, k1, k2, parts, left, before, stops, thrown) ↦ inr (
                take nw (b ∷ bs) ++ taken,
                rest,
                k1,
                k2,
                sym (
                    append_assoc (take nw (b ∷ bs)) taken rest
                    ∙ ap (λ l. take nw (b ∷ bs) ++ l) (sym parts)
                    ∙ take-drop nw (b ∷ bs)),
                left,
                before ∙ rw (grown, append_assoc) refl,
                stops,
                rw e thrown,
              )
            ]
    ]

    pub write_fd_lem :
        (src : Bytes) (s : FileDescriptor K)
        → SentAll src s (write_fd src s) ⊎ CutOff src s (write_fd src s)
    unfolding write_fd
    write_fd_lem src s = write_loop_lem (length src) src s (omega arith)

module _ {K : Type 0} ⦃kernel : Kernel K⦄ (sent : K → Bytes) (sends : Sends sent) where
  not_failed : (src : Bytes) (k k' : K) → 0 < length src → kernel.sys_write src k ≢ (failed, k')
  not_failed src k k' h e =
      let (nw, k1, taken, _, _, _) = sends.takes src k h in both (sym taken ∙ e)
    where
      both : {nw : ℕ} {k k' : K} → ◌≢◌ {A = SysResult ℕ × K} (done nw, k) (failed, k')
      both q = cc

  -- If no call of the kernel's `write` fails, `write` of a descriptor returns, and all bytes of `src`
  -- are sent once, in their order, behind those that were sent before.
  pub write_fd-sent :
      (src : Bytes) (s : FileDescriptor K)
      → (s' : FileDescriptor K) × (write_fd src s ≡ ok (tt, s')) × (sent s'.fd ≡ sent s.fd ++ src)
  write_fd-sent src s =
      elim (write_fd_lem sent (record { takes_or_fails = λ bs k h. inl (sends.takes bs k h) }) src
        s) [
          | inl all ↦ all
          | inr (taken, rest, k, k', parts, left, before, stops, thrown) ↦
              absurd (not_failed rest k k' left stops)
        ]
