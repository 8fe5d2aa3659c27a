-- ===== src/Protocol/FileDescriptor.antt =====
-- src/protocol/file_descriptor.cpp: the streams over a UNIX file descriptor. The system calls are a
-- parameter, with the documented behaviour that the program relies on in `IsReliable`.
use kafka_cpp_server.Prelude.{ℕ, zero, suc, ◌-◌, [], ◌∷◌, ◌++◌, ◌==◌, length, drop, if◌then◌else◌}
use kafka_cpp_server.Protocol.Types.{Bytes}
use kafka_cpp_server.Protocol.Outcome.{
  Io, Outcome, ok, throw, unfinished, runtime_error, system_error, then_run,
}
use kafka_cpp_server.Protocol.Stream.{Readable, Writable}

-- A negative result, or the result.
pub data SysResult (A : Type 0) : Type 0 where
  failed : SysResult A
  done : A → SysResult A

-- `::read(fd, p, n)` with the bytes that it puts to `p`, and `::write(fd, p, n)` of the `n` bytes at
-- `p`, with the number that it takes. `K` is what the kernel knows of the descriptor.
pub record Kernel (K : Type 0) : Type 0 where
  pub sys_read : ℕ → K → SysResult Bytes × K
  pub sys_write : Bytes → K → SysResult ℕ × K

pub record FileDescriptor (K : Type 0) : Type 0 where
  pub fd : K

-- The bytes of a round stand before those of the later rounds.
abbrev pub prepend : {S : Type 0} → Bytes → Outcome (Bytes × S) → Outcome (Bytes × S)
prepend bs = then_run (λ rest t. ok (bs ++ rest, t))

module _ {K : Type 0} where
  -- A round of the loop of `read` after its system call, with the rest of the loop.
  unfoldable pub after_read :
      SysResult Bytes × K → (ℕ → Io (FileDescriptor K) Bytes) → Outcome (Bytes × FileDescriptor K)
  after_read (failed, k) rest = throw (system_error "read")
  after_read (done [], k) rest = throw (runtime_error "incomplete read")
  after_read (done (b ∷ bs), k) rest = prepend (b ∷ bs) (rest (length (b ∷ bs)) (record { fd = k }))

  -- The same for the loop of `write`.
  unfoldable pub after_write :
      SysResult ℕ × K
      → (ℕ → Io (FileDescriptor K) (Unit {0}))
      → Outcome (Unit {0} × FileDescriptor K)
  after_write (failed, k) rest = throw (system_error "write")
  after_write (done nw, k) rest = rest nw (record { fd = k })

module _ {K : Type 0} ⦃kernel : Kernel K⦄ where
  -- The `while (nbytes > 0)` loop of `read`. A round takes one byte at least, or throws.
  unfoldable pub read_loop : ℕ → ℕ → Io (FileDescriptor K) Bytes
  unfolding after_read
  read_loop zero nbytes s = if nbytes == 0 then ok ([], s) else unfinished
  read_loop (suc fuel) nbytes s =
      if nbytes == 0
      then ok ([], s)
      else after_read (kernel.sys_read nbytes s.fd) (λ nr. read_loop fuel (nbytes - nr))

  unfoldable pub read_fd : ℕ → Io (FileDescriptor K) Bytes
  unfolding read_loop
  read_fd nbytes = read_loop nbytes nbytes

  -- The `while (nbytes > 0)` loop of `write`, with `src` what `p` points to. A call that takes
  -- nothing is repeated; the rounds are bounded by the fuel.
  unfoldable pub write_loop : ℕ → Bytes → Io (FileDescriptor K) (Unit {0})
  unfolding after_write
  write_loop fuel [] s = ok (tt, s)
  write_loop zero (b ∷ bs) s = unfinished
  write_loop (suc fuel) (b ∷ bs) s =
      after_write (kernel.sys_write (b ∷ bs) s.fd) (λ nw. write_loop fuel (drop nw (b ∷ bs)))

  unfoldable pub write_fd : Bytes → Io (FileDescriptor K) (Unit {0})
  unfolding write_loop
  write_fd src = write_loop (length src) src

  instance abbrev pub fd_readable : Readable (FileDescriptor K)
  fd_readable = record { read_from = read_fd }

  instance abbrev pub fd_writable : Writable (FileDescriptor K)
  fd_writable = record { write_to = write_fd }
