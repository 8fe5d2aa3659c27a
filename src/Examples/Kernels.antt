-- ===== src/Examples/Kernels.antt =====
-- A kernel that hands over one byte at a time, and the theorems on file descriptors at it.
use kafka_cpp_server.Prelude.{
  ℕ, zero, suc, ◌≤◌, ◌<◌, ◌≡◌, ◌≢◌, refl, [], ◌∷◌, ◌++◌, length, take, drop, arith,
}
use kafka_cpp_server.Protocol.Types.{Bytes}
use kafka_cpp_server.Protocol.Stream.{read, bytes_readable}
use kafka_cpp_server.Protocol.Buffers.{read_buffer}
use kafka_cpp_server.Protocol.FileDescriptor.{
  SysResult, failed, done, Kernel, FileDescriptor, read_fd, fd_readable,
}
use kafka_cpp_server.Protocol.Simulation.{Refines}
use kafka_cpp_server.Protocol.Streams.{
  IsReliable, AnyState, incoming, InBounds, unread, buffer_agrees, read_fd_agrees,
}
use kafka_cpp_server.Protocol.Sending.{Sends}
use kafka_cpp_server.Message.Messages.{read_request_message}
use kafka_cpp_server.Message.Delivery.{parse_request_message, request_message_delivered}

-- What is to come is taken from the front, what is sent is put behind.
instance abbrev pub trickle : Kernel Bytes
trickle = record {
  sys_read = λ n k. (done (take 1 k), drop 1 k);
  sys_write = λ src k. (done 1, k ++ take 1 src);
}

one_byte_delivers :
    (n : ℕ) (k : Bytes)
    → 0 < n
    → (bs : Bytes) × (k' : Bytes) × (trickle.sys_read n k ≡ (done bs, k'))
      × (k ≡ bs ++ k')
      × (length bs ≤ n)
      × (bs ≡ [] → k ≡ [])
one_byte_delivers n [] h = ([], [], refl, refl, omega arith, λ e. e)
one_byte_delivers n (b ∷ bs) h = (b ∷ [], bs, refl, refl, omega arith, λ e. absurd (cons≢nil e))
  where
    cons≢nil : {x : ℕ} → x ∷ [] ≢ []
    cons≢nil e = cc

trickle-IsReliable : IsReliable (λ (k : Bytes). k)
trickle-IsReliable = record { delivers = one_byte_delivers }

-- Both directions of a connection, one byte at a time.
pub record Wire : Type 0 where
  pub to_come : Bytes
  pub sent : Bytes

instance abbrev pub wire_kernel : Kernel Wire
wire_kernel = record {
  sys_read = λ n k. (done (take 1 k.to_come), record k { to_come = drop 1 k.to_come });
  sys_write = λ src k. (done 1, record k { sent = k.sent ++ take 1 src });
}

one_byte_taken :
    (n : ℕ) (bs : Bytes)
    → 0 < n
    → (bs ≡ take 1 bs ++ drop 1 bs) × (length (take 1 bs) ≤ n) × (take 1 bs ≡ [] → bs ≡ [])
one_byte_taken n [] h = (refl, omega arith, λ e. e)
one_byte_taken n (b ∷ bs) h = (refl, omega arith, λ e. cc)

pub wire-IsReliable : IsReliable (λ (k : Wire). k.to_come)
wire-IsReliable = record {
  delivers = λ n k h. (
    take 1 k.to_come,
    record k { to_come = drop 1 k.to_come },
    refl,
    (one_byte_taken n k.to_come h).0,
    (one_byte_taken n k.to_come h).1,
    (one_byte_taken n k.to_come h).2,
  );
}

pub wire-Sends : Sends (λ (k : Wire). k.sent)
wire-Sends = record {
  takes = λ src k h.
      (1, record k { sent = k.sent ++ take 1 src }, refl, omega arith, omega arith, refl);
}

-- An ApiVersions request of version 4 with the correlation id 7.
abbrev pub api_versions_bytes : Bytes
api_versions_bytes = 0 ∷ 0 ∷ 0 ∷ 14 ∷ 0 ∷ 18 ∷ 0 ∷ 4 ∷ 0 ∷ 0 ∷ 0 ∷ 7 ∷ 0 ∷ 0 ∷ 0 ∷ 1 ∷ 1 ∷ 0 ∷ []

request_message_delivered_example :
    Refines AnyState
      (incoming (λ (k : Bytes). k))
      (read_request_message (record { fd = api_versions_bytes }))
      (parse_request_message api_versions_bytes)
request_message_delivered_example =
    request_message_delivered (λ (k : Bytes). k) trickle-IsReliable
      (record { fd = api_versions_bytes })

read_fd_agrees_example :
    Refines AnyState
      (incoming (λ (k : Bytes). k))
      (read_fd 2 (record { fd = 4 ∷ 5 ∷ 6 ∷ [] }))
      (read 2 (4 ∷ 5 ∷ 6 ∷ []))
read_fd_agrees_example =
    read_fd_agrees (λ (k : Bytes). k) trickle-IsReliable 2 (record { fd = 4 ∷ 5 ∷ 6 ∷ [] })

buffer_agrees_example :
    Refines InBounds unread
      (read_buffer 2 (record { bytes = 4 ∷ 5 ∷ 6 ∷ []; index = 1 }))
      (read 2 (5 ∷ 6 ∷ []))
buffer_agrees_example = buffer_agrees 2 (record { bytes = 4 ∷ 5 ∷ 6 ∷ []; index = 1 }) (omega arith)

-- A connection that fails when there is no more room.
pub record Narrow : Type 0 where
  pub sent : Bytes
  pub room : ℕ

abbrev take_one : Bytes → Bytes → ℕ → SysResult ℕ × Narrow
take_one src sent zero = (failed, record { sent = sent; room = 0 })
take_one src sent (suc room) = (done 1, record { sent = sent ++ take 1 src; room = room })

instance abbrev narrow_kernel : Kernel Narrow
narrow_kernel = record {
  sys_read = λ n k. (failed, k);
  sys_write = λ src k. take_one src k.sent k.room;
}

-- Room for two bytes of three.
abbrev narrow : FileDescriptor Narrow
narrow = record { fd = record { sent = 3 ∷ []; room = 2 } }
