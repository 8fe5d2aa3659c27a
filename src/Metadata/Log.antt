-- ===== src/Metadata/Log.antt =====
-- `read_record_batches` of src/metadata/cluster_metadata.cpp. The file system is a parameter.
use Prim.Native.Char.{code}
use Prim.Native.String.{String}
use kafka_cpp_server.Prelude.{
  ℕ, zero, suc, ◌+◌, ◌-◌, ◌/◌, ◌%◌, ◌^◌, List, [], ◌∷◌, ◌++◌, Option, none, some, ltb,
  if◌then◌else◌,
}
use kafka_cpp_server.Protocol.Types.{Bytes, Int32, is_negative}
use kafka_cpp_server.Protocol.Outcome.{Outcome, ok, throw, undefined, unfinished, system_error}
use kafka_cpp_server.Protocol.Stream.{Readable}
use kafka_cpp_server.Metadata.Records.{RecordBatch, read_record_batch}

-- `open(path, O_RDONLY)`: a stream that is read from the start of the file, if there is one.
pub record Files (F : Type 0) : Type 0 where
  pub open_file : Bytes → Option F

-- The bytes of a literal.
abbrev pub codes : String → Bytes
codes String.[] = []
codes (String.◌∷◌ c s) = code c ∷ codes s

-- The decimal digits of a number below 10 ^ (fuel + 1), as `std::format` prints it.
unfoldable pub decimal : ℕ → ℕ → Bytes
decimal zero n = (48 + n % 10) ∷ []
decimal (suc fuel) n =
    let higher = decimal fuel (n / 10) in
    if ltb n 10 then (48 + n) ∷ [] else higher ++ (48 + n % 10) ∷ []

unfoldable pub decimal_int32 : Int32 → Bytes
unfolding decimal
decimal_int32 n = if is_negative 32 n then 45 ∷ decimal 9 (2 ^ 32 - n) else decimal 9 n

unfoldable pub log_file_path : Bytes → Int32 → Bytes
unfolding decimal_int32
log_file_path topic_name partition_index =
    codes "/tmp/kraft-combined-logs/"
    ++ topic_name
    ++ codes "-"
    ++ decimal_int32 partition_index
    ++ codes "/00000000000000000000.log"

module _ {F : Type 0} ⦃r : Readable F⦄ where
  -- The loop: any exception ends it, and drops the batch that was being read.
  unfoldable pub read_batches_loop : ℕ → List RecordBatch → F → Outcome (List RecordBatch)
  read_batches_loop zero record_batches log_fd = unfinished
  read_batches_loop (suc fuel) record_batches log_fd = elim (read_record_batch log_fd) [
    | ok p ↦ read_batches_loop fuel (record_batches ++ p.0 ∷ []) p.1
    | throw e ↦ ok record_batches
    | undefined ↦ undefined
    | unfinished ↦ unfinished
  ]

  unfoldable pub read_opened : ℕ → Option F → Outcome (List RecordBatch)
  unfolding read_batches_loop
  read_opened fuel none = throw (system_error "open")
  read_opened fuel (some log_fd) = read_batches_loop fuel [] log_fd

  unfoldable pub read_record_batches : Files F → ℕ → Bytes → Int32 → Outcome (List RecordBatch)
  unfolding read_opened
  read_record_batches files fuel topic_name partition_index =
      read_opened fuel (files.open_file (log_file_path topic_name partition_index))
