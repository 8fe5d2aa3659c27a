-- ===== src/Metadata/Yields.antt =====
-- The records and batches that are read from a log have their fields in their ranges.
use kafka_cpp_server.Prelude.{
  ℕ, zero, suc, ◌+◌, ◌^◌, ◌≤◌, ◌<◌, ◌≡◌, refl, sym, ◌∙◌, Option, none, some, List, [], ◌∷◌, ◌++◌,
  length, length-append, All, All-map, All-append, ◌==◌, ◌$◌, arith,
}
use mathlib.Core.Path.{subst}
use kafka_cpp_server.Protocol.Types.{Bytes, Int32, IsByte, is_negative}
use kafka_cpp_server.Protocol.Outcome.{Outcome, Io, ok, throw, undefined, unfinished}
use kafka_cpp_server.Protocol.Stream.{Readable, bytes_readable}
use kafka_cpp_server.Protocol.Gives.{
  Gives-bind, Gives-map, Gives-if, Gives-pure, Gives-raise, Gives-weaken,
}
use kafka_cpp_server.Protocol.Yields.{
  leb→gt, Yields, Yields-read, Yields-byte, Yields-int8, Yields-int16, Yields-int32, Yields-uint32,
  Yields-int64, Yields-varint, Yields-varlong, Yields-IsArray, IsBlock, Fits,
}
use kafka_cpp_server.Metadata.Records.{
  Record, RecordBatch, expect_byte, read_value, read_record, read_record_batch,
}
use kafka_cpp_server.Metadata.RecordsRoundTrip.{IsRecord, IsRecordBatch}
use kafka_cpp_server.Metadata.Log.{Files, read_batches_loop, read_opened, read_record_batches}
use kafka_cpp_server.Metadata.LogReading.{stream_loop}
use kafka_cpp_server.Metadata.LoadEnds.{LogsFit}

abbrev Any : {A : Type 0} → A → Type 0
Any a = Unit

Yields-expected : (c : ℕ) (m : Io Bytes (Unit {0})) → Yields Any m → Yields Any (expect_byte c m)
unfolding expect_byte
Yields-expected c m h = Gives-bind (Fits 8) Any _ _ Yields-byte $ λ b _.
    Gives-if Any (b == c) _ _ (λ _. Gives-pure Any tt tt) (λ _. h)

-- The value has the length that was read, which is not negative.
abbrev IsValue : ℕ → Bytes → Type 0
IsValue n value = (n ≡ length value) × (length value < 2 ^ 31) × All IsByte value

Yields-IsValue : (n : ℕ) → Yields (IsValue n) (read_value n)
unfolding read_value
Yields-IsValue n =
    Gives-if (IsValue n) (is_negative 32 n) _ _ (λ _. Gives-raise _ _)
      (λ e.
        Gives-weaken (IsBlock n) (IsValue n) _ (Yields-read n)
          (λ bs (h, bytes). (sym h, omega (arith, leb→gt (2 ^ 31) n e), bytes)))

-- A record of bytes with its fields in their ranges.
abbrev pub IsReadRecord : Record → Type 0
IsReadRecord r = IsRecord r × All IsByte r.value

pub Yields-record : Yields IsReadRecord read_record
unfolding read_record
Yields-record = Gives-bind _ IsReadRecord _ _ Yields-varint $ λ length_field h1.
    Gives-bind _ IsReadRecord _ _ Yields-int8 $ λ attributes h2.
    Gives-bind _ IsReadRecord _ _ Yields-varlong $ λ timestamp_delta (h3, h4).
    Gives-bind _ IsReadRecord _ _ Yields-varint $ λ offset_delta h5.
    Gives-bind _ IsReadRecord _ _ (Yields-expected 1 _ (Gives-raise Any _)) $ λ _ _.
    Gives-bind _ IsReadRecord _ _ Yields-varint $ λ value_len _.
    Gives-bind _ IsReadRecord _ _ (Yields-IsValue value_len) $ λ value (h6, h7, h8).
    Gives-map _ IsReadRecord _ _ (Yields-expected 0 _ (Gives-raise Any _)) (λ _ _. (
      record {
        length_field_fits = h1;
        attributes_fit = h2;
        timestamp_delta_fits = h3;
        timestamp_delta_not_min = h4;
        offset_delta_fits = h5;
        value_len_counts = h6;
        value_fits = h7;
      },
      h8,
    ))

-- A batch with its fields in their ranges, whose records hold bytes.
abbrev pub IsReadBatch : RecordBatch → Type 0
IsReadBatch b = IsRecordBatch b × All IsReadRecord b.records

pub Yields-record_batch : Yields IsReadBatch read_record_batch
unfolding read_record_batch
Yields-record_batch = Gives-bind _ IsReadBatch _ _ Yields-int64 $ λ base_offset h1.
    Gives-bind _ IsReadBatch _ _ Yields-int32 $ λ batch_length h2.
    Gives-bind _ IsReadBatch _ _ Yields-int32 $ λ partition_leader_epoch h3.
    Gives-bind _ IsReadBatch _ _ Yields-int8 $ λ magic h4.
    Gives-bind _ IsReadBatch _ _ Yields-uint32 $ λ crc h5.
    Gives-bind _ IsReadBatch _ _ Yields-int16 $ λ attributes h6.
    Gives-bind _ IsReadBatch _ _ Yields-int32 $ λ last_offset_delta h7.
    Gives-bind _ IsReadBatch _ _ Yields-int64 $ λ base_timestamp h8.
    Gives-bind _ IsReadBatch _ _ Yields-int64 $ λ max_timestamp h9.
    Gives-bind _ IsReadBatch _ _ Yields-int64 $ λ producer_id h10.
    Gives-bind _ IsReadBatch _ _ Yields-int16 $ λ producer_epoch h11.
    Gives-bind _ IsReadBatch _ _ Yields-int32 $ λ base_sequence h12.
    Gives-map _ IsReadBatch _ _ (Yields-IsArray IsReadRecord read_record Yields-record)
      (λ records (h13, h14). (
        record {
          base_offset_fits = h1;
          batch_length_fits = h2;
          partition_leader_epoch_fits = h3;
          magic_fits = h4;
          crc_fits = h5;
          attributes_fit = h6;
          last_offset_delta_fits = h7;
          base_timestamp_fits = h8;
          max_timestamp_fits = h9;
          producer_id_fits = h10;
          producer_epoch_fits = h11;
          base_sequence_fits = h12;
          records_fit = h13;
          records_valid = All-map (λ r h. h.0) records h14;
        },
        h14,
      ))

abbrev IsStopped : Outcome (List RecordBatch) → Type 0
IsStopped undefined = Unit
IsStopped unfinished = Unit
IsStopped _ = ⊥

no_batches :
    {B : Type 0} (o : Outcome (List RecordBatch)) {batches : List RecordBatch}
    → IsStopped o
    → o ≡ ok batches
    → B
no_batches undefined h e = cc
no_batches unfinished h e = cc
no_batches (ok l) h e = absurd h
no_batches (throw x) h e = absurd h

same_batches : {a b : List RecordBatch} → ◌≡◌ {A = Outcome (List RecordBatch)} (ok a) (ok b) → a ≡ b
same_batches e = cc

-- Batches in their ranges, no more than there were rounds.
abbrev pub AreBatches : ℕ → List RecordBatch → Type 0
AreBatches most batches = (length batches ≤ most) × All IsReadBatch batches

read_batches_loop-AreBatches :
    (fuel : ℕ) (acc : List RecordBatch) (s : Bytes) (most : ℕ) (batches : List RecordBatch)
    → All IsByte s
    → All IsReadBatch acc
    → length acc + fuel ≤ most
    → read_batches_loop fuel acc s ≡ ok batches
    → AreBatches most batches
unfolding read_batches_loop
read_batches_loop-AreBatches zero acc s most batches v h k e = cc
read_batches_loop-AreBatches (suc fuel) acc s most batches v h k e =
    go (read_record_batch s) refl e (λ b t all w.
      read_batches_loop-AreBatches fuel (acc ++ b ∷ []) t most batches w all
        (omega (arith, length-append acc (b ∷ []))))
  where
    go :
        (o : Outcome (RecordBatch × Bytes))
        → read_record_batch s ≡ o
        → read_batches_loop (suc fuel) acc s ≡ ok batches
        → ((b : RecordBatch) (t : Bytes)
            → All IsReadBatch (acc ++ b ∷ [])
            → All IsByte t
            → read_batches_loop fuel (acc ++ b ∷ []) t ≡ ok batches
            → AreBatches most batches)
        → AreBatches most batches
    go (ok (b, t)) q e later =
        let (good, w) = Yields-record_batch.gives s b t v q in
        later b t (All-append IsReadBatch acc (b ∷ []) h (good, tt)) w
          (rw (read_batches_loop, q) at e)
    go (throw x) q e later =
        subst (AreBatches most) (same_batches (rw (read_batches_loop, q) at e)) (omega arith, h)
    go undefined q e later = no_batches undefined tt (rw (read_batches_loop, q) at e)
    go unfinished q e later = no_batches unfinished tt (rw (read_batches_loop, q) at e)

-- The batches of a log, whose bytes are bytes.
module _ {F : Type 0} ⦃r : Readable F⦄ (files : Files F) (fuel : ℕ) (valid : F → Type 0)
    (view : F → Bytes) (logs : LogsFit files fuel valid view)
    (of_bytes : (path : Bytes) (f : F) → files.open_file path ≡ some f → All IsByte (view f)) where
  opened-AreBatches :
      (path : Bytes) (o : Option F) (batches : List RecordBatch)
      → files.open_file path ≡ o
      → read_opened fuel o ≡ ok batches
      → AreBatches fuel batches
  unfolding read_opened
  opened-AreBatches path none batches e h = cc
  opened-AreBatches path (some f) batches e h =
      read_batches_loop-AreBatches fuel [] (view f) fuel batches (of_bytes path f e) tt
        (omega arith)
        (sym (stream_loop valid view logs.stream fuel [] f (logs.opens_valid path f e)) ∙ h)

  pub read_record_batches-AreBatches :
      (topic_name : Bytes) (partition_index : Int32) (batches : List RecordBatch)
      → read_record_batches files fuel topic_name partition_index ≡ ok batches
      → AreBatches fuel batches
  unfolding read_record_batches
  read_record_batches-AreBatches topic_name partition_index batches h =
      opened-AreBatches _ _ batches refl h
