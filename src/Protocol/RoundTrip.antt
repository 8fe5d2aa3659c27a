-- ===== src/Protocol/RoundTrip.antt =====
-- What it means that a reader of Reading and a writer of Writing belong together, and how readers
-- and writers that do are put in sequence.
use kafka_cpp_server.Prelude.{
  ℕ, ◌≡◌, refl, sym, ◌∙◌, ap, List, [], ◌∷◌, ◌++◌, append_assoc, append-nil, length, length-append,
  take-append, drop-append, le→leb, All, arith,
}
use kafka_cpp_server.Protocol.Types.{Bytes}
use kafka_cpp_server.Protocol.Outcome.{Outcome, Io, ok, ◌>>=◌, ◌>>◌, pure}
use kafka_cpp_server.Protocol.Stream.{bytes_readable, bytes_writable, read, write}
use kafka_cpp_server.Protocol.Reading.{read_objects}
use kafka_cpp_server.Protocol.Writing.{write_objects}

-- The writer appends some bytes, whatever was written before, and the reader takes just these bytes
-- from the front, whatever follows them, and returns `v`.
pub record RoundTrip {A : Type 0} (reader : Io Bytes A) (writer : Io Bytes (Unit {0})) (v : A)
    : Type 0 where
  pub wire : Bytes
  pub writes : (s : Bytes) → writer s ≡ ok (tt, s ++ wire)
  pub reads : (rest : Bytes) → reader (wire ++ rest) ≡ ok (v, rest)

written_same :
    {u w : Bytes} → ◌≡◌ {A = Outcome (Unit {0} × Bytes)} (ok (tt, u)) (ok (tt, w)) → u ≡ w
written_same h = cc

-- The bytes that the writer appends are those of the round trip.
pub wire_is :
    {A : Type 0} {reader : Io Bytes A} {writer : Io Bytes (Unit {0})} {v : A}
    (trip : RoundTrip reader writer v) {bytes : Bytes}
    → writer [] ≡ ok (tt, bytes)
    → bytes ≡ trip.wire
wire_is trip h = written_same (sym h ∙ trip.writes [])

open_read : (bs rest : Bytes) → read (length bs) (bs ++ rest) ≡ ok (bs, rest)
open_read bs rest =
    rw
      (
        le→leb (length bs) (length (bs ++ rest)) (omega (arith, length-append bs rest)),
        take-append bs rest,
        drop-append bs rest,
      )
      refl

-- A block of bytes, read back as one of its length.
pub RoundTrip-read : (bs : Bytes) → RoundTrip (read (length bs)) (write bs) bs
RoundTrip-read bs = record { wire = bs; writes = λ s. refl; reads = open_read bs }

-- A block that `g` decodes to `v`.
pub RoundTrip-read_as :
    {A : Type 0} (w : ℕ) (g : Bytes → A) (bs : Bytes) {v : A}
    → length bs ≡ w
    → g bs ≡ v
    → RoundTrip (read w >>= λ x. pure (g x)) (write bs) v
unfolding ◌>>=◌ pure
RoundTrip-read_as w g bs hw hv = record {
  wire = bs;
  writes = λ s. refl;
  reads = λ rest. rw (← hw, open_read bs rest, hv);
}

module _ {A : Type 0} where
  pub RoundTrip-pure : (a : A) → RoundTrip (pure a) (pure tt) a
  unfolding pure
  RoundTrip-pure a = record {
    wire = [];
    writes = λ s. ap (λ t. ok (tt, t)) (sym (append-nil s));
    reads = λ rest. refl;
  }

module _ {A B : Type 0} where
  pub RoundTrip-bind :
      {reader : Io Bytes A} {writer next : Io Bytes (Unit {0})} {a : A} {b : B} (f : A → Io Bytes B)
      → RoundTrip reader writer a
      → RoundTrip (f a) next b
      → RoundTrip (reader >>= f) (writer >> next) b
  unfolding ◌>>=◌
  RoundTrip-bind f first second = record {
    wire = first.wire ++ second.wire;
    writes = λ s. rw (first.writes s, second.writes, append_assoc);
    reads = λ rest. rw (append_assoc, first.reads, second.reads);
  }

  -- The last part of a reader, which puts its result together.
  pub RoundTrip-last :
      {reader : Io Bytes A} {writer : Io Bytes (Unit {0})} {a : A} (g : A → B)
      → RoundTrip reader writer a
      → RoundTrip (reader >>= λ x. pure (g x)) writer (g a)
  unfolding ◌>>=◌ pure
  RoundTrip-last g last = record {
    wire = last.wire;
    writes = last.writes;
    reads = λ rest. rw (last.reads);
  }

module _ {A B : Type 0} where
  -- A reader that tests what it has read, and accepts it.
  pub RoundTrip-accept :
      {reader : Io Bytes A} {writer : Io Bytes (Unit {0})} {a : A} {b : B} (f : A → Io Bytes B)
      → RoundTrip reader writer a
      → f a ≡ pure b
      → RoundTrip (reader >>= f) writer b
  unfolding ◌>>=◌ pure
  RoundTrip-accept f last h = record {
    wire = last.wire;
    writes = last.writes;
    reads = λ rest. rw (last.reads) (ap (λ (m : Io Bytes B). m rest) h);
  }

module _ {ℓ} {T : Type 0} (P : T → Type ℓ) {reader : Io Bytes T} {writer : T → Io Bytes (Unit {0})}
    (object : (t : T) → P t → RoundTrip reader (writer t) t) where
  pub RoundTrip-objects :
      (ts : List T)
      → All P ts
      → RoundTrip (read_objects reader (length ts)) (write_objects writer ts) ts
  unfolding read_objects write_objects
  RoundTrip-objects [] h = RoundTrip-pure []
  RoundTrip-objects (t ∷ ts) (p, h) =
      RoundTrip-bind _ (object t p) (RoundTrip-last (λ us. t ∷ us) (RoundTrip-objects ts h))
