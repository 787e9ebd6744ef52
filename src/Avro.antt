-- ===== src/Avro.antt =====
-- What the program uses of the avro library's memory streams, which are not part of it: an output
-- stream that is written to, counted, and read back through an input stream that is a snapshot.
pub mod Model
use csi_http.Base.{
  drop, take, drop_all, leb, arith, take_of_le, if◌then◌else◌, Option, ◌++◌, leb_refl, length, ℕ,
  Bytes, none, some, [], ◌≡◌,
}

pub record AvroMemory : Type 1 where
  pub Stream : Type 0
  -- `avro::memoryOutputStream()`.
  pub memory_output_stream : Stream
  -- `StreamWriter::writeBytes` and `flush`.
  pub write_bytes : Stream → Bytes → Stream
  pub byte_count : Stream → ℕ
  -- The bytes that a reader of `avro::memoryInputStream(os)` delivers.
  pub memory_input_stream : Stream → Bytes

pub record IsAvroMemory (av : AvroMemory) : Type 0 where
  pub byte_count-length : (s : av.Stream) → av.byte_count s ≡ length (av.memory_input_stream s)
  pub read_empty : av.memory_input_stream av.memory_output_stream ≡ []
  pub read_written :
      (s : av.Stream) (b : Bytes)
      → av.memory_input_stream (av.write_bytes s b) ≡ av.memory_input_stream s ++ b

-- `StreamReader::readBytes(sz)`: the bytes and the rest. `none` is the exception at the end.
unfoldable pub read_bytes : ℕ → Bytes → Option (Bytes × Bytes)
read_bytes sz s = if leb sz (length s) then some (take sz s, drop sz s) else none

pub read_bytes_all : (s : Bytes) → read_bytes (length s) s ≡ some (s, [])
unfolding read_bytes
read_bytes_all s = rw (leb_refl (length s), take_of_le (length s) s (omega arith), drop_all s)
