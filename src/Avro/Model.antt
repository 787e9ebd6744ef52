-- ===== src/Avro/Model.antt =====
-- A stream that is the list of its bytes.
use csi_http.Base.{◌+◌, replicate, ℕ, length, ◌++◌, Bytes, [], refl}
use csi_http.Avro.{ℕ, length, Bytes, AvroMemory, IsAvroMemory}

abbrev pub list_avro : AvroMemory
list_avro = record {
  Stream = Bytes;
  memory_output_stream = [];
  write_bytes = λ s b. s ++ b;
  byte_count = λ s. length s;
  memory_input_stream = λ s. s;
}

pub list_avro-IsAvroMemory : IsAvroMemory list_avro
list_avro-IsAvroMemory = record {
  byte_count-length = λ s. refl;
  read_empty = refl;
  read_written = λ s b. refl;
}

-- A stream of zeros that is only its length, for contents too long to write out.
pub zeros : ℕ → Bytes
zeros n = replicate n 0

abbrev pub zero_avro : AvroMemory
zero_avro = record {
  Stream = ℕ;
  memory_output_stream = 0;
  write_bytes = λ n b. n + length b;
  byte_count = λ n. n;
  memory_input_stream = zeros;
}
