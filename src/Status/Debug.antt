-- ===== src/Status/Debug.antt =====
-- `debug_to_string` of csi_http/csi_http.cpp and the text of an endpoint in csi_http.h.
use csi_http.Base.{print_int, ◌++◌, ℕ, map_some, ◌≡◌, Bytes, Option, some, refl, ◌∷◌}
use csi_http.Avro.{AvroMemory, IsAvroMemory, read_bytes, read_bytes_all}

-- `none` is the exception of a read past the end.
unfoldable pub debug_to_string : (av : AvroMemory) → av.Stream → Option Bytes
debug_to_string av os =
    map_some (λ r. r.0) (read_bytes (av.byte_count os) (av.memory_input_stream os))

-- An endpoint by the text of its address and its port. The buffer is long enough for any port.
unfoldable pub endpoint_text : Bytes → ℕ → Bytes
endpoint_text address port = address ++ (b':' ∷ print_int port)

module _ (av : AvroMemory) (law : IsAvroMemory av) where
  debug_to_string-content :
      (os : av.Stream) → debug_to_string av os ≡ some (av.memory_input_stream os)
  unfolding debug_to_string
  debug_to_string-content os =
      rw (law.byte_count-length os) (rw (read_bytes_all (av.memory_input_stream os)) refl)
