-- ===== src/Encoding/Tests.antt =====
-- The encodings of csi_http/encoding with a type of one byte.
use csi_http.Base.{
  ◌<◌, ◌⊎◌, arith, ◌≡◌, codes, Option, ℕ, Bytes, true, false, none, some, refl, [], ◌∷◌, length,
}
use csi_http.Avro.Model.{list_avro, list_avro-IsAvroMemory}
use csi_http.Status.{post}
use csi_http.Encoding.{
  Codec, IsCodec, avro_raw_binary_encode_buffer, avro_raw_binary_decode,
  avro_raw_binary_decode_buffer, create_avro_binary_rest,
}
use csi_http.Encoding.RoundTrip.{avro_raw_binary_encode_buffer-decode}
use csi_http.Encoding.Rest.{Delivers, create_avro_binary_rest-upload}

abbrev first_byte : Bytes → Option ℕ
first_byte [] = none
first_byte (b ∷ s) = some b

abbrev byte : Codec ℕ
byte = record { encode = λ b. b ∷ []; decode = first_byte }

byte-IsCodec : IsCodec ℕ byte
byte-IsCodec = record { decode-encode = λ v rest. refl }

avro_raw_binary_encode_buffer-decode_example :
    (r : Option (Bytes × ℕ)) × (avro_raw_binary_encode_buffer list_avro ℕ true byte 7 (codes "ab") 2
      ≡ r)
    × (((written : Bytes) × (r ≡ some (written, 1))
          × (length written ≡ 2)
          × (avro_raw_binary_decode_buffer list_avro ℕ byte written 1 ≡ some 7))
        ⊎ ((2 < 1) × (r ≡ some (codes "ab", 0))))
avro_raw_binary_encode_buffer-decode_example =
    avro_raw_binary_encode_buffer-decode list_avro list_avro-IsAvroMemory ℕ byte true 7 (codes "ab")
      byte-IsCodec

create_avro_binary_rest-upload_example :
    ((create_avro_binary_rest list_avro ℕ byte (codes "/") 7 [] 1000 false).method ≡ post)
    × Delivers list_avro list_avro-IsAvroMemory ℕ true
        (avro_raw_binary_decode list_avro ℕ byte)
        (8 ∷ 8 ∷ [])
        (create_avro_binary_rest list_avro ℕ byte (codes "/") 7 [] 1000 false)
        7
create_avro_binary_rest-upload_example =
    create_avro_binary_rest-upload list_avro list_avro-IsAvroMemory ℕ true byte (codes "/") 7 []
      1000 false (8 ∷ 8 ∷ []) byte-IsCodec
      (omega arith, omega arith, (omega arith, omega arith, tt)) (omega arith)
