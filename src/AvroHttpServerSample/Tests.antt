-- ===== src/AvroHttpServerSample/Tests.antt =====
-- A request of the sample with the message "hi", whose length comes first in the encoding of a response.
use csi_http.Base.{take, Option, ◌≡◌, false, Bytes, codes, true, none, some, refl, [], ◌∷◌, length}
use csi_http.Externals.{Externals}
use csi_http.Externals.Model.{scripted}
use csi_http.Status.{post, undefined}
use csi_http.Connection.{Garbage}
use csi_http.Encoding.{Codec}
use csi_http.HttpConnection.{HttpConnection, new_http_connection}
use csi_http.AvroHttpServerSample.{HelloWorldRequest, HelloWorldResponse, is_zero, pos, negsuc}

abbrev ex : Externals
ex = scripted []

abbrev requests : Codec HelloWorldRequest
requests = record {
  encode = λ r. r.message;
  decode = λ s. some (record { message = s; delay = pos 0 });
}

abbrev counted : Bytes → Option HelloWorldResponse
counted [] = none
counted (n ∷ s) = some (record { message = take n s })

abbrev responses : Codec HelloWorldResponse
responses = record { encode = λ v. length v.message ∷ v.message; decode = counted }

abbrev garbage : Garbage
garbage = record {
  method = post;
  status = undefined;
  last_header_was_value = true;
  key = 7 ∷ [];
  val = 7 ∷ [];
  key_len = 5;
  val_len = 9;
}

abbrev asking : HttpConnection ex
unfolding new_http_connection
asking =
    let c = new_http_connection ex [] garbage in
    record c {
      base = record c.base {
        request = record c.base.request { avro_rx_buffer = codes "hi" };
        reply = record c.base.reply { avro_tx_buffer = some [] };
      };
    }

-- A negative delay is not 0.
is_zero_test : is_zero (negsuc 4) ≡ false
unfolding is_zero
is_zero_test = refl
