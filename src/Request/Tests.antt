-- ===== src/Request/Tests.antt =====
-- Requests with and without an id of the client's, and uses of the theorems.
use csi_http.Base.{some, codes, refl, [], ◌∷◌, ◌≡◌}
use csi_http.Externals.{Externals}
use csi_http.Externals.Model.{scripted, scripted-IsExternals, lower, lower_equal}
use csi_http.Status.{MethodT}
use csi_http.Request.{Request, default_id_header, get_header, request_id, request_uuid}
use csi_http.Request.Ids.{IsSettled, request_id-IsSettled, request_uuid_stable}

abbrev ex : Externals
ex = scripted []

abbrev plain : Request ex
plain = record {
  method = MethodT.get;
  url = codes "/";
  query = [];
  request_id = [];
  request_uuid = 0;
  headers = record { name = codes "Request_Id"; value = codes "my-id" } ∷ [];
  content_length = 0;
  avro_rx_buffer = [];
}

get_header_tests :
    (get_header ex default_id_header plain ≡ codes "my-id")
    × (get_header ex (codes "host") plain ≡ [])
unfolding get_header lower_equal
get_header_tests = (refl, refl)

request_id-IsSettled_example : IsSettled ex (request_id ex default_id_header 7 plain)
request_id-IsSettled_example =
    request_id-IsSettled ex lower (scripted-IsExternals []) default_id_header 7 plain

request_uuid_stable_example :
    let (r', u) = request_uuid ex default_id_header 7 plain in
    (r'.request_uuid ≡ u)
    × (ex.string_generator r'.request_id ≡ some u)
    × (request_uuid ex default_id_header 8 r' ≡ (r', u))
request_uuid_stable_example =
    request_uuid_stable ex lower (scripted-IsExternals []) default_id_header 7 8 plain (λ e. cc)
      refl
