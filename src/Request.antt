-- ===== src/Request.antt =====
-- csi_http/server/request.cpp and request.h: a request, and the id by which it is logged. A random
-- uuid is an argument of the call that draws it.
pub mod Ids
mod Tests
use csi_http.Base.{
  not, List, Option, codes, Bool, if◌then◌else◌, true, false, none, some, [], ◌∷◌, ℕ, Bytes,
}
use csi_http.Externals.{Externals}
use csi_http.Status.{MethodT}
use csi_http.Reply.{Header}

pub record Request (ex : Externals) : Type 0 where
  pub method : MethodT
  pub url : Bytes
  pub query : Bytes
  pub request_id : Bytes
  pub request_uuid : ex.Uuid
  pub headers : List Header
  pub content_length : ℕ
  pub avro_rx_buffer : ex.avro.Stream

abbrev pub is_empty : Bytes → Bool
is_empty [] = true
is_empty (c ∷ s) = false

-- The default argument of `request_id` and `request_uuid`.
abbrev pub default_id_header : Bytes
default_id_header = codes "request_id"

module _ (ex : Externals) where
  -- `reset` sets every field but the method.
  unfoldable pub reset : Request ex → Request ex
  reset r = record {
    method = r.method;
    url = [];
    query = [];
    request_id = [];
    request_uuid = ex.nil_uuid;
    headers = [];
    content_length = 0;
    avro_rx_buffer = ex.avro.memory_output_stream;
  }

  -- `request_t()`, with the method as the constructor leaves it.
  unfoldable pub new_request : MethodT → Request ex
  new_request m = record {
    method = m;
    url = [];
    query = [];
    request_id = [];
    request_uuid = ex.nil_uuid;
    headers = [];
    content_length = 0;
    avro_rx_buffer = ex.avro.memory_output_stream;
  }

  find_value : Bytes → List Header → Bytes
  find_value h [] = []
  find_value h (i ∷ hs) = if ex.iequals h i.name then i.value else find_value h hs

  unfoldable pub get_header : Bytes → Request ex → Bytes
  unfolding find_value
  get_header h r = find_value h r.headers

  abbrev uuid_or_nil : Option ex.Uuid → ex.Uuid
  uuid_or_nil none = ex.nil_uuid
  uuid_or_nil (some u) = u

  abbrev pub with_id : Bytes → ex.Uuid → Request ex → Request ex
  with_id id u r = record r { request_id = id; request_uuid = u }

  -- The request with a random uuid for its id.
  abbrev pub with_random : ex.Uuid → Request ex → Request ex
  with_random u r = with_id (ex.uuid_to_string u) u r

  -- `request_id`: the request and the text that is returned.
  unfoldable pub request_id : Bytes → ex.Uuid → Request ex → Request ex × Bytes
  unfolding get_header
  request_id id_header random r =
      let given = get_header id_header r in
      if not (is_empty r.request_id)
      then (r, r.request_id)
      else if not (is_empty given)
      then (with_id given (uuid_or_nil (ex.string_generator given)) r, given)
      else (with_random random r, ex.uuid_to_string random)

  abbrev parsed_or_random : Bytes → ex.Uuid → Request ex → Option ex.Uuid → Request ex × ex.Uuid
  parsed_or_random given random r (some u) = (with_id given u r, u)
  parsed_or_random given random r none = (with_random random r, random)

  -- `request_uuid`.
  unfoldable pub request_uuid : Bytes → ex.Uuid → Request ex → Request ex × ex.Uuid
  unfolding get_header
  request_uuid id_header random r =
      let given = get_header id_header r in
      if not (ex.is_nil r.request_uuid)
      then (r, r.request_uuid)
      else if not (is_empty given)
      then parsed_or_random given random r (ex.string_generator given)
      else (with_random random r, random)
