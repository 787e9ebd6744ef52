-- ===== src/HttpClient/CallContext.antt =====
-- `call_context` of csi_http/client/http_client.h: a request of the client with its reply, and what
-- libcurl is told about it. Times are left out.
use csi_http.Base.{
  if◌then◌else◌, ltb, ◌++◌, ◌>>=◌, codes, leb, ◌&&◌, List, Option, true, false, none, some, [], ◌∷◌,
  ℕ, Bool, Bytes,
}
use csi_http.Avro.{AvroMemory}
use csi_http.Status.{StatusType, code, MethodT, get, put, post, undefined}

-- An option of a curl easy handle, with its value where it depends on the request.
pub data EasyOption : Type 0 where
  open_socket_function close_socket_function read_function write_function header_function :
      EasyOption
  verbose http_get follow_location ip_resolve_v4 no_verify_peer cert_info private_context :
      EasyOption
  upload : EasyOption
  in_file_size post_field_size low_speed_time low_speed_limit timeout_ms : ℕ → EasyOption
  http_post : EasyOption
  url : Bytes → EasyOption
  http_header : List Bytes → EasyOption

pub record CallContext (av : AvroMemory) : Type 0 where
  pub method : MethodT
  pub uri : Bytes
  pub tx_headers : List Bytes
  pub rx_headers : List Bytes
  pub timeout : ℕ
  -- Whether there is a callback.
  pub callback : Bool
  pub avro_tx_buffer : av.Stream
  -- What is left to read of `_avro_tx_stream`.
  pub avro_tx_stream : Bytes
  pub avro_rx_buffer : av.Stream
  pub http_result : StatusType
  pub transport_ok : Bool
  -- The options that the easy handle was given, and whether its private pointer is this object.
  pub curl_easy : List EasyOption
  pub curl_private : Bool
  pub curl_headerlist : Option (List Bytes)
  pub curl_done : Bool
  -- Whether `_curl_shared` holds the object itself.
  pub curl_shared : Bool
  pub curl_verbose : Bool

module _ (av : AvroMemory) where
  -- The constructor does not set `_transport_ok`.
  unfoldable pub new_call_context : MethodT → Bytes → List Bytes → ℕ → Bool → Bool → CallContext av
  new_call_context m u headers t v uninitialised = record {
    method = m;
    uri = u;
    tx_headers = headers;
    rx_headers = [];
    timeout = t;
    callback = false;
    avro_tx_buffer = av.memory_output_stream;
    avro_tx_stream = [];
    avro_rx_buffer = av.memory_output_stream;
    http_result = undefined;
    transport_ok = uninitialised;
    curl_easy = [];
    curl_private = false;
    curl_headerlist = none;
    curl_done = false;
    curl_shared = false;
    curl_verbose = v;
  }

  abbrev pub create_http_request : MethodT → Bytes → List Bytes → ℕ → Bool → CallContext av
  unfolding new_call_context
  create_http_request m u headers t uninitialised =
      new_call_context m u headers t false uninitialised

  unfoldable pub curl_start : CallContext av → CallContext av
  curl_start c = record c { curl_shared = true }

  unfoldable pub curl_stop : CallContext av → CallContext av
  curl_stop c = record c { curl_shared = false }

  abbrev pub tx_content_length : CallContext av → ℕ
  tx_content_length c = av.byte_count c.avro_tx_buffer

  abbrev pub rx_content_length : CallContext av → ℕ
  rx_content_length c = av.byte_count c.avro_rx_buffer

  -- A write to `tx_content()`.
  unfoldable pub write_tx_content : Bytes → CallContext av → CallContext av
  write_tx_content b c = record c { avro_tx_buffer = av.write_bytes c.avro_tx_buffer b }

  unfoldable pub is_ok : CallContext av → Bool
  unfolding code
  is_ok c = c.transport_ok && leb 200 (code c.http_result) && ltb (code c.http_result) 300

  -- The options for the method and the size of the content. The first argument is whether `NDEBUG` is
  -- defined. `none` is the failed assertion: without it, a request with another method has no option for it.
  unfoldable pub method_options : Bool → MethodT → ℕ → Option (List EasyOption)
  method_options ndebug get n = some (http_get ∷ [])
  method_options ndebug put n = some (upload ∷ in_file_size n ∷ [])
  method_options ndebug post n = some (http_post ∷ post_field_size n ∷ [])
  method_options ndebug _ n = if ndebug then some [] else none

  abbrev pub verbose_options : Bool → List EasyOption
  verbose_options true = verbose ∷ []
  verbose_options false = []

  -- The header list, which is freed first if there is one.
  abbrev pub header_list : CallContext av → List Bytes
  header_list c = codes "Expect:" ∷ codes "User-Agent:csi-http/0.1" ∷ c.tx_headers

  -- What `_perform` tells curl, in the order in which it does.
  unfoldable pub easy_options : Bool → CallContext av → Option (List EasyOption)
  unfolding method_options
  easy_options ndebug c = do
    by_method ← method_options ndebug c.method (tx_content_length c)
    some (
        open_socket_function ∷ close_socket_function ∷ verbose_options c.curl_verbose
        ++ (by_method
            ++ url c.uri
              ∷ read_function
              ∷ write_function
              ∷ private_context
              ∷ low_speed_time 3
              ∷ low_speed_limit 10
              ∷ http_header (header_list c)
              ∷ timeout_ms c.timeout
              ∷ header_function
              ∷ follow_location
              ∷ ip_resolve_v4
              ∷ no_verify_peer
              ∷ cert_info
              ∷ []))

  -- `_perform`, up to the call of `curl_multi_add_handle`.
  unfoldable pub prepare : Bool → CallContext av → Option (CallContext av)
  unfolding easy_options curl_start
  prepare ndebug request =
      let c = curl_start request in
      easy_options ndebug c >>= λ options. some (record c {
        avro_tx_stream = av.memory_input_stream c.avro_tx_buffer;
        curl_easy = c.curl_easy ++ options;
        curl_private = true;
        curl_headerlist = some (header_list c);
      })
