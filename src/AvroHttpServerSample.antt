-- ===== src/AvroHttpServerSample.antt =====
-- The service and the request handler of samples/avro_http_server_sample/avro_http_server_sample.cpp. The
-- generated code of its two types is a parameter. The timer of the service is outside: it calls `_handle_post` at some time.
pub mod Handling
pub mod Answers
mod Tests
use csi_http.Base.{
  map_some, ◌==◌, ◌>>=◌, if◌then◌else◌, codes, Bytes, ℕ, Option, Bool, List, true, false, none,
  some, [], ◌∷◌,
}
use csi_http.Externals.{Externals}
use csi_http.Status.{MethodT, post, ok, bad_request}
use csi_http.Reply.{create, text_html}
use csi_http.Asio.{World}
use csi_http.Server.{handler_data}
use csi_http.Encoding.{Codec, avro_json_encode, avro_json_decode}
use csi_http.HttpConnection.{
  HttpConnection, with_reply, wait_for_async_reply, notify_async_reply_done,
}
use csi_http.HttpServer.{Table}

-- `int64_t`, but for its bounds: a delay is only compared with 0 and handed to a timer.
pub data ℤ : Type 0 where
  pos negsuc : ℕ → ℤ

pub record HelloWorldRequest : Type 0 where
  pub message : Bytes
  pub delay : ℤ

pub record HelloWorldResponse : Type 0 where
  pub message : Bytes

-- `request->delay == 0`.
unfoldable pub is_zero : ℤ → Bool
is_zero (pos n) = n == 0
is_zero (negsuc n) = false

-- `request().method() == POST`.
unfoldable pub is_post_method : MethodT → Bool
is_post_method post = true
is_post_method _ = false

module _ (ex : Externals) (requests : Codec HelloWorldRequest)
    (responses : Codec HelloWorldResponse) where
  -- The response is encoded behind the content that the reply has, and the reply is created.
  unfoldable pub reply_ok : HelloWorldResponse → HttpConnection ex → Option (HttpConnection ex)
  unfolding avro_json_encode
  reply_ok response c = do
    content ← c.base.reply.avro_tx_buffer
    let encoded = avro_json_encode ex.avro HelloWorldResponse responses response content
    reply ← create ex.avro ok text_html 0 (record c.base.reply { avro_tx_buffer = some encoded })
    some (with_reply ex reply c)

  -- `sample_service::_handle_post`.
  unfoldable pub handle_post : World ex.Uuid → HttpConnection ex → Option (HttpConnection ex)
  unfolding reply_ok
  handle_post w c = do
    d ← reply_ok (record { message = codes "hello to you!" }) c
    some (notify_async_reply_done ex w d)

  -- `sample_service::post`, but for its timer.
  unfoldable pub post_request : HttpConnection ex → HttpConnection ex
  post_request c = wait_for_async_reply ex c

  -- `none` is also the exception of a content that is no request.
  unfoldable pub handle_request : HttpConnection ex → Option (HttpConnection ex)
  unfolding is_zero is_post_method avro_json_decode reply_ok post_request
  handle_request c =
      if is_post_method c.base.request.method
      then (avro_json_decode ex.avro HelloWorldRequest requests c.base.request.avro_rx_buffer
          >>= λ request.
              if is_zero request.delay
              then reply_ok (record { message = request.message }) c
              else some (post_request c))
      else map_some (λ r. with_reply ex r c) (create ex.avro bad_request text_html 0 c.base.reply)

  -- The handler that `main` adds.
  unfoldable pub handler : List Bytes → Option (HttpConnection ex) → Option (HttpConnection ex)
  unfolding handle_request
  handler parts none = none
  handler parts (some c) = handle_request c

  -- The table of `main`.
  unfoldable pub sample_table : ℕ → Table ex
  unfolding handler_data handler
  sample_table n = handler_data ex.split (codes "/rest/avro_sample") handler n ∷ []
