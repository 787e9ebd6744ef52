-- ===== src/AvroHttpServerSample/Answers.antt =====
-- What samples/avro_http_server_sample/avro_http_server_sample.cpp answers.
use csi_http.Base.{◌⊎◌, codes, Bytes, ◌≡◌, true, false, some}
use csi_http.Externals.{Externals}
use csi_http.Status.{ok}
use csi_http.Reply.{Reply}
use csi_http.Asio.{World, begin, post_reply_done}
use csi_http.Encoding.{Codec, avro_json_decode}
use csi_http.HttpConnection.{HttpConnection}
use csi_http.AvroHttpServerSample.{
  HelloWorldRequest, HelloWorldResponse, is_zero, handle_post, handle_request,
}

module _ (ex : Externals) (requests : Codec HelloWorldRequest)
    (responses : Codec HelloWorldResponse) where
  -- The reply is `ok` with a content from which a client decodes the message.
  abbrev pub Says : Bytes → HttpConnection ex → Type 0
  Says m c =
      (st : ex.avro.Stream) × (c.base.reply.status ≡ ok)
      × (c.base.reply.avro_tx_buffer ≡ some st)
      × (avro_json_decode ex.avro HelloWorldResponse responses st ≡ some (record { message = m }))

  -- The connection waits with the reply that it had, and `_handle_post` will say hello and announce it.
  abbrev pub SaysLater : HttpConnection ex → HttpConnection ex → Type 0
  SaysLater c d =
      (d.base.waiting_for_async_reply ≡ true)
      × (d.base.reply ≡ c.base.reply)
      × ((w : World ex.Uuid)
          → (e : HttpConnection ex) × (handle_post ex requests responses w d ≡ some e)
            × Says (codes "hello to you!") e
            × (e.io ≡ begin post_reply_done d.io))

  -- What becomes of a POST with the request `q`.
  abbrev pub AnswersPost : HttpConnection ex → HelloWorldRequest → Type 0
  AnswersPost c q =
      (d : HttpConnection ex) × (handle_request ex requests responses c ≡ some d)
      × (((is_zero q.delay ≡ true) × Says q.message d × (d.io ≡ c.io))
          ⊎ ((is_zero q.delay ≡ false) × SaysLater c d))
