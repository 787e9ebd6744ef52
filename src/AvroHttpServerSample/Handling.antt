-- ===== src/AvroHttpServerSample/Handling.antt =====
-- The handler of samples/avro_http_server_sample/avro_http_server_sample.cpp keeps to the interface of the
-- server.
use csi_http.Base.{
  sym, ap, ◌∙◌, map_some-eq-some, map_some, some-inj, subst, ◌>>=◌, >>=-eq-some, if◌then◌else◌,
  codes, ℕ, Bool, ◌≡◌, true, false, some,
}
use csi_http.Externals.{Externals}
use csi_http.Status.{ok, bad_request}
use csi_http.Reply.{create, text_html}
use csi_http.Asio.{World, Io}
use csi_http.Asio.Counts.{count, is_post}
use csi_http.Encoding.{Codec, avro_json_encode, avro_json_decode}
use csi_http.HttpConnection.{HttpConnection, with_reply}
use csi_http.HttpConnection.Steps.{Handled, returns, replies, waits, notifies}
use csi_http.HttpServer.Handlers.{IsTable}
use csi_http.AvroHttpServerSample.{
  HelloWorldRequest, HelloWorldResponse, is_zero, is_post_method, reply_ok, handle_post,
  post_request, handle_request, handler, sample_table,
}

module _ (ex : Externals) (requests : Codec HelloWorldRequest)
    (responses : Codec HelloWorldResponse) where
  reply_ok-Handled :
      (v : HelloWorldResponse) (c d : HttpConnection ex)
      → reply_ok ex requests responses v c ≡ some d
      → Handled ex c d
  unfolding reply_ok
  reply_ok-Handled v c d h =
      let (content, found, g) = >>=-eq-some c.base.reply.avro_tx_buffer _ h in
      let (reply, made, g') =
        >>=-eq-some
          (create ex.avro ok text_html 0 (record c.base.reply {
            avro_tx_buffer = some (avro_json_encode ex.avro HelloWorldResponse responses v content);
          }))
          _ g in
      subst (Handled ex c) (some-inj g') (replies reply returns)

  reply_ok-kept :
      (v : HelloWorldResponse) (c d : HttpConnection ex)
      → reply_ok ex requests responses v c ≡ some d
      → (d.io ≡ c.io) × (d.base.waiting_for_async_reply ≡ c.base.waiting_for_async_reply)
  unfolding reply_ok
  reply_ok-kept v c d h =
      let (content, found, g) = >>=-eq-some c.base.reply.avro_tx_buffer _ h in
      let (reply, made, g') =
        >>=-eq-some
          (create ex.avro ok text_html 0 (record c.base.reply {
            avro_tx_buffer = some (avro_json_encode ex.avro HelloWorldResponse responses v content);
          }))
          _ g in
      let same : with_reply ex reply c ≡ d = some-inj g' in
      (
        ap (λ (x : HttpConnection ex). x.io) (sym same),
        ap (λ (x : HttpConnection ex). x.base.waiting_for_async_reply) (sym same),
      )

  handle_request-Handled :
      (c d : HttpConnection ex) → handle_request ex requests responses c ≡ some d → Handled ex c d
  unfolding handle_request post_request
  handle_request-Handled c d h = go (is_post_method c.base.request.method) h
    where
      go :
          (b : Bool)
          → (if b
              then (avro_json_decode ex.avro HelloWorldRequest requests
                    c.base.request.avro_rx_buffer
                  >>= λ request.
                      if is_zero request.delay
                      then reply_ok ex requests responses (record { message = request.message }) c
                      else some (post_request ex requests responses c))
              else map_some
                  (λ r. with_reply ex r c)
                  (create ex.avro bad_request text_html 0 c.base.reply))
            ≡ some d
          → Handled ex c d
      go false g =
          let (r, made, g') =
            map_some-eq-some (λ r. with_reply ex r c)
              (create ex.avro bad_request text_html 0 c.base.reply) g in
          subst (Handled ex c) g' (replies r returns)
      go true g =
          let (request, read, g') =
            >>=-eq-some
              (avro_json_decode ex.avro HelloWorldRequest requests c.base.request.avro_rx_buffer) _
              g in
          at_once request (is_zero request.delay) g'
        where
          at_once :
              (request : HelloWorldRequest) (b : Bool)
              → (if b
                  then reply_ok ex requests responses (record { message = request.message }) c
                  else some (post_request ex requests responses c))
                ≡ some d
              → Handled ex c d
          at_once request true g = reply_ok-Handled (record { message = request.message }) c d g
          at_once request false g = subst (Handled ex c) (some-inj g) (waits returns)

  -- What the service does later keeps to the interface of a connection that waits and has no reply
  -- announced.
  handle_post-Handled :
      (w : World ex.Uuid) (c d : HttpConnection ex)
      → handle_post ex requests responses w c ≡ some d
      → c.base.waiting_for_async_reply ≡ true
      → count is_post c.io.pending ≡ 0
      → Handled ex c d
  unfolding handle_post
  handle_post-Handled w c d h waiting none_posted =
      let (b, replied, g) =
        >>=-eq-some (reply_ok ex requests responses (record { message = codes "hello to you!" }) c)
          _ h in
      let (io, same) = reply_ok-kept (record { message = codes "hello to you!" }) c b replied in
      subst (Handled ex c) (some-inj g) (
        notifies w (same ∙ waiting) (ap (λ (i : Io). count is_post i.pending) io ∙ none_posted)
          (reply_ok-Handled (record { message = codes "hello to you!" }) c b replied))

  -- The handlers of `main` keep to the interface of the server.
  sample_table-IsTable : (n : ℕ) → IsTable ex (sample_table ex requests responses n)
  unfolding sample_table handler
  sample_table-IsTable n = (record { handled = λ parts c d h. handle_request-Handled c d h }, tt)
