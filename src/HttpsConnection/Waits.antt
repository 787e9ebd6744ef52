-- ===== src/HttpsConnection/Waits.antt =====
-- How csi_http/server/https_connection.cpp waits for a reply, and what follows a write.
use csi_http.Base.{
  arith, ap, >>=_of_some, ◌∙◌, ◌++◌, ◌+◌, map, ◌≡◌, List, Option, true, false, some, refl, [], ◌∷◌,
  Bytes, flatten, map-append, append_assoc,
}
use csi_http.Avro.{IsAvroMemory}
use csi_http.Externals.{Externals}
use csi_http.Status.{method_name}
use csi_http.Reply.Wire.{wire, to_buffers-wire}
use csi_http.Asio.{
  Io, Pending, World, Completes, ErrorCode, success, failure, operation_aborted, async_wait,
  async_wait_call, async_read_some, async_write, begin, cancel_timer, expires_from_now, is_wait,
  abort,
}
use csi_http.Asio.Counts.{
  Kind, count, flag, is_read, is_write, count-begin, count-cancel_timer, count-expires_from_now,
}
use csi_http.HttpConnection.Writes.{closing_headers, closing_parts, is_success}
use csi_http.HttpsConnection.{
  HttpsConnection, log_request, log_end, send_reply, closing_reply, wait_for_async_reply,
  after_request, handle_async_call, handle_write_complete,
}

module _ (ex : Externals) (law : IsAvroMemory ex.avro) where
  -- A write of the reply as it stands was started, and nothing is waited for.
  pub record IsWriting (c d : HttpsConnection ex) (s : ex.avro.Stream) : Type 0 where
    pub buffers : List Bytes
    pub started :
        d.io.pending
        ≡ c.io.pending ++ record { operation = async_write buffers; aborted = false } ∷ []
    pub text :
        flatten buffers
        ≡ wire c.base.reply.status
            (closing_headers c.base.keep_alive c.base.reply.headers)
            (ex.avro.memory_input_stream s)
    pub waiting : d.base.waiting_for_async_reply ≡ false

  send_reply-IsWriting :
      (w : World ex.Uuid) (c : HttpsConnection ex) (peer method : Bytes) (s : ex.avro.Stream)
      → w.remote_endpoint ≡ some peer
      → method_name c.base.request.method ≡ some method
      → c.base.reply.avro_tx_buffer ≡ some s
      → (d : HttpsConnection ex) × (send_reply ex w c ≡ some d) × IsWriting c d s
  unfolding send_reply log_end log_request begin
  send_reply-IsWriting w c peer method s found named buffer =
      let (st, hs, buf) = closing_parts ex law c.base.keep_alive c.base.reply in
      let (buffers, reply, run, flat, _, _, _) =
        to_buffers-wire ex.avro law (closing_reply ex c) s (buf ∙ buffer) in
      (
        _,
        >>=_of_some _ _ (>>=_of_some _ _ found (>>=_of_some _ _ named refl))
            (>>=_of_some _ _ run refl),
        record {
          buffers = buffers;
          started = refl;
          text =
              flat
              ∙ ap (λ st. wire st (closing_reply ex c).headers (ex.avro.memory_input_stream s)) st
              ∙ ap (λ hs. wire c.base.reply.status hs (ex.avro.memory_input_stream s)) hs;
          waiting = refl;
        },
      )

  module _ {S : Type 0} (serve : S → HttpsConnection ex → Option (S × HttpsConnection ex)) where
    -- With a peer, a method in the table and a buffer for the content, and a request handler that
    -- only says that the reply will come later: the connection's own timer,
    -- which is armed again behind the handler, aborts the wait, and the completion of the aborted wait
    -- sends the reply as it stands, though nobody has announced it.
    pub after_request_unannounced :
        (w : World ex.Uuid) (t : S) (c : HttpsConnection ex) (peer method : Bytes)
        (s : ex.avro.Stream)
        → w.remote_endpoint ≡ some peer
        → method_name c.base.request.method ≡ some method
        → c.base.reply.avro_tx_buffer ≡ some s
        → (d e : HttpsConnection ex) × (io : Io) × (after_request ex serve w
              (t, wait_for_async_reply ex c)
            ≡ some (t, d))
          × Completes d.io (async_wait_call 3660) operation_aborted io
          × (handle_async_call ex w operation_aborted (record d { io = io }) ≡ some e)
          × IsWriting (record d { io = io }) e s
    unfolding after_request wait_for_async_reply handle_async_call expires_from_now cancel_timer
        begin is_wait
    after_request_unannounced w t c peer method s found named buffer =
        let call : Pending = record { operation = async_wait_call 3660; aborted = false } in
        let timer : Pending = record { operation = async_wait 3605; aborted = false } in
        let waits : List Pending = map (abort is_wait) (map (abort is_wait) c.io.pending) in
        let base = record c.base { waiting_for_async_reply = true } in
        let io : Io = record c.io { pending = waits ++ timer ∷ []; expiry = 3605 } in
        let io' : Io = record c.io {
          pending =
              map (abort is_wait) (map (abort is_wait) c.io.pending ++ call ∷ []) ++ timer ∷ [];
          expiry = 3605;
        } in
        let (e, sent, writing) =
          send_reply-IsWriting w (record { base = base; io = io }) peer method s found named
            buffer in
        (
          record { base = base; io = io' },
          e,
          io,
          refl,
          record {
            before = waits;
            after = timer ∷ [];
            aborted = true;
            found =
                ap (λ (ps : List Pending). ps ++ timer ∷ [])
                  (map-append (abort is_wait) (map (abort is_wait) c.io.pending) (call ∷ []))
                ∙ append_assoc waits _ (timer ∷ []);
            allowed = λ e. refl;
            left = refl;
          },
          sent,
          writing,
        )

module _ (ex : Externals) where
  -- After a write the next read is started exactly if the write succeeded, whether or not the
  -- connection is to be kept alive, and no write is.
  pub handle_write_complete-count :
      (e : ErrorCode) (c : HttpsConnection ex)
      → (count is_read (handle_write_complete ex e c).io.pending
          ≡ count is_read c.io.pending + flag (is_success e))
        × (count is_write (handle_write_complete ex e c).io.pending ≡ count is_write c.io.pending)
  unfolding handle_write_complete
  handle_write_complete-count operation_aborted c = (omega arith, refl)
  handle_write_complete-count failure c = (omega arith, refl)
  handle_write_complete-count success c =
      let io : Io = cancel_timer c.io in
      let timer : Io = begin (async_wait 5) (expires_from_now 5 io) in
      let more : (k : Kind)
          → count k (begin async_read_some timer).pending
            ≡ count k c.io.pending + flag (k (async_wait 5)) + flag (k async_read_some) =
        λ k. omega (
          arith,
          count-begin k async_read_some timer,
          count-begin k (async_wait 5) (expires_from_now 5 io),
          count-expires_from_now k 5 io,
          count-cancel_timer k c.io,
        ) in
      (omega (arith, more is_read), omega (arith, more is_write))
