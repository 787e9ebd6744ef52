-- ===== src/HttpConnection/Writes.antt =====
-- What csi_http/server/http_connection.cpp writes, and what follows a write.
use csi_http.Base.{
  not, arith, if◌then◌else◌, ap, >>=_of_some, ◌&&◌, ◌∙◌, ◌+◌, ◌++◌, ◌≡◌, List, true, false, some,
  refl, [], ◌∷◌, ℕ, Bool, Bytes, flatten,
}
use csi_http.Avro.{IsAvroMemory}
use csi_http.Externals.{Externals}
use csi_http.Status.{method_name}
use csi_http.Reply.{Header, Reply, add, to_buffers}
use csi_http.Reply as ReplyOps
use csi_http.Request as RequestOps
use csi_http.Reply.Wire.{wire, to_buffers-wire}
use csi_http.Request.{request_id, default_id_header}
use csi_http.Asio.{
  Io, World, ErrorCode, success, failure, operation_aborted, async_wait, async_read_some,
  async_write, begin, cancel_timer, expires_from_now, connection_close,
}
use csi_http.Asio.Counts.{
  Kind, count, flag, is_read, is_write, count-begin, count-cancel_timer, count-expires_from_now,
}
use csi_http.HttpConnection.{
  HttpConnection, log_request, log_end, send_reply, handle_write, closing_reply, read_on,
}

-- The headers that go out.
abbrev pub closing_headers : Bool → List Header → List Header
closing_headers true hs = hs
closing_headers false hs = hs ++ connection_close ∷ []

abbrev pub is_success : ErrorCode → Bool
is_success success = true
is_success operation_aborted = false
is_success failure = false

module _ (ex : Externals) (law : IsAvroMemory ex.avro) where
  pub closing_parts :
      (keep : Bool) (r : Reply ex.avro)
      → ((if keep then r else add ex.avro connection_close r).status ≡ r.status)
        × ((if keep then r else add ex.avro connection_close r).headers
            ≡ closing_headers keep r.headers)
        × ((if keep then r else add ex.avro connection_close r).avro_tx_buffer ≡ r.avro_tx_buffer)
  unfolding add
  closing_parts true r = (refl, refl, refl)
  closing_parts false r = (refl, refl, refl)

  -- With a peer, a method in the table and a buffer for the content, `send_reply` does not fault: it
  -- starts one write, after which nothing is waited for. The bytes to be written are the response with
  -- the status, headers and content of the reply, and with `Connection: close` behind the headers
  -- unless the connection keeps alive.
  pub send_reply-wire :
      (w : World ex.Uuid) (c : HttpConnection ex) (peer method : Bytes) (s : ex.avro.Stream)
      → w.remote_endpoint ≡ some peer
      → method_name c.base.request.method ≡ some method
      → c.base.reply.avro_tx_buffer ≡ some s
      → (d : HttpConnection ex) × (buffers : List Bytes) × (send_reply ex w c ≡ some d)
        × (d.io.pending
            ≡ c.io.pending ++ record { operation = async_write buffers; aborted = false } ∷ [])
        × (flatten buffers
            ≡ wire c.base.reply.status
                (closing_headers c.base.keep_alive c.base.reply.headers)
                (ex.avro.memory_input_stream s))
        × (d.base.waiting_for_async_reply ≡ false)
  unfolding send_reply log_end log_request begin
  send_reply-wire w c peer method s found named buffer =
      let (st, hs, buf) = closing_parts c.base.keep_alive c.base.reply in
      let (buffers, reply, run, flat, _, _, _) =
        to_buffers-wire ex.avro law (closing_reply ex c) s (buf ∙ buffer) in
      (
        _,
        buffers,
        >>=_of_some _ _ (>>=_of_some _ _ found (>>=_of_some _ _ named refl))
            (>>=_of_some _ _ run refl),
        refl,
        flat
            ∙ ap (λ st. wire st (closing_reply ex c).headers (ex.avro.memory_input_stream s)) st
            ∙ ap (λ hs. wire c.base.reply.status hs (ex.avro.memory_input_stream s)) hs,
        refl,
      )

module _ (ex : Externals) where
  -- How many reads and writes more are pending.
  abbrev Starts : HttpConnection ex → HttpConnection ex → Bool → Type 0
  Starts c d b =
      (count is_read d.io.pending ≡ count is_read c.io.pending + flag b)
      × (count is_write d.io.pending ≡ count is_write c.io.pending)

  cancel_timer-Starts :
      (c : HttpConnection ex) → Starts c (record c { io = cancel_timer c.io }) false
  cancel_timer-Starts c = (
    omega (arith, count-cancel_timer is_read c.io),
    omega (arith, count-cancel_timer is_write c.io),
  )

  read_on-Starts :
      (c d : HttpConnection ex) (n : ℕ) → d.io ≡ cancel_timer c.io → Starts c (read_on ex n d) true
  read_on-Starts c d n e =
      let timer : Io = begin (async_wait n) (expires_from_now n d.io) in
      let more : (k : Kind)
          → count k (begin async_read_some timer).pending
            ≡ count k c.io.pending + flag (k (async_wait n)) + flag (k async_read_some) =
        λ k. omega (
          arith,
          count-begin k async_read_some timer,
          count-begin k (async_wait n) (expires_from_now n d.io),
          count-expires_from_now k n d.io,
          ap (λ (io : Io). count k io.pending) e,
          count-cancel_timer k c.io,
        ) in
      (omega (arith, more is_read), omega (arith, more is_write))

  -- After a write: a read is started exactly if the write succeeded and the connection keeps alive,
  -- and no write is.
  pub handle_write-count :
      (e : ErrorCode) (c : HttpConnection ex)
      → (count is_read (handle_write ex e c).io.pending
          ≡ count is_read c.io.pending + flag (is_success e && c.base.keep_alive))
        × (count is_write (handle_write ex e c).io.pending ≡ count is_write c.io.pending)
  unfolding handle_write
  handle_write-count operation_aborted c = (omega arith, refl)
  handle_write-count success c = go c.base.keep_alive
    where
      kept : HttpConnection ex
      kept = record {
        base = record c.base {
          reply = ReplyOps.reset ex.avro c.base.reply;
          request = RequestOps.reset ex c.base.request;
        };
        io = cancel_timer c.io;
      }

      go :
          (b : Bool)
          → Starts c (if not b then record c { io = cancel_timer c.io } else read_on ex 5 kept) b
      go true = read_on-Starts c kept 5 refl
      go false = cancel_timer-Starts c
  handle_write-count failure c = go c.base.keep_alive
    where
      go : (b : Bool) → Starts c (if not b then record c { io = cancel_timer c.io } else c) false
      go true = (omega arith, refl)
      go false = cancel_timer-Starts c
