-- ===== src/HttpConnection/Invariant.antt =====
-- What holds of a connection of csi_http/server/http_connection.cpp however its operations complete.
use csi_http.Base.{not, if_both, Option, ap, sym, subst, arith, refl, ◌+◌, ◌≡◌, true, some, ℕ}
use csi_http.Externals.{Externals}
use csi_http.Asio.{
  Operation, Io, World, begin, cancel_timer, cancel_socket, async_read_some, async_write,
  async_wait, post_reply_done, Completes, ErrorCode, success, failure, operation_aborted,
}
use csi_http.Asio.Counts.{
  flag_le, flag_zero, flag_one, Kind, count, flag, is_read, is_write, is_post, count-cancel_timer,
  count-cancel_socket, count-Completes,
}
use csi_http.HttpConnection.{
  HttpConnection, new_http_connection, start, handle_write, handle_timer, handle_async_reply_done,
}
use csi_http.HttpConnection.Sending.{send_reply-IsSent}
use csi_http.HttpConnection.Steps.{
  starts, steps, elsewhere, read_done, write_done, timer_done, reply_done, ready, IsServer, Step,
  Reachable,
}
use csi_http.HttpConnection.Sound.{
  nothing, Logged, closed, IsSound, IsQuiet, Logged-Paired, quiet-IsSound, cancel_timer-IsQuiet,
  begin_read-IsSound,
}
use csi_http.HttpConnection.Handling.{Handled-IsSound}
use csi_http.HttpConnection.Ending.{sent-IsSound, sent-answered}
use csi_http.HttpConnection.Reading.{handle_read-IsSound}

module _ (ex : Externals) where
  handle_write-IsSound :
      (e : ErrorCode) (c : HttpConnection ex) → IsQuiet ex c → IsSound ex (handle_write ex e c)
  unfolding handle_write
  handle_write-IsSound operation_aborted c q = quiet-IsSound ex c q
  handle_write-IsSound success c q =
      let quiet = cancel_timer-IsQuiet ex c q in
      if_both (IsSound ex) (not c.base.keep_alive) (quiet-IsSound ex _ quiet) (
        begin_read-IsSound ex _ 5 (record {
          reads = quiet.reads;
          writes = quiet.writes;
          posts = quiet.posts;
          waiting = quiet.waiting;
          paired = quiet.paired;
        }))
  handle_write-IsSound failure c q =
      if_both (IsSound ex) (not c.base.keep_alive)
        (quiet-IsSound ex _ (cancel_timer-IsQuiet ex c q)) (quiet-IsSound ex c q)

  timed-IsSound :
      (c : HttpConnection ex) (e : ErrorCode) (n : ℕ) (io : Io)
      → Completes c.io (async_wait n) e io
      → IsSound ex c
      → IsSound ex (record c { io = io })
  timed-IsSound c e n io done a =
      let r = count-Completes is_read c.io io (async_wait n) e done in
      let w = count-Completes is_write c.io io (async_wait n) e done in
      let p = count-Completes is_post c.io io (async_wait n) e done in
      record {
        one_owner = omega (arith, r, w, a.one_owner);
        one_post = omega (arith, p, a.one_post);
        logged =
            subst (Logged ex c.base.request c.base.waiting_for_async_reply)
              (sym (ap (λ (i : Io). i.log) done.left)) a.logged;
      }

  handle_timer-IsSound :
      (e : ErrorCode) (c : HttpConnection ex) → IsSound ex c → IsSound ex (handle_timer ex e c)
  unfolding handle_timer cancel_socket
  handle_timer-IsSound operation_aborted c a = a
  handle_timer-IsSound failure c a = a
  handle_timer-IsSound success c a = record {
    one_owner =
        omega
          (arith, count-cancel_socket is_read c.io, count-cancel_socket is_write c.io, a.one_owner);
    one_post = omega (arith, count-cancel_socket is_post c.io, a.one_post);
    logged = a.logged;
  }

  handle_async_reply_done-IsSound :
      (w : World ex.Uuid) (c c' : HttpConnection ex) (io : Io)
      → Completes c.io post_reply_done success io
      → IsSound ex c
      → handle_async_reply_done ex w (record c { io = io }) ≡ some c'
      → IsSound ex c'
  unfolding handle_async_reply_done cancel_timer
  handle_async_reply_done-IsSound w c c' io done a run =
      let r = count-Completes is_read c.io io post_reply_done success done in
      let v = count-Completes is_write c.io io post_reply_done success done in
      let p = count-Completes is_post c.io io post_reply_done success done in
      let k = λ (k : Kind). count-cancel_timer k io in
      let d : HttpConnection ex = record c { io = cancel_timer io } in
      let s = send_reply-IsSent ex w d c' run in
      let waiting = flag_one c.base.waiting_for_async_reply (omega (arith, p, a.one_post)) in
      let one = flag_le c.base.waiting_for_async_reply in
      let l : Logged ex c.base.request true io.log =
        subst (λ b. Logged ex c.base.request b io.log) waiting
          (subst (Logged ex c.base.request c.base.waiting_for_async_reply)
            (sym (ap (λ (i : Io). i.log) done.left)) a.logged) in
      sent-IsSound ex d c' (omega (arith, k is_read, r, a.one_owner, p, a.one_post))
        (omega (arith, k is_write, v, a.one_owner, p, a.one_post))
        (omega (arith, k is_post, p, a.one_post, one)) (sent-answered ex d c' l s) s

  module _ {S : Type 0} (serve : S → HttpConnection ex → Option (S × HttpConnection ex))
      (IsTable : S → Type 0) (server : IsServer ex serve IsTable) where
    completed-IsQuiet :
        (c : HttpConnection ex) (o : Operation) (e : ErrorCode) (io : Io)
        → flag (is_read o) + flag (is_write o) ≡ 1
        → Completes c.io o e io
        → IsSound ex c
        → IsQuiet ex (record c { io = io })
    completed-IsQuiet c o e io transfer done s =
        let r = count-Completes is_read c.io io o e done in
        let w = count-Completes is_write c.io io o e done in
        let p = count-Completes is_post c.io io o e done in
        let idle : flag c.base.waiting_for_async_reply ≡ 0 = omega (arith, r, w, s.one_owner) in
        record {
          reads = omega (arith, r, w, s.one_owner);
          writes = omega (arith, r, w, s.one_owner);
          posts = omega (arith, p, s.one_post, idle);
          waiting = flag_zero c.base.waiting_for_async_reply idle;
          paired =
              Logged-Paired ex c.base.request c.base.waiting_for_async_reply io.log
                (flag_zero _ idle)
                (subst (Logged ex c.base.request c.base.waiting_for_async_reply)
                  (sym (ap (λ (i : Io). i.log) done.left)) s.logged);
        }

    Step-IsSound :
        (s s' : S) (c c' : HttpConnection ex)
        → IsSound ex c
        → IsTable s
        → Step ex serve IsTable s c s' c'
        → IsSound ex c' × IsTable s'
    Step-IsSound s _ c _ a t (read_done w1 w2 e buffer io s' c' done run) =
        handle_read-IsSound ex serve IsTable server w1 w2 e buffer s s' (record c { io = io }) c' t
          (completed-IsQuiet c async_read_some e io refl done a) run
    Step-IsSound s _ c _ a t (write_done e buffers io done) = (
      handle_write-IsSound e (record c { io = io })
          (completed-IsQuiet c (async_write buffers) e io refl done a),
      t,
    )
    Step-IsSound s _ c _ a t (timer_done e seconds io done) =
        (handle_timer-IsSound e (record c { io = io }) (timed-IsSound c e seconds io done a), t)
    Step-IsSound s _ c _ a t (reply_done w io c' done run) =
        (handle_async_reply_done-IsSound w c c' io done a run, t)
    Step-IsSound s _ c _ a t (ready d waiting h) = (Handled-IsSound ex c d waiting h a, t)
    Step-IsSound s _ c _ a t (elsewhere s' t') = (a, t')

    Reachable-both :
        (s : S) (c : HttpConnection ex) → Reachable ex serve IsTable s c → IsSound ex c × IsTable s
    unfolding start begin new_http_connection count
    Reachable-both s _ (starts _ h g t) =
        (record { one_owner = omega arith; one_post = omega arith; logged = closed nothing }, t)
    Reachable-both s' c' (steps {s} {c} r t) =
        let (a, b) = Reachable-both s c r in Step-IsSound s s' c c' a b t

    -- However the operations of a connection complete, in whatever order, with whatever errors and
    -- bytes, and whatever its request handlers do within their interface: it never has two of a read, a
    -- write and the wait for a reply going on, and a reply is never announced twice. In its log every
    -- request that was begun is ended by the next line, with the same method and path, and only a
    -- connection that waits for a reply has an open one, the last.
    pub Reachable-IsSound :
        (s : S) (c : HttpConnection ex) → Reachable ex serve IsTable s c → IsSound ex c
    Reachable-IsSound s c r = (Reachable-both s c r).0
