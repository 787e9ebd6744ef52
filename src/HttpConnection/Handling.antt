-- ===== src/HttpConnection/Handling.antt =====
-- What request handlers leave as it was, within the interface of csi_http/server/http_connection.h.
use csi_http.Base.{ap, sym, ◌∙◌, subst, arith, refl, ◌≤◌, ◌+◌, ◌≡◌, true, ℕ}
use csi_http.Externals.{Externals}
use csi_http.Request.{Request, default_id_header}
use csi_http.Asio.{begin, cancel_timer, expires_from_now, async_wait, post_reply_done}
use csi_http.Asio.Counts.{
  flag_le, flag_one, Kind, count, flag, is_read, is_write, is_post, count-begin,
  count-expires_from_now,
}
use csi_http.HttpConnection.{
  default_id_header, HttpConnection, wait_for_async_reply, notify_async_reply_done,
}
use csi_http.HttpConnection.Sending.{SameRequest, request_id-SameRequest, request_uuid-SameRequest}
use csi_http.HttpConnection.Steps.{returns, replies, asks_id, asks_uuid, waits, notifies, Handled}
use csi_http.HttpConnection.Sound.{Logged, IsSound, Logged-SameRequest}

module _ (ex : Externals) where
  -- What a request handler leaves as it was.
  pub record IsServing (c d : HttpConnection ex) : Type 0 where
    pub reads : count is_read d.io.pending ≡ count is_read c.io.pending
    pub writes : count is_write d.io.pending ≡ count is_write c.io.pending
    pub one_post : count is_post d.io.pending ≤ flag d.base.waiting_for_async_reply
    pub waiting : flag c.base.waiting_for_async_reply ≤ flag d.base.waiting_for_async_reply
    pub same : SameRequest ex c.base.request d.base.request
    pub log : d.io.log ≡ c.io.log

  SameRequest-trans :
      (r q p : Request ex) → SameRequest ex r q → SameRequest ex q p → SameRequest ex r p
  SameRequest-trans r q p a b = record { method = b.method ∙ a.method; url = b.url ∙ a.url }

  pub Handled-IsServing :
      (c d : HttpConnection ex)
      → count is_post c.io.pending ≤ flag c.base.waiting_for_async_reply
      → Handled ex c d
      → IsServing c d
  unfolding wait_for_async_reply notify_async_reply_done expires_from_now cancel_timer begin
  Handled-IsServing c _ posts returns = record {
    reads = refl;
    writes = refl;
    one_post = posts;
    waiting = omega arith;
    same = record { method = refl; url = refl };
    log = refl;
  }
  Handled-IsServing c _ posts (replies r h) =
      let s = Handled-IsServing c _ posts h in
      record {
        reads = s.reads;
        writes = s.writes;
        one_post = s.one_post;
        waiting = s.waiting;
        same = record { method = s.same.method; url = s.same.url };
        log = s.log;
      }
  Handled-IsServing c _ posts (asks_id {d} i u h) =
      let s = Handled-IsServing c d posts h in
      record {
        reads = s.reads;
        writes = s.writes;
        one_post = s.one_post;
        waiting = s.waiting;
        same = SameRequest-trans _ _ _ s.same (request_id-SameRequest ex i u d.base.request);
        log = s.log;
      }
  Handled-IsServing c _ posts (asks_uuid {d} i u h) =
      let s = Handled-IsServing c d posts h in
      record {
        reads = s.reads;
        writes = s.writes;
        one_post = s.one_post;
        waiting = s.waiting;
        same = SameRequest-trans _ _ _ s.same (request_uuid-SameRequest ex i u d.base.request);
        log = s.log;
      }
  Handled-IsServing c _ posts (waits {d} h) =
      let s = Handled-IsServing c d posts h in
      let counts : (k : Kind)
          → count k (begin (async_wait 5) (expires_from_now 5 d.io)).pending
            ≡ count k d.io.pending + flag (k (async_wait 5)) =
        λ k.
          count-begin k (async_wait 5) (expires_from_now 5 d.io)
          ∙ ap (λ (n : ℕ). n + flag (k (async_wait 5))) (count-expires_from_now k 5 d.io) in
      record {
        reads = omega (arith, counts is_read, s.reads);
        writes = omega (arith, counts is_write, s.writes);
        one_post =
            omega (arith, counts is_post, s.one_post, flag_le d.base.waiting_for_async_reply);
        waiting = flag_le c.base.waiting_for_async_reply;
        same = record { method = s.same.method; url = s.same.url };
        log = s.log;
      }
  Handled-IsServing c _ posts (notifies {d} w is_waiting none_posted h) =
      let s = Handled-IsServing c d posts h in
      let counts : (k : Kind)
          → count k (begin post_reply_done d.io).pending
            ≡ count k d.io.pending + flag (k post_reply_done) =
        λ k. count-begin k post_reply_done d.io in
      record {
        reads = omega (arith, counts is_read, s.reads);
        writes = omega (arith, counts is_write, s.writes);
        one_post = omega (arith, counts is_post, none_posted, ap flag is_waiting);
        waiting = s.waiting;
        same =
            SameRequest-trans _ _ _ s.same
              (request_id-SameRequest ex default_id_header w.random d.base.request);
        log = s.log;
      }

  pub Handled-IsSound :
      (c d : HttpConnection ex)
      → c.base.waiting_for_async_reply ≡ true
      → Handled ex c d
      → IsSound ex c
      → IsSound ex d
  Handled-IsSound c d waiting h a =
      let v = Handled-IsServing c d a.one_post h in
      let still =
        flag_one d.base.waiting_for_async_reply (omega (arith, v.waiting, ap flag waiting)) in
      record {
        one_owner = omega (arith, v.reads, v.writes, a.one_owner, ap flag waiting, ap flag still);
        one_post = v.one_post;
        logged =
            Logged-SameRequest ex c.base.request d.base.request d.base.waiting_for_async_reply
              d.io.log v.same
              (subst (λ b. Logged ex c.base.request b d.io.log) (waiting ∙ sym still)
                (subst (Logged ex c.base.request c.base.waiting_for_async_reply) (sym v.log)
                  a.logged));
      }
