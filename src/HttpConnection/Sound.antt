-- ===== src/HttpConnection/Sound.antt =====
-- What the log of a connection of csi_http/server/http_connection.cpp can look like, and what it means
-- for a connection to be sound.
use csi_http.Base.{
  ap, sym, ◌∙◌, subst, arith, ◌≤◌, ◌+◌, ◌≡◌, List, true, false, some, [], ◌∷◌, ℕ, Bool, Bytes,
}
use csi_http.Externals.{Externals}
use csi_http.Status.{StatusType, method_name}
use csi_http.Request.{Request}
use csi_http.Asio.{
  Io, Entry, begin, cancel_timer, expires_from_now, request_begin, request_end, async_read_some,
  async_wait,
}
use csi_http.Asio.Counts.{
  Kind, count, flag, is_read, is_write, is_post, count-begin, count-cancel_timer,
  count-expires_from_now,
}
use csi_http.HttpConnection.{MethodT, HttpConnection, read_on}
use csi_http.HttpConnection.Sending.{SameRequest}

-- The newest line first: every request that was begun is ended by the next line, which names the same
-- method and path. An end with no begin is that of bytes that are no request.
pub data Paired : List Entry → Type 0 where
  nothing : Paired []
  refused :
      {log : List Entry} (id method url : Bytes) (s : StatusType)
      → Paired log
      → Paired (request_end id method url s ∷ log)
  answered :
      {log : List Entry} (id id' method url : Bytes) (s : StatusType)
      → Paired log
      → Paired (request_end id' method url s ∷ request_begin id method url ∷ log)

module _ (ex : Externals) where
  -- The log is paired, but for a request that waits for its reply.
  pub data Logged (r : Request ex) : Bool → List Entry → Type 0 where
    closed : {log : List Entry} → Paired log → Logged r false log
    opened :
        {log : List Entry} (id method : Bytes)
        → method_name r.method ≡ some method
        → Paired log
        → Logged r true (request_begin id method r.url ∷ log)

  -- At most one of these goes on: a read, a write, the wait for a reply. A reply is announced only
  -- while it is waited for, and once.
  pub record IsSound (c : HttpConnection ex) : Type 0 where
    pub one_owner :
        count is_read c.io.pending
          + (count is_write c.io.pending + flag c.base.waiting_for_async_reply)
        ≤ 1
    pub one_post : count is_post c.io.pending ≤ flag c.base.waiting_for_async_reply
    pub logged : Logged c.base.request c.base.waiting_for_async_reply c.io.log

  -- A connection whose operation has just completed.
  pub record IsQuiet (c : HttpConnection ex) : Type 0 where
    pub reads : count is_read c.io.pending ≡ 0
    pub writes : count is_write c.io.pending ≡ 0
    pub posts : count is_post c.io.pending ≡ 0
    pub waiting : c.base.waiting_for_async_reply ≡ false
    pub paired : Paired c.io.log

  pub Logged-SameRequest :
      (r r' : Request ex) (b : Bool) (log : List Entry)
      → SameRequest ex r r'
      → Logged r b log
      → Logged r' b log
  Logged-SameRequest r r' false log s (closed p) = closed p
  Logged-SameRequest r r' true log s (opened {log = older} id method named p) =
      subst (λ u. Logged r' true (request_begin id method u ∷ older)) s.url
        (opened id method (ap (λ (m : MethodT). method_name m) s.method ∙ named) p)

  pub Logged-Paired :
      (r : Request ex) (b : Bool) (log : List Entry) → b ≡ false → Logged r b log → Paired log
  Logged-Paired r false log e (closed p) = p
  Logged-Paired r true log e l = cc

  pub quiet-IsSound : (c : HttpConnection ex) → IsQuiet c → IsSound c
  quiet-IsSound c q = record {
    one_owner = omega (arith, q.reads, q.writes, ap flag q.waiting);
    one_post = omega (arith, q.posts);
    logged = subst (λ b. Logged c.base.request b c.io.log) (sym q.waiting) (closed q.paired);
  }

  pub cancel_timer-IsQuiet :
      (c : HttpConnection ex) → IsQuiet c → IsQuiet (record c { io = cancel_timer c.io })
  unfolding cancel_timer
  cancel_timer-IsQuiet c q = record {
    reads = count-cancel_timer is_read c.io ∙ q.reads;
    writes = count-cancel_timer is_write c.io ∙ q.writes;
    posts = count-cancel_timer is_post c.io ∙ q.posts;
    waiting = q.waiting;
    paired = q.paired;
  }

  pub begin_read-IsSound : (c : HttpConnection ex) (n : ℕ) → IsQuiet c → IsSound (read_on ex n c)
  unfolding begin expires_from_now cancel_timer
  begin_read-IsSound c n q =
      let io : Io = begin (async_wait n) (expires_from_now n c.io) in
      let counts : (k : Kind)
          → count k (begin async_read_some io).pending
            ≡ count k c.io.pending + flag (k (async_wait n)) + flag (k async_read_some) =
        λ k.
          count-begin k async_read_some io
          ∙ ap (λ (m : ℕ). m + flag (k async_read_some))
              (count-begin k (async_wait n) (expires_from_now n c.io)
                ∙ ap (λ (m : ℕ). m + flag (k (async_wait n))) (count-expires_from_now k n c.io)) in
      record {
        one_owner =
            omega (arith, counts is_read, counts is_write, q.reads, q.writes, ap flag q.waiting);
        one_post = omega (arith, counts is_post, q.posts);
        logged = subst (λ b. Logged c.base.request b c.io.log) (sym q.waiting) (closed q.paired);
      }
