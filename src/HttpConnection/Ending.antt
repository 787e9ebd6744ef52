-- ===== src/HttpConnection/Ending.antt =====
-- A reply that csi_http/server/http_connection.cpp sends ends the request in the log.
use csi_http.Base.{ap, sym, ◌∙◌, subst, arith, ◌≡◌, List, true, some, ◌∷◌, some-inj}
use csi_http.Externals.{Externals}
use csi_http.Status.{method_name}
use csi_http.Request.{Request}
use csi_http.Asio.{Entry, request_begin, request_end}
use csi_http.Asio.Counts.{count, flag, is_read, is_write, is_post}
use csi_http.HttpConnection.{HttpConnection}
use csi_http.HttpConnection.Sending.{IsSent}
use csi_http.HttpConnection.Sound.{
  Paired, refused, answered, Logged, closed, opened, IsSound, IsQuiet,
}

module _ (ex : Externals) where
  pub sent-IsSound :
      (c d : HttpConnection ex)
      → count is_read c.io.pending ≡ 0
      → count is_write c.io.pending ≡ 0
      → count is_post c.io.pending ≡ 0
      → Paired d.io.log
      → IsSent ex c d
      → IsSound ex d
  sent-IsSound c d reads writes posts paired s = record {
    one_owner = omega (arith, s.counts is_read, s.counts is_write, ap flag s.waiting);
    one_post = omega (arith, s.counts is_post);
    logged = subst (λ b. Logged ex d.base.request b d.io.log) (sym s.waiting) (closed paired);
  }

  -- The end of the request that was begun last.
  pub sent-answered :
      (c d : HttpConnection ex)
      → Logged ex c.base.request true c.io.log
      → IsSent ex c d
      → Paired d.io.log
  sent-answered c d l s = subst Paired (sym s.log) (close c.base.request c.io.log l s.named)
    where
      close :
          (r : Request ex) (log : List Entry)
          → Logged ex r true log
          → method_name r.method ≡ some s.method
          → Paired (request_end s.id s.method r.url c.base.reply.status ∷ log)
      close r _ (opened {log = older} id method named p) e =
          subst
            (λ m. Paired (
              request_end s.id s.method r.url c.base.reply.status
              ∷ request_begin id m r.url
              ∷ older))
            (some-inj (sym e ∙ named)) (answered id s.id s.method r.url c.base.reply.status p)

  sent-refused : (c d : HttpConnection ex) → Paired c.io.log → IsSent ex c d → Paired d.io.log
  sent-refused c d p s =
      subst Paired (sym s.log) (refused s.id s.method c.base.request.url c.base.reply.status p)

  pub sent_quiet-IsSound : (c d : HttpConnection ex) → IsQuiet ex c → IsSent ex c d → IsSound ex d
  sent_quiet-IsSound c d q s =
      sent-IsSound c d q.reads q.writes q.posts (sent-refused c d q.paired s) s
