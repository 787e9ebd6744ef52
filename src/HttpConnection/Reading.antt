-- ===== src/HttpConnection/Reading.antt =====
-- `handle_read` of csi_http/server/http_connection.cpp leaves the connection sound.
use csi_http.Base.{
  ◌>>=◌, if◌then◌else◌, length, ◌==◌, inl, inr, Option, ap, sym, ◌∙◌, subst, arith, refl, ◌≤◌, ◌+◌,
  ◌≡◌, true, false, some, ℕ, Bool, Bytes, >>=-eq-some, some-inj, Bool-cases,
}
use csi_http.Externals.{Externals}
use csi_http.Status.{bad_request}
use csi_http.Reply.{create, text_html}
use csi_http.Connection.{http_parse}
use csi_http.Connection.Waiting.{http_parse-waiting}
use csi_http.Asio.{
  World, begin, cancel_timer, expires_from_now, request_begin, async_wait, ErrorCode, success,
  failure, operation_aborted,
}
use csi_http.Asio.Counts.{
  Kind, count, flag, is_read, is_write, is_post, count-begin, count-expires_from_now,
}
use csi_http.HttpConnection.{
  HttpConnection, with_reply, handle_read, after_read, after_request, log_begin, send_reply,
  read_on,
}
use csi_http.HttpConnection.Sending.{IsLogged, log_begin-IsLogged, send_reply-IsSent}
use csi_http.HttpConnection.Steps.{IsServer}
use csi_http.HttpConnection.Sound.{
  Logged, opened, IsSound, IsQuiet, Logged-SameRequest, quiet-IsSound, cancel_timer-IsQuiet,
  begin_read-IsSound,
}
use csi_http.HttpConnection.Handling.{Handled-IsServing}
use csi_http.HttpConnection.Ending.{sent-IsSound, sent-answered, sent_quiet-IsSound}

module _ (ex : Externals) where
  -- The request that was begun is the one that is logged.
  begun-Logged :
      (c d : HttpConnection ex)
      → IsQuiet ex c
      → IsLogged ex (λ id method url. request_begin id method url) c d
      → Logged ex d.base.request true d.io.log
  begun-Logged c d q l =
      Logged-SameRequest ex c.base.request d.base.request true d.io.log l.same
        (subst (Logged ex c.base.request true) (sym l.log) (opened l.id l.method l.named q.paired))

  module _ {S : Type 0} (serve : S → HttpConnection ex → Option (S × HttpConnection ex))
      (IsTable : S → Type 0) (server : IsServer ex serve IsTable) where
    abbrev Good : S × HttpConnection ex → Type 0
    Good p = IsSound ex p.1 × IsTable p.0

    after_request-IsSound :
        (w : World ex.Uuid) (s s' : S) (c c' : HttpConnection ex)
        → IsTable s
        → count is_read c.io.pending ≡ 0
        → count is_write c.io.pending ≡ 0
        → count is_post c.io.pending ≤ flag c.base.waiting_for_async_reply
        → Logged ex c.base.request true c.io.log
        → after_request ex serve w (s, c) ≡ some (s', c')
        → (IsSound ex c' × IsTable s')
    unfolding after_request begin expires_from_now cancel_timer
    after_request-IsSound w s s' c c' table no_read no_write post l h =
        go c.base.waiting_for_async_reply refl h
      where
        waiting : HttpConnection ex
        waiting = record c { io = begin (async_wait 3605) (expires_from_now 3605 c.io) }

        counts :
            (k : Kind)
            → count k waiting.io.pending ≡ count k c.io.pending + flag (k (async_wait 3605))
        counts k =
            count-begin k (async_wait 3605) (expires_from_now 3605 c.io)
            ∙ ap (λ (n : ℕ). n + flag (k (async_wait 3605))) (count-expires_from_now k 3605 c.io)

        go :
            (b : Bool)
            → c.base.waiting_for_async_reply ≡ b
            → if◌then◌else◌ {A = Option (S × HttpConnection ex)} b
                (some (s, waiting))
                (send_reply ex w c >>= λ d. some (s, d))
              ≡ some (s', c')
            → (IsSound ex c' × IsTable s')
        go true e g = subst Good (some-inj g) (
          record {
            one_owner =
                omega (arith, counts is_read, counts is_write, no_read, no_write, ap flag e);
            one_post = omega (arith, counts is_post, post, ap flag e);
            logged = subst (λ b. Logged ex c.base.request b c.io.log) (sym e) l;
          },
          table,
        )
        go false e g =
            let (d, sent, g') = >>=-eq-some (send_reply ex w c) _ g in
            let a = send_reply-IsSent ex w c d sent in
            subst Good (some-inj g') (
              sent-IsSound ex c d no_read no_write (omega (arith, post, ap flag e))
                  (sent-answered ex c d l a) a,
              table,
            )

    after_read-IsSound :
        (w1 w2 : World ex.Uuid) (s s' : S) (c c' : HttpConnection ex)
        → IsTable s
        → IsQuiet ex c
        → after_read ex serve w1 w2 s c ≡ some (s', c')
        → (IsSound ex c' × IsTable s')
    unfolding after_read
    after_read-IsSound w1 w2 s s' c c' table q h = go c.base.request_complete h
      where
        served :
            (d : HttpConnection ex) (r : S × HttpConnection ex)
            → log_begin ex w1 c ≡ some d
            → serve s d ≡ some r
            → after_request ex serve w2 r ≡ some (s', c')
            → (IsSound ex c' × IsTable s')
        served d r logged done g =
            let l = log_begin-IsLogged ex w1 c d logged in
            let posts : count is_post d.io.pending ≡ 0 = ap (count is_post) l.pending ∙ q.posts in
            let (handled, kept) = server s d r table done in
            let v = Handled-IsServing ex d r.1 (omega (arith, posts)) handled in
            after_request-IsSound w2 r.0 s' r.1 c' kept
              (v.reads ∙ ap (count is_read) l.pending ∙ q.reads)
              (v.writes ∙ ap (count is_write) l.pending ∙ q.writes) v.one_post
              (Logged-SameRequest ex d.base.request r.1.base.request true r.1.io.log v.same
                (subst (Logged ex d.base.request true) (sym v.log) (begun-Logged c d q l)))
              g

        go :
            (b : Bool)
            → (if b
                then (log_begin ex w1 c >>= λ d. serve s d >>= λ r. after_request ex serve w2 r)
                else some (s, read_on ex 5 c))
              ≡ some (s', c')
            → (IsSound ex c' × IsTable s')
        go true g =
            let (d, logged, g') = >>=-eq-some (log_begin ex w1 c) _ g in
            let (r, done, g'') = >>=-eq-some (serve s d) _ g' in served d r logged done g''
        go false g = subst Good (some-inj g) (begin_read-IsSound ex c 5 q, table)

    pub handle_read-IsSound :
        (w1 w2 : World ex.Uuid) (e : ErrorCode) (buffer : Bytes) (s s' : S)
        (c c' : HttpConnection ex)
        → IsTable s
        → IsQuiet ex c
        → handle_read ex serve w1 w2 e buffer s c ≡ some (s', c')
        → (IsSound ex c' × IsTable s')
    unfolding handle_read
    handle_read-IsSound w1 w2 operation_aborted buffer s s' c c' table q h =
        subst Good (some-inj h) (quiet-IsSound ex c q, table)
    handle_read-IsSound w1 w2 failure buffer s s' c c' table q h =
        subst Good (some-inj h) (quiet-IsSound ex _ (cancel_timer-IsQuiet ex c q), table)
    handle_read-IsSound w1 w2 success buffer s s' c c' table q h =
        let (parsed, run, g) = >>=-eq-some (http_parse ex buffer c.base) _ h in
        let d : HttpConnection ex = record c { base = parsed.0; io = cancel_timer c.io } in
        let k = cancel_timer-IsQuiet ex c q in
        let quiet : IsQuiet ex d = record {
          reads = k.reads;
          writes = k.writes;
          posts = k.posts;
          waiting = http_parse-waiting ex buffer c.base parsed run ∙ q.waiting;
          paired = k.paired;
        } in
        elim (Bool-cases (parsed.1 == length buffer)) [
          | inl good ↦ after_read-IsSound w1 w2 s s' d c' table quiet (rw good at g)
          | inr bad ↦
              let (reply, made, g') =
                >>=-eq-some (create ex.avro bad_request text_html 0 d.base.reply) _ (rw bad at g) in
              let b : HttpConnection ex = with_reply ex reply d in
              let (sent, wrote, g'') = >>=-eq-some (send_reply ex w2 b) _ g' in
              let bq : IsQuiet ex b = record {
                reads = quiet.reads;
                writes = quiet.writes;
                posts = quiet.posts;
                waiting = quiet.waiting;
                paired = quiet.paired;
              } in
              subst Good (some-inj g'')
                (sent_quiet-IsSound ex b sent bq (send_reply-IsSent ex w2 b sent wrote), table)
        ]
