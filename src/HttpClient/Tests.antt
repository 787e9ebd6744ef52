-- ===== src/HttpClient/Tests.antt =====
-- Runs of the client of csi_http/client on concrete requests.
use csi_http.Base.{
  map, if◌then◌else◌, ◌≢◌, ◌++◌, All, flatten, ltb, none, ◌≤◌, ◌+◌, arith, ◌≡◌, List, Bytes, ℕ,
  codes, true, false, some, refl, inr, [], ◌∷◌, length,
}
use csi_http.Avro.Model.{list_avro, list_avro-IsAvroMemory}
use csi_http.Asio.{success}
use csi_http.Asio.Counts.{flag}
use csi_http.Status.{post, of_code, head}
use csi_http.HttpClient.CallContext.{
  CallContext, rx_content_length, create_http_request, write_tx_content, prepare, new_call_context,
  curl_start, curl_stop, easy_options, method_options,
}
use csi_http.HttpClient.Streams.{
  read_callback_avro_stream, write_callback_avro_stream, parse_headers, read_loop,
}
use csi_http.HttpClient.Uploads.{upload_all, announced, prepare-upload}
use csi_http.HttpClient.Sockets.{
  call_poll_remove, socket_cb, Wait, rx, tx, post_task, async_some, waits_of, other_waits,
  cancel_close, opensocket_cb, closesocket_cb,
}
use csi_http.HttpClient.Callbacks.{
  Client, World, Result, done, fault, assertion, null_context, Event, add_handle, called_back,
  socket_action, select_in, select_out, Callbacks, returns, on_socket, on_opensocket,
  on_closesocket, on_read, on_write, on_header, poll_in, poll_out, poll_remove, perform_async,
  perform_all, start_wait, finish, complete, poll, sock_cb, at_socket, poll_null, make_callbacks,
}
use csi_http.HttpClient.Counts.{count, is_added, is_called_back}
use csi_http.HttpClient.Run.{
  http_client, socket_rx_cb, socket_tx_cb, poll_remove_posted, perform_posted, delete_posted,
  run_task, run_one, Reachable, starts, steps, runs, socket_ready, performs,
}
use csi_http.HttpClient.Runs.{
  Reachable-IsSafe, Reachable-count, Reachable-mapped, socket_rx_cb-Reachable,
}
use csi_http.HttpClient.Downloads.{delivers, make_callbacks-delivers}
use csi_http.HttpClient.Completion.{called_perform, sock_cb-poll_remove, performed}

-- A POST of two bytes.
abbrev posting : CallContext list_avro
unfolding write_tx_content new_call_context
posting =
    write_tx_content list_avro (codes "hi")
      (create_http_request list_avro post (codes "/say") [] 1000 false)

prepare-upload_example :
    (c' : CallContext list_avro) × (content : Bytes) × (prepare list_avro false posting ≡ some c')
    × (upload_all list_avro (1 ∷ 16 ∷ 16 ∷ []) c' ≡ some content)
    × (content ≡ codes "hi")
    × (announced c'.curl_easy ≡ some (length content))
unfolding write_tx_content new_call_context
prepare-upload_example =
    prepare-upload list_avro list_avro-IsAvroMemory false posting (1 ∷ 16 ∷ 16 ∷ []) (inr refl)
      (omega arith, omega arith, (omega arith, omega arith, (omega arith, omega arith, tt)))
      (omega arith)

-- libcurl opens the socket 7, writes when it can, reads the reply when there is one, and closes.
abbrev replies : List Event → Callbacks
replies (add_handle h ∷ log) = on_opensocket true (some 7) (on_socket h 7 poll_out returns)
replies (socket_action fd select_out ∷ log) = on_read 0 16 (on_socket 0 7 poll_in returns)
replies (socket_action fd select_in ∷ log) =
    on_header 0 (codes "X: y")
      (on_write 0 (codes "ok") (on_socket 0 7 (poll_remove (some 200)) (on_closesocket 7 returns)))
replies _ = returns

abbrev server : World list_avro
server = record { curl = λ c. replies c.log; callback = λ c h. []; ndebug = false }

abbrev all_posting : ℕ → CallContext list_avro
all_posting h = posting

abbrev writes : Wait
writes = record { direction = tx; tcp_socket = 0; context = some 0 }

abbrev reads : Wait
reads = record { direction = rx; tcp_socket = 0; context = some 0 }

abbrev first : Client list_avro
first = http_client list_avro all_posting

-- The client after a run that does not fail.
abbrev then_is : Result (Client list_avro) → Client list_avro
then_is (done c) = c
then_is (fault f) = first

abbrev ready : Wait → Client list_avro → Client list_avro
unfolding post_task
ready w c = record c { sockets = post_task (socket_cb success w) (record c.sockets { waits = [] }) }

abbrev posted : Client list_avro
unfolding perform_async post_task http_client new_call_context
posted = perform_async list_avro 0 true first

-- To the first wait, to the second, and to the end.
abbrev asked : Client list_avro
unfolding run_one run_task perform_posted poll_remove_posted delete_posted socket_rx_cb socket_tx_cb
    prepare easy_options method_options curl_start curl_stop make_callbacks sock_cb at_socket poll
    complete finish perform_all start_wait async_some opensocket_cb closesocket_cb cancel_close
    waits_of other_waits http_client perform_async post_task read_callback_avro_stream read_loop
    write_callback_avro_stream parse_headers of_code new_call_context write_tx_content
asked = then_is (run_one list_avro server posted)

abbrev written : Client list_avro
unfolding run_one run_task perform_posted poll_remove_posted delete_posted socket_rx_cb socket_tx_cb
    prepare easy_options method_options curl_start curl_stop make_callbacks sock_cb at_socket poll
    complete finish perform_all start_wait async_some opensocket_cb closesocket_cb cancel_close
    waits_of other_waits http_client perform_async post_task read_callback_avro_stream read_loop
    write_callback_avro_stream parse_headers of_code new_call_context write_tx_content
written = then_is (run_one list_avro server (ready writes asked))

abbrev answered : Client list_avro
unfolding run_one run_task perform_posted poll_remove_posted delete_posted socket_rx_cb socket_tx_cb
    prepare easy_options method_options curl_start curl_stop make_callbacks sock_cb at_socket poll
    complete finish perform_all start_wait async_some opensocket_cb closesocket_cb cancel_close
    waits_of other_waits http_client perform_async post_task read_callback_avro_stream read_loop
    write_callback_avro_stream parse_headers of_code new_call_context write_tx_content
answered = then_is (run_one list_avro server (ready reads written))

run_asked : Reachable list_avro server first (done asked)
unfolding run_one run_task perform_posted poll_remove_posted delete_posted socket_rx_cb socket_tx_cb
    prepare easy_options method_options curl_start curl_stop make_callbacks sock_cb at_socket poll
    complete finish perform_all start_wait async_some opensocket_cb closesocket_cb cancel_close
    waits_of other_waits http_client perform_async post_task read_callback_avro_stream read_loop
    write_callback_avro_stream parse_headers of_code new_call_context write_tx_content
run_asked = steps {d = posted} (steps {d = first} starts (performs 0 true)) runs

run_written : Reachable list_avro server first (done written)
unfolding run_one run_task perform_posted poll_remove_posted delete_posted socket_rx_cb socket_tx_cb
    prepare easy_options method_options curl_start curl_stop make_callbacks sock_cb at_socket poll
    complete finish perform_all start_wait async_some opensocket_cb closesocket_cb cancel_close
    waits_of other_waits http_client perform_async post_task read_callback_avro_stream read_loop
    write_callback_avro_stream parse_headers of_code new_call_context write_tx_content
run_written =
    steps {d = ready writes asked}
      (steps {d = asked} run_asked (socket_ready [] [] writes success refl)) runs

run_answered : Reachable list_avro server first (done answered)
unfolding run_one run_task perform_posted poll_remove_posted delete_posted socket_rx_cb socket_tx_cb
    prepare easy_options method_options curl_start curl_stop make_callbacks sock_cb at_socket poll
    complete finish perform_all start_wait async_some opensocket_cb closesocket_cb cancel_close
    waits_of other_waits http_client perform_async post_task read_callback_avro_stream read_loop
    write_callback_avro_stream parse_headers of_code new_call_context write_tx_content
run_answered =
    steps {d = ready reads written}
      (steps {d = written} run_written (socket_ready [] [] reads success refl)) runs

all_posting-IsFresh : (h : ℕ) → (all_posting h).curl_private ≡ false
unfolding posting
all_posting-IsFresh h = refl

Reachable-count_example :
    count (is_called_back 0) answered.log + flag (answered.contexts 0).curl_private
    ≤ count (is_added 0) answered.log
Reachable-count_example =
    Reachable-count list_avro server all_posting answered 0 all_posting-IsFresh run_answered

Reachable-mapped_example :
    ((fd p : ℕ)
      → written.sockets.socket_map fd ≡ some p
      → (written.sockets.native_handle p ≡ some fd) × (written.sockets.deleted p ≡ false))
    × ((fd p : ℕ) → written.sockets.assigned fd ≡ some p → written.sockets.socket_map fd ≡ some p)
    × All (λ (w : Wait). written.sockets.native_handle w.tcp_socket ≢ none) written.sockets.waits
Reachable-mapped_example =
    Reachable-mapped list_avro server all_posting written all_posting-IsFresh run_written

-- A request with a method that `_perform` does not know.
abbrev unknown : ℕ → CallContext list_avro
unfolding new_call_context
unknown h = create_http_request list_avro head (codes "/") [] 1000 false

unknown-IsFresh : (h : ℕ) → (unknown h).curl_private ≡ false
unfolding unknown
unknown-IsFresh h = refl

run_unknown : Reachable list_avro server (http_client list_avro unknown) (fault assertion)
unfolding run_one run_task perform_posted poll_remove_posted delete_posted socket_rx_cb socket_tx_cb
    prepare easy_options method_options curl_start curl_stop make_callbacks sock_cb at_socket poll
    complete finish perform_all start_wait async_some opensocket_cb closesocket_cb cancel_close
    waits_of other_waits http_client perform_async post_task read_callback_avro_stream read_loop
    write_callback_avro_stream parse_headers of_code new_call_context write_tx_content unknown
run_unknown =
    steps {d = perform_async list_avro 0 true (http_client list_avro unknown)}
      (steps {d = http_client list_avro unknown} starts (performs 0 true)) runs

Reachable-IsSafe_example : assertion ≡ assertion
Reachable-IsSafe_example =
    Reachable-IsSafe list_avro server unknown assertion unknown-IsFresh run_unknown

-- With `NDEBUG` and a libcurl that names the socket for a request that it does not have.
abbrev strays : List Event → Callbacks
strays (add_handle h ∷ log) = on_opensocket true (some 7) (on_socket 1 7 poll_out returns)
strays _ = returns

abbrev release : World list_avro
release = record { curl = λ c. strays c.log; callback = λ c h. []; ndebug = true }

run_stray : Reachable list_avro release first (fault null_context)
unfolding run_one run_task perform_posted poll_remove_posted delete_posted socket_rx_cb socket_tx_cb
    prepare easy_options method_options curl_start curl_stop make_callbacks sock_cb at_socket poll
    poll_null complete finish perform_all start_wait async_some opensocket_cb closesocket_cb
    cancel_close waits_of other_waits http_client perform_async post_task read_callback_avro_stream
    read_loop write_callback_avro_stream parse_headers of_code new_call_context write_tx_content
run_stray = steps {d = posted} (steps {d = first} starts (performs 0 true)) runs

socket_rx_cb-Reachable_example :
    socket_rx_cb list_avro server success reads (perform_async list_avro 0 true answered)
    ≡ done (perform_async list_avro 0 true answered)
unfolding run_one run_task perform_posted poll_remove_posted delete_posted socket_rx_cb socket_tx_cb
    prepare easy_options method_options curl_start curl_stop make_callbacks sock_cb at_socket poll
    complete finish perform_all start_wait async_some opensocket_cb closesocket_cb cancel_close
    waits_of other_waits http_client perform_async post_task read_callback_avro_stream read_loop
    write_callback_avro_stream parse_headers of_code new_call_context write_tx_content
socket_rx_cb-Reachable_example =
    socket_rx_cb-Reachable list_avro server all_posting answered
      (perform_async list_avro 0 true answered) 0 success reads all_posting-IsFresh run_answered
      refl (steps {d = answered} starts (performs 0 true)) refl

sock_cb-poll_remove_example :
    (c' : Client list_avro) × (sock_cb list_avro server 0 7 (poll_remove (some 200)) written
      ≡ done c')
    × ((c'.contexts 0).http_result ≡ of_code 200)
    × ((c'.contexts 0).transport_ok ≡ ltb 0 200)
    × ((c'.contexts 0).curl_done ≡ true)
    × ((c'.contexts 0).curl_private ≡ false)
    × ((c'.contexts 0).curl_shared ≡ false)
    × (c'.log ≡ (if (written.contexts 0).callback then called_back 0 ∷ [] else []) ++ written.log)
    × (c'.sockets.tasks
        ≡ written.sockets.tasks
          ++ (map called_perform (performed list_avro server 0 200 written)
              ++ call_poll_remove (some 0) ∷ []))
unfolding run_one run_task perform_posted poll_remove_posted delete_posted socket_rx_cb socket_tx_cb
    prepare easy_options method_options curl_start curl_stop make_callbacks sock_cb at_socket poll
    complete finish perform_all start_wait async_some opensocket_cb closesocket_cb cancel_close
    waits_of other_waits http_client perform_async post_task read_callback_avro_stream read_loop
    write_callback_avro_stream parse_headers of_code new_call_context write_tx_content
sock_cb-poll_remove_example = sock_cb-poll_remove list_avro server 0 7 200 0 written refl refl refl

make_callbacks-delivers_example :
    (c' : Client list_avro) × (content : Bytes) × (make_callbacks list_avro server
        (delivers 0 (codes "X: y" ∷ []) (codes "o" ∷ codes "k" ∷ []))
        first
      ≡ done c')
    × ((c'.contexts 0).rx_headers ≡ (first.contexts 0).rx_headers ++ (codes "X: y" ∷ []))
    × ((c'.contexts 0).avro_rx_buffer ≡ content)
    × (content ≡ (first.contexts 0).avro_rx_buffer ++ codes "ok")
    × (rx_content_length list_avro (c'.contexts 0) ≡ length content)
unfolding flatten
make_callbacks-delivers_example =
    make_callbacks-delivers list_avro list_avro-IsAvroMemory server 0 (codes "X: y" ∷ [])
      (codes "o" ∷ codes "k" ∷ []) first (omega arith, tt) (omega arith, (omega arith, tt))
