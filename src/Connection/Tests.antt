-- ===== src/Connection/Tests.antt =====
-- A request for `/a` with one header in pieces, over a scripted parser.
use csi_http.Base.{
  ◌≤◌, ◌⊎◌, ◌<◌, ◌≢◌, ◌+◌, arith, flatten, ◌++◌, none, some, ap, ◌≡◌, length, true, false, zero,
  suc, refl, [], ◌∷◌, ℕ, codes, replicate,
}
use csi_http.Externals.{Externals, IsExternals}
use csi_http.Externals.Model.{scripted, scripted-IsExternals, lower}
use csi_http.Status.{get, undefined}
use csi_http.Connection.Headers.{InField, InValue, HasArrays}
use csi_http.Connection.Pipelining.{run_callbacks_pipelined}
use csi_http.Connection.Message.{
  Message, IsAccepted, message_events, assembled, begun, run_callbacks-Message,
}
use csi_http.Connection.Buffer.{Holds, max_header_size}
use csi_http.Connection.Faults.{on_header_field_bounds, on_header_value_bounds}
use csi_http.Connection.{
  on_header_value, on_header_field, max_header_size, Connection, new_connection, run_callbacks,
  Garbage,
}

abbrev ex : Externals
ex = scripted []

abbrev law : IsExternals ex lower
law = scripted-IsExternals []

abbrev garbage : Garbage
garbage = record {
  method = get;
  status = undefined;
  last_header_was_value = true;
  key = replicate 4096 7;
  val = replicate 4096 7;
  key_len = 5;
  val_len = 9;
}

length-replicate : (n : ℕ) → length {A = ℕ} (replicate n 7) ≡ n
length-replicate zero = refl
length-replicate (suc n) = ap suc (length-replicate n)

abbrev fresh : Connection ex
unfolding new_connection
fresh = new_connection ex [] garbage

fresh-HasArrays : HasArrays ex fresh
unfolding fresh
fresh-HasArrays = record { key = length-replicate 4096; val = length-replicate 4096 }

abbrev message : Message
message = record {
  method = 1;
  url = codes "/a";
  headers =
      record {
        name_first = codes "Ho";
        name_more = codes "st" ∷ [];
        value_first = codes "A";
        value_more = codes "B" ∷ [];
      }
      ∷ [];
  content_length = 2;
  body = codes "x" ∷ codes "y" ∷ [];
  keep_alive = true;
}

abbrev closing : Message
closing = record {
  method = 3;
  url = codes "/b";
  headers = [];
  content_length = 0;
  body = [];
  keep_alive = false;
}

message-IsAccepted : IsAccepted ex message
unfolding flatten
message-IsAccepted = record {
  parsed = refl;
  path_range = omega arith;
  query_range = tt;
  headers_fit = (
    record {
      name_size = omega arith;
      value_size = omega arith;
      name_text = omega arith;
      value_text = omega arith;
    },
    tt,
  );
}

closing-IsAccepted : IsAccepted ex closing
closing-IsAccepted = record {
  parsed = refl;
  path_range = omega arith;
  query_range = tt;
  headers_fit = tt;
}

run_callbacks-Message_example :
    (c' : Connection ex) × (s : ex.avro.Stream) × (run_callbacks ex 0 (message_events message) fresh
      ≡ some (c', none))
    × (c'.request ≡ assembled ex lower law (begun ex lower law fresh) message s)
    × (ex.avro.memory_input_stream s ≡ flatten message.body)
    × (c'.request_complete ≡ true)
    × (c'.keep_alive ≡ message.keep_alive)
run_callbacks-Message_example =
    run_callbacks-Message ex lower law message fresh fresh-HasArrays message-IsAccepted

run_callbacks_pipelined_example :
    (c' : Connection ex) × (s : ex.avro.Stream) × (run_callbacks ex 0
        (message_events message ++ message_events closing)
        fresh
      ≡ some (c', none))
    × (c'.request ≡ assembled ex lower law (begun ex lower law fresh) closing s)
    × (ex.avro.memory_input_stream s ≡ flatten closing.body)
    × (c'.request_complete ≡ true)
    × (c'.keep_alive ≡ closing.keep_alive)
run_callbacks_pipelined_example =
    run_callbacks_pipelined ex lower law message closing fresh fresh-HasArrays message-IsAccepted
      closing-IsAccepted

-- A connection with the name `k` and the value `v` so far.
abbrev partial : Connection ex
unfolding fresh
partial = record fresh {
  last_header_was_value = true;
  current_header_key = b'k' ∷ 0 ∷ replicate 4094 7;
  current_header_val = b'v' ∷ 0 ∷ replicate 4094 7;
  current_header_key_len = 1;
  current_header_val_len = 1;
}

Holds-one : (b : ℕ) → b ≢ 0 → Holds (b ∷ 0 ∷ replicate 4094 7) 1 (b ∷ [])
Holds-one b live = record {
  behind = replicate 4094 7;
  cells = refl;
  len_text = refl;
  size = ap (λ (n : ℕ). n + 2) (length-replicate 4094);
  no_nul = (live, tt);
}

partial-InValue : InValue ex partial partial.request (codes "k") (codes "v")
unfolding partial
partial-InValue = record {
  request = refl;
  last = refl;
  key = Holds-one b'k' (omega arith);
  val = Holds-one b'v' (omega arith);
}

on_header_value_bounds_example :
    ((length (codes "v") + length (codes "w") < max_header_size)
      × (c' : Connection ex) × (on_header_value ex (codes "w") partial ≡ some c')
      × InValue ex c' partial.request (codes "k") (codes "v" ++ codes "w"))
    ⊎ ((max_header_size ≤ length (codes "v") + length (codes "w"))
        × (on_header_value ex (codes "w") partial ≡ none))
on_header_value_bounds_example =
    on_header_value_bounds ex lower law partial partial.request (codes "k") (codes "v") (codes "w")
      partial-InValue (omega arith)

-- The same connection before the value.
abbrev named : Connection ex
unfolding partial
named = record partial {
  last_header_was_value = false;
  current_header_val = 0 ∷ replicate 4095 7;
  current_header_val_len = 0;
}

named-InField : InField ex named named.request (codes "k")
unfolding named
named-InField = record {
  request = refl;
  last = refl;
  key = Holds-one b'k' (omega arith);
  val = record {
    behind = replicate 4095 7;
    cells = refl;
    len_text = refl;
    size = ap (λ (n : ℕ). n + 1) (length-replicate 4095);
    no_nul = tt;
  };
}

on_header_field_bounds_example :
    ((length (codes "k") + length (codes "w") < max_header_size)
      × (c' : Connection ex) × (on_header_field ex (codes "w") named ≡ some c')
      × InField ex c' named.request (codes "k" ++ codes "w"))
    ⊎ ((max_header_size ≤ length (codes "k") + length (codes "w"))
        × (on_header_field ex (codes "w") named ≡ none))
on_header_field_bounds_example =
    on_header_field_bounds ex lower law named named.request (codes "k") (codes "w") named-InField
      (omega arith)
