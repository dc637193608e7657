-- ===== src/Tests/Server.antt =====
-- The server's theorems at concrete inputs.
use kim_rpc.Prelude.{
  ℕ, ◌+◌, ◌<◌, ◌≡◌, ◌≢◌, refl, true, false, List, [], ◌∷◌, ◌++◌, none, some, arith, Bytes, codes,
  length, take, drop, lookup, bytes_eq, take-append-drop, pos, dec, ◌⊎◌,
}
use kim_rpc.Wire.{RpcHeader, le_bytes, request_frame}
use kim_rpc.Conn.{ConnectionContext, ConnectionManager, blank}
use kim_rpc.Conn
use kim_rpc.Conn.Aliasing
use kim_rpc.Reactor.{Provider, ServiceInfo, Rpc, Task, ctx_at, send}
use kim_rpc.Reactor
use kim_rpc.Reactor.Request.{try_handle_request}
use kim_rpc.Reactor.Handlers.{handle_recv, handle_send, drain, deliver_response}
use kim_rpc.Reactor.Parsing.{
  IsServable, Dispatched, task_of, try_handle_request-Dispatched, try_handle_request_bounded,
  try_handle_request_partial,
}
use kim_rpc.Reactor.Draining.{Request, Drained, handle_recv-returns, drain-pipeline, frame}
use kim_rpc.Reactor.Sending.{unsent, SameOut, handle_send-advances}
use kim_rpc.Reactor.Delivery.{appended, deliver_response-appends, deliver_response_stale}
use kim_rpc.Muduo
use kim_rpc.Muduo.Stream
use kim_rpc.Tests.Codec.{text_codec, text_codec-ReadsBack, write_header}
use kim_rpc.Tests.Conn.{busy, busy-Inv, busy-HasIds, busy_found, few_ids}

abbrev pub rpc : Rpc
rpc = record { codec = text_codec; parses_request = λ method args. true }

-- Service 1 with the method 2.
abbrev pub services : List (Bytes × ServiceInfo)
services = (codes "S", record { service = 1; method_map = (codes "m", 2) ∷ [] }) ∷ []

-- One connection, of descriptor 7, with this context.
abbrev pub with_ctx : ConnectionContext → Provider
with_ctx c = record {
  conn = record {
    active = λ fd. some 0;
    conns = λ p. c;
    conn_count = 1;
    idle_pool = [];
    next_id = 2;
    closed = [];
  };
  service_map = services;
  grants = true ∷ true ∷ [];
  sqes = [];
  accept_pending = true;
  notify_pending = true;
  task_queue = [];
  ready_coros = [];
}

abbrev pub context : ConnectionContext
context = record blank { fd = 7; conn_id = 1 }

abbrev pub header : RpcHeader
header = record { service_name = codes "S"; method_name = codes "m"; args_size = 2; request_id = 5 }

abbrev pub args : Bytes
args = 8 ∷ 9 ∷ []

abbrev request : Request
request = record {
  header = header;
  header_bytes = write_header header;
  args = args;
  service = 1;
  method = 2;
}

pub served : IsServable rpc services header (write_header header) args 1 2
unfolding lookup bytes_eq
served = record {
  written = refl;
  header_fits = omega arith;
  size_of_args = refl;
  args_fit = omega arith;
  id_fits = omega arith;
  found = refl;
  parses = refl;
}

abbrev has_request : Provider
has_request = with_ctx (record context { input = frame request ++ (3 ∷ []) })

try_handle_request-Dispatched_example :
    ((try_handle_request rpc 7 0 has_request).0 ≡ true)
    × Dispatched
        (task_of 7 0 header 1 2 args has_request)
        0
        (3 ∷ [])
        has_request
        (try_handle_request rpc 7 0 has_request).1
try_handle_request-Dispatched_example =
    try_handle_request-Dispatched rpc 7 0 has_request header (write_header header) args (3 ∷ []) 1 2
      text_codec-ReadsBack served refl

-- The first three bytes of the frame.
abbrev has_part : Provider
has_part = with_ctx (record context { input = take 3 (frame request) })

more_comes : 0 < length (drop 3 (frame request))
unfolding request_frame le_bytes
more_comes = omega arith

try_handle_request_partial_example : try_handle_request rpc 7 0 has_part ≡ (false, has_part)
try_handle_request_partial_example =
    try_handle_request_partial rpc 7 0 has_part header (write_header header) args
      (drop 3 (frame request)) 1 2 text_codec-ReadsBack served (take-append-drop 3 (frame request))
      more_comes

waits_for_more : (try_handle_request rpc 7 0 (with_ctx context)).0 ≡ false
unfolding try_handle_request
waits_for_more = refl

try_handle_request_bounded_example :
    ((try_handle_request rpc 7 0 (with_ctx context)).1 ≡ with_ctx context)
    × (length {A = ℕ} [] < 4 + Reactor.k_max_header_size + Reactor.k_max_body_size)
try_handle_request_bounded_example =
    try_handle_request_bounded rpc 7 0 (with_ctx context) waits_for_more

handle_recv-returns_example : (s' : Provider) × (handle_recv rpc 0 (pos 3) has_request ≡ some s')
handle_recv-returns_example = handle_recv-returns rpc 0 (pos 3) has_request

abbrev has_pipeline : Provider
has_pipeline = with_ctx (record context { input = frame request ++ take 3 (frame request) })

connected : Reactor.find 7 has_pipeline ≡ some 0
unfolding Conn.find
connected = refl

drain-pipeline_example :
    (s' : Provider) × (drain rpc 2 7 0 has_pipeline ≡ some (false, s'))
    × Drained 7 0 (request ∷ []) (take 3 (frame request)) has_pipeline s'
drain-pipeline_example =
    drain-pipeline rpc (request ∷ []) 2 7 0 0 has_pipeline request (take 3 (frame request))
      (drop 3 (frame request)) text_codec-ReadsBack (served, tt) served
      (take-append-drop 3 (frame request)) more_comes connected refl (omega arith)

-- A response of three bytes of which one was sent.
abbrev has_response : Provider
has_response = with_ctx (record context {
  out_queue = (4 ∷ 5 ∷ 6 ∷ []) ∷ [];
  written = 1;
  sending = true;
  pending_reqs = pos 1;
})

handle_send-advances_example :
    let c = ctx_at 0 has_response in
    let c' = ctx_at 0 (handle_send 0 (pos 1) has_response) in
    (unsent c' ≡ drop 1 (unsent c))
    × (((c.written + 1 < 3)
          × (c'.out_queue ≡ (4 ∷ 5 ∷ 6 ∷ []) ∷ [])
          × (c'.pending_reqs ≡ c.pending_reqs))
        ⊎ ((c.written + 1 ≡ 3) × (c'.out_queue ≡ []) × (c'.pending_reqs ≡ dec c.pending_reqs)))
handle_send-advances_example =
    handle_send-advances 0 0 has_response (4 ∷ 5 ∷ 6 ∷ []) [] refl (omega arith)

response_connected : Reactor.find 7 has_response ≡ some 0
unfolding Conn.find
response_connected = refl

-- The place of the connection.
abbrev here : ℕ
here = 0

deliver_response-appends_example :
    let s' = deliver_response 7 1 (2 ∷ []) has_response in
    SameOut (appended (2 ∷ []) (ctx_at 0 has_response)) (ctx_at 0 s')
    × (here ≢ 3 → SameOut (ctx_at 3 has_response) (ctx_at 3 s'))
deliver_response-appends_example =
    deliver_response-appends 7 0 1 3 (2 ∷ []) has_response response_connected refl

-- The connection of descriptor 7 closed, and the descriptor accepted again.
abbrev after_reuse : Provider
after_reuse = record (with_ctx context) {
  conn = Conn.Aliasing.run (Conn.Aliasing.acquires 7 ∷ []) (Conn.close 7 busy);
}

deliver_response_stale_example :
    deliver_response 7 (busy.conns 0).conn_id (2 ∷ []) after_reuse ≡ after_reuse
deliver_response_stale_example =
    deliver_response_stale 7 0 7 busy (Conn.Aliasing.acquires 7 ∷ []) (2 ∷ []) after_reuse busy-Inv
      busy-HasIds few_ids busy_found refl

-- The request above and two bytes of the next one, on the muduo server.
abbrev muduo_request : Muduo.Stream.Request
muduo_request = record { header = header; header_bytes = write_header header; args = args }

muduo_request-IsWritten : Muduo.Stream.IsWritten rpc muduo_request
muduo_request-IsWritten = record {
  written = refl;
  header_fits = omega arith;
  size_of_args = refl;
  args_fit = omega arith;
  id_fits = omega arith;
}

abbrev unknown_header : RpcHeader
unknown_header = record header { method_name = codes "x" }

-- A request of a method that does not exist.
abbrev unknown_request : Muduo.Stream.Request
unknown_request = record {
  header = unknown_header;
  header_bytes = write_header unknown_header;
  args = args;
}

unknown_request-IsWritten : Muduo.Stream.IsWritten rpc unknown_request
unknown_request-IsWritten = record {
  written = refl;
  header_fits = omega arith;
  size_of_args = refl;
  args_fit = omega arith;
  id_fits = omega arith;
}

abbrev muduo_connection : Muduo.Connection
muduo_connection = record {
  buffer = Muduo.Stream.stream (unknown_request ∷ muduo_request ∷ []) (7 ∷ 7 ∷ []);
  calls = [];
  is_shut_down = false;
  outgoing = [];
}

abbrev one_call : List Muduo.ServiceCall
one_call = record { service = 1; method = 2; request_id = header.request_id; request = args } ∷ []

AsksFor-one : Muduo.Stream.AsksFor rpc services (unknown_request ∷ muduo_request ∷ []) one_call
unfolding lookup bytes_eq
AsksFor-one =
    Muduo.Stream.unknown unknown_request (muduo_request ∷ []) one_call refl
      (Muduo.Stream.served muduo_request [] [] 1 2 refl refl Muduo.Stream.none_left)

on_message-stream_example :
    Muduo.on_message rpc services muduo_connection
    ≡ Muduo.on_message rpc services
        (record muduo_connection { buffer = 7 ∷ 7 ∷ []; calls = [] ++ one_call })
on_message-stream_example =
    Muduo.Stream.on_message-stream rpc services (unknown_request ∷ muduo_request ∷ []) one_call
      (7 ∷ 7 ∷ []) muduo_connection text_codec-ReadsBack
      (unknown_request-IsWritten, (muduo_request-IsWritten, tt)) AsksFor-one refl

on_message-returns_example : Muduo.on_message rpc services muduo_connection ≢ none
on_message-returns_example = Muduo.Stream.on_message-returns rpc services muduo_connection
