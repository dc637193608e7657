-- ===== src/Tests/Client.antt =====
-- The client's theorems at concrete inputs.
use kim_rpc.Prelude.{
  ℕ, ◌+◌, ◌≤◌, ◌≡◌, ◌≢◌, ◌⊎◌, refl, Bool, true, false, List, [], ◌∷◌, ◌++◌, none, some, arith,
  Bytes, codes, length, take, find_byte, stoi, skip_spaces, parse_signed, in_range, parse_unsigned,
  digits_value, pos, negsuc,
}
use kim_rpc.Wire.{HeaderCodec, le_bytes, request_frame, of_le, response_frame}
use kim_rpc.TcpClient
use kim_rpc.TcpClient.{Answer, takes, gives, UringTcpClient, Call, done}
use kim_rpc.TcpClient.Blocking.{write_all, read_exact}
use kim_rpc.TcpClient.Transfer
use kim_rpc.TcpClient.Lifecycle
use kim_rpc.Discovery
use kim_rpc.Channel
use kim_rpc.Channel.Receive
use kim_rpc.Channel.Calls
use kim_rpc.Channel.Frames
use kim_rpc.Channel.Requests
use kim_rpc.Channel.Late
use kim_rpc.Channel.Once
use kim_rpc.Channel.Once.Exactly
use kim_rpc.UringChannel
use kim_rpc.UringChannel.Response

abbrev no_text : ℕ → Bytes
no_text n = []

abbrev any_ip : Bytes → Bool
any_ip ip = true

abbrev no_ip : Bytes → Bool
no_ip ip = false

abbrev takes_answer : ℕ → Answer
takes_answer n = record { has_sqe = true; submit = pos 1; wait = pos 0; completion = takes n }

abbrev gives_answer : Bytes → Answer
gives_answer b = record { has_sqe = true; submit = pos 1; wait = pos 0; completion = gives b }

abbrev connected_client : UringTcpClient
connected_client = record { m_fd = some 5; m_ring_ready = true; closed = [] }

write_all-whole_example :
    (write_all no_text any_ip
        (takes_answer 1 ∷ takes_answer 2 ∷ takes_answer 0 ∷ [])
        (7 ∷ 8 ∷ 9 ∷ [])
        connected_client
      ≢ TcpClient.waiting)
    × ((r : Bytes)
        → write_all no_text any_ip
            (takes_answer 1 ∷ takes_answer 2 ∷ takes_answer 0 ∷ [])
            (7 ∷ 8 ∷ 9 ∷ [])
            connected_client
          ≡ done r
        → r ≡ 7 ∷ 8 ∷ 9 ∷ [])
write_all-whole_example =
    TcpClient.Transfer.write_all-whole no_text any_ip
      (takes_answer 1 ∷ takes_answer 2 ∷ takes_answer 0 ∷ []) (7 ∷ 8 ∷ 9 ∷ []) connected_client 5
      refl (omega arith)

two_reads :
    read_exact no_text any_ip
      (gives_answer (1 ∷ []) ∷ gives_answer (2 ∷ 3 ∷ []) ∷ [])
      3
      connected_client
    ≡ done (1 ∷ 2 ∷ 3 ∷ [])
unfolding read_exact TcpClient.Blocking.read_loop TcpClient.wait_uring_result
two_reads = refl

abbrev three : Bytes
three = 1 ∷ 2 ∷ 3 ∷ []

read_exact-stream_example :
    (length {A = ℕ} (1 ∷ 2 ∷ 3 ∷ []) ≡ 3)
    × (three
        ≡ take 3
            (TcpClient.Transfer.stream (gives_answer (1 ∷ []) ∷ gives_answer (2 ∷ 3 ∷ []) ∷ [])))
read_exact-stream_example =
    TcpClient.Transfer.read_exact-stream no_text any_ip
      (gives_answer (1 ∷ []) ∷ gives_answer (2 ∷ 3 ∷ []) ∷ []) 3 connected_client (1 ∷ 2 ∷ 3 ∷ [])
      two_reads

-- A client that has descriptor 5 connects with the new descriptor 6 to an address that is none.
bad_address :
    (TcpClient.Blocking.connect no_text no_ip
      (codes "x")
      (some 6)
      0
      (takes_answer 0)
      connected_client).0
    ≡ TcpClient.err (codes "invalid server ip: " ++ codes "x")
unfolding TcpClient.Blocking.connect TcpClient.Blocking.connect_socket TcpClient.close
bad_address = refl

connect-closes_example :
    (TcpClient.is_connected
        (TcpClient.Blocking.connect no_text no_ip
          (codes "x")
          (some 6)
          0
          (takes_answer 0)
          connected_client).1
      ≡ false)
    × ((TcpClient.Blocking.connect no_text no_ip
          (codes "x")
          (some 6)
          0
          (takes_answer 0)
          connected_client).1.closed
        ≡ 6 ∷ (TcpClient.close connected_client).closed)
connect-closes_example =
    TcpClient.Lifecycle.connect-closes no_text no_ip (codes "x") 6 0 (takes_answer 0)
      connected_client (codes "invalid server ip: " ++ codes "x") refl bad_address

abbrev async_start : TcpClient.Async.State
async_start = record {
  client = record { m_fd = none; m_ring_ready = true; closed = [] };
  submitted = [];
  calls = [];
}

async_bad_address :
    (TcpClient.Async.async_connect no_text no_ip (codes "x") (some 6) true (pos 1) async_start).0
    ≡ false
unfolding TcpClient.Async.async_connect TcpClient.Async.refuse
async_bad_address = refl

async_connect-leaks_example :
    let c =
      (TcpClient.Async.async_connect no_text no_ip
        (codes "x")
        (some 6)
        true
        (pos 1)
        async_start).1.client in
    ((◌≡◌ {A = Bool} false true) × (TcpClient.is_connected c ≡ false) × (c.closed ≡ 6 ∷ []))
    ⊎ ((◌≡◌ {A = Bool} false false)
        × (TcpClient.is_connected c ≡ true)
        × (c.m_fd ≡ some 6)
        × (c.closed ≡ []))
async_connect-leaks_example =
    TcpClient.Lifecycle.async_connect-leaks no_text no_ip (codes "x") 6 true (pos 1) async_start
      refl async_bad_address

abbrev no_parse : ℕ → Bytes → Bool
no_parse r b = false

abbrev small_codec : HeaderCodec
small_codec = record { serialize = λ h. some (h.request_id ∷ []); parse = λ s. none }

abbrev one_call : Channel.Calls.Call
one_call = record {
  service_name = codes "S";
  method_name = codes "m";
  args = some (1 ∷ []);
  response = 1;
  controller = none;
  done = 9;
}

-- A call that is answered while the timer expires its slot: one of the two ends it.
abbrev race : List Channel.Once.Event
race =
    Channel.Once.finishes 1
    ∷ Channel.Once.receives (record { id = 1; body = [] })
    ∷ Channel.Once.expires 9000
    ∷ Channel.Once.registers 1 0
    ∷ Channel.Once.begins one_call
    ∷ []

runs-exactly_example :
    (Channel.Once.Counts.runs 9 (Channel.Once.run no_parse small_codec race).channel.log
      ≤ Channel.Once.Tables.occurs 9 (Channel.Once.run no_parse small_codec race).calls)
    × (Channel.Once.Tables.under_way 9 (Channel.Once.run no_parse small_codec race) ≡ 0
        → Channel.Once.Counts.runs 9 (Channel.Once.run no_parse small_codec race).channel.log
          ≡ Channel.Once.Tables.occurs 9 (Channel.Once.run no_parse small_codec race).calls)
runs-exactly_example = Channel.Once.Exactly.runs-exactly no_parse small_codec race 9 (omega arith)

abbrev running_channel : Channel.KimRpcChannel
running_channel = record Channel.new_channel {
  m_running = true;
  m_pending = (3, Channel.Calls.slot one_call none) ∷ [];
}

abbrev one_frame : List Channel.Receive.Frame
one_frame = record { id = 3; body = 4 ∷ [] } ∷ []

-- The kernel cuts the frame of 13 bytes into three pieces, and would give a byte at a time after them.
abbrev cut_socket : Channel.Receive.Socket
cut_socket = record {
  stream = Channel.Frames.responses one_frame;
  sizes = 3 ∷ 5 ∷ 5 ∷ 1 ∷ 1 ∷ 1 ∷ 1 ∷ 1 ∷ 1 ∷ 1 ∷ 1 ∷ 1 ∷ 1 ∷ [];
}

cut_socket-Enough : Channel.Frames.Enough cut_socket
unfolding response_frame le_bytes
cut_socket-Enough = ground arith

recv_loop-responses_example :
    Channel.Receive.recv_loop no_parse 2 cut_socket running_channel
    ≡ Channel.Receive.recv_end no_parse
        (Channel.Frames.dispatch_each no_parse one_frame running_channel)
recv_loop-responses_example =
    Channel.Frames.recv_loop-responses no_parse one_frame 2 cut_socket running_channel
      ((omega arith, omega arith), tt) refl (omega arith) refl cut_socket-Enough

abbrev one_host : Channel.Calls.World
one_host = record {
  address = λ path. Discovery.found (codes "1.2.3.4:80");
  kernel = record {
    socket = some 6;
    connects = λ ip port. true;
    socket_error = [];
    connect_error = [];
  };
  now = 100;
  sends = pos 1 ∷ negsuc 0 ∷ [];
  send_error = codes "send error";
}

nothing_pending : Channel.find Channel.new_channel.m_next_id Channel.new_channel.m_pending ≡ none
unfolding Channel.find
nothing_pending = refl

call_async-accounts_example :
    Channel.Requests.accounted 9
      (Channel.Calls.call_async no_parse small_codec one_host one_call Channel.new_channel).1
    ≡ Channel.Requests.accounted 9 Channel.new_channel
      + Channel.Requests.added
          (Channel.Calls.call_async no_parse small_codec one_host one_call Channel.new_channel).0
          9
          9
call_async-accounts_example =
    Channel.Requests.call_async-accounts no_parse small_codec 9 one_host one_call
      Channel.new_channel nothing_pending

-- The answer to request 1 with the one-byte body 42.
abbrev uring_world : UringChannel.World
uring_world = record {
  address = λ path. Discovery.found (codes "1.2.3.4:80");
  ring_ready = true;
  socket = some 6;
  errno = 0;
  connects = takes_answer 0;
  writes = takes_answer 6 ∷ [];
  size_reads = gives_answer (9 ∷ 0 ∷ 0 ∷ 0 ∷ []) ∷ [];
  body_reads = gives_answer (1 ∷ 0 ∷ 0 ∷ 0 ∷ 0 ∷ 0 ∷ 0 ∷ 0 ∷ 42 ∷ []) ∷ [];
}

abbrev all_parse : Bytes → Bool
all_parse b = true

uring_answer :
    UringChannel.call_method no_text any_ip all_parse small_codec uring_world
      (codes "S")
      (codes "m")
      (some (1 ∷ []))
    ≡ UringChannel.answered (1 ∷ 0 ∷ 0 ∷ 0 ∷ 0 ∷ 0 ∷ 0 ∷ 0 ∷ 42 ∷ [])
unfolding UringChannel.call_method find_byte stoi skip_spaces parse_signed in_range parse_unsigned
    digits_value TcpClient.Blocking.connect TcpClient.Blocking.connect_socket TcpClient.close
    TcpClient.wait_uring_result write_all TcpClient.Blocking.write_loop read_exact
    TcpClient.Blocking.read_loop request_frame le_bytes of_le mathlib.Core.Option.bind
uring_answer = refl

uring_frame :
    TcpClient.Transfer.stream uring_world.size_reads
      ++ TcpClient.Transfer.stream uring_world.body_reads
    ≡ response_frame 1 (42 ∷ [])
unfolding response_frame le_bytes
uring_frame = refl

call_method-keeps_id_example : (1 ∷ 0 ∷ 0 ∷ 0 ∷ 0 ∷ 0 ∷ 0 ∷ 0 ∷ 42 ∷ []) ≡ le_bytes 8 1 ++ (42 ∷ [])
call_method-keeps_id_example =
    UringChannel.Response.call_method-keeps_id no_text any_ip all_parse small_codec uring_world
      (codes "S") (codes "m") (some (1 ∷ [])) 1 (42 ∷ []) (1 ∷ 0 ∷ 0 ∷ 0 ∷ 0 ∷ 0 ∷ 0 ∷ 0 ∷ 42 ∷ [])
      (omega arith) uring_frame refl uring_answer

late_register_waits_example :
    let c : Channel.KimRpcChannel = record Channel.new_channel {
      recv_over = true;
      m_timeout_ms = pos 0;
    } in
    let c' = Channel.Calls.register no_parse small_codec 4 one_call 0 c in
    (Channel.find 4
        (Channel.Calls.ensure_connected no_parse one_host.kernel
          (codes "1.2.3.4:80")
          c').1.m_pending
      ≡ some (Channel.Calls.slot one_call none))
    × (Channel.find 4 (Channel.timer_round no_parse 99 c').m_pending
        ≡ some (Channel.Calls.slot one_call none))
late_register_waits_example =
    Channel.Late.late_register_waits no_parse small_codec one_host.kernel (codes "1.2.3.4:80") 4 0
      99 one_call (record Channel.new_channel { recv_over = true; m_timeout_ms = pos 0 }) refl refl
