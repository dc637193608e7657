-- ===== src/Tests/EndToEnd.antt =====
-- A call from a fresh channel to an idle server, and its response.
use kim_rpc.Prelude.{
  ℕ, ◌+◌, ◌%◌, ◌^◌, ◌<◌, ◌≡◌, refl, sym, ap, Option, Bool, true, false, List, [], ◌∷◌, ◌++◌, none,
  some, arith, Bytes, codes, length, lookup, bytes_eq, pos,
}
use kim_rpc.Wire.{request_frame, response_frame, le_bytes}
use kim_rpc.Discovery
use kim_rpc.Channel.{KimRpcChannel, new_channel, answer, erase, end_call, deadline_at}
use kim_rpc.Channel.Receive.{Socket, recv_end, recv_loop}
use kim_rpc.Channel.Frames.{Enough}
use kim_rpc.Channel.Calls.{World, Call, slot, ensure_connected, send_locked, send_loop, call_async}
use kim_rpc.Reactor.{Provider, Task, ctx_at}
use kim_rpc.Reactor.Sending.{concat}
use kim_rpc.EndToEnd.{Sends, Serves, recv_loop-call_async}
use kim_rpc.EndToEnd.Server.{serve_one, serve_one-responds}
use kim_rpc.Tests.Codec.{text_codec, text_codec-ReadsBack, write_header}
use kim_rpc.Tests.Server.{rpc, with_ctx, context, header, args, served}

abbrev pub any_body : ℕ → Bytes → Bool
any_body r b = true

abbrev pub call : Call
call = record {
  service_name = codes "S";
  method_name = codes "m";
  args = some args;
  response = 1;
  controller = none;
  done = 9;
}

-- The kernel takes five bytes of the frame first.
abbrev pub world : World
world = record {
  address = λ path. Discovery.found (codes "1.2.3.4:80");
  kernel = record {
    socket = some 6;
    connects = λ ip port. true;
    socket_error = [];
    connect_error = [];
  };
  now = 100;
  sends = pos 5 ∷ (pos 100 ∷ []);
  send_error = [];
}

abbrev channel : KimRpcChannel
channel = record new_channel { m_next_id = 5 }

abbrev connected : KimRpcChannel
connected = record new_channel {
  m_next_id = 6;
  m_clientfd = some 6;
  m_connected_host = codes "1.2.3.4:80";
  m_recv_thread = true;
  m_running = true;
}

sent : Sends any_body text_codec world call channel connected args (write_header header)
unfolding ensure_connected send_locked send_loop request_frame le_bytes bytes_eq
    kim_rpc.Prelude.find_byte kim_rpc.Prelude.stoi kim_rpc.Prelude.skip_spaces
    kim_rpc.Prelude.digits_value kim_rpc.Prelude.parse_unsigned kim_rpc.Prelude.parse_signed
    kim_rpc.Prelude.in_range mathlib.Core.Option.bind
sent = record {
  host = codes "1.2.3.4:80";
  has_args = refl;
  has_header = refl;
  has_host = refl;
  connects = refl;
  sends = refl;
}

abbrev business : Task → Option Bytes
business t = some (t.request ++ t.request)

abbrev idle : Provider
idle = with_ctx (record context {
  input = (send_locked world.sends (request_frame (write_header header) args)).1;
})

serves : Serves any_body rpc business 7 0 idle call 5 args (write_header header) (args ++ args)
unfolding kim_rpc.Conn.find
serves = record {
  service = 1;
  method = 2;
  reads_back = text_codec-ReadsBack;
  servable = served;
  is_there = refl;
  no_responses = refl;
  no_tasks = refl;
  no_ready = refl;
  computes = refl;
  body_fits = omega arith;
}

-- Sixteen bytes come back, one at a time.
abbrev socket : Socket
socket = record {
  stream = response_frame 5 (args ++ args) ++ [];
  sizes = 1 ∷ 1 ∷ 1 ∷ 1 ∷ 1 ∷ 1 ∷ 1 ∷ 1 ∷ 1 ∷ 1 ∷ 1 ∷ 1 ∷ 1 ∷ 1 ∷ 1 ∷ 1 ∷ [];
}

socket-Enough : Enough socket
unfolding response_frame le_bytes
socket-Enough = ground arith

-- The server's queue is this one frame.
queued :
    response_frame 5 (args ++ args) ++ []
    ≡ concat (ctx_at 0 (serve_one rpc business 7 0 idle)).out_queue
unfolding send_locked send_loop request_frame le_bytes kim_rpc.Conn.find
queued = ap concat (
    sym (
      serve_one-responds rpc business 7 0 idle header (write_header header) args (args ++ args) 1 2
        text_codec-ReadsBack served refl refl refl refl refl))

recv_loop-call_async_example :
    let called = (call_async any_body text_codec world call channel).1 in
    recv_loop any_body 2 socket called
    ≡ recv_end any_body (
        end_call any_body
          (slot call (deadline_at connected.m_timeout_ms 100))
          (answer (args ++ args))
          (record called { m_pending = erase 5 called.m_pending }))
recv_loop-call_async_example =
    recv_loop-call_async any_body rpc business world call channel connected args
      (write_header header) (args ++ args) 7 0 idle socket sent serves refl queued socket-Enough
