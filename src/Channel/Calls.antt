-- ===== src/Channel/Calls.antt =====
-- `ensureConnected`, `sendLocked`, `callAsync` and `teardown` of src/channel.cc. The kernel's answers
-- and the address of the method are arguments.
use kim_rpc.Prelude.{
  ℕ, ◌+◌, ◌%◌, ◌^◌, Bool, true, false, not, ◌&&◌, List, [], ◌∷◌, ◌++◌, Option, none, some, Bytes,
  bytes_eq, codes, ltb, if◌then◌else◌, length, drop, take, find_byte, stoi, to_u16, ℤ, is_nonpos,
  pos_part,
}
use kim_rpc.Wire.{RpcHeader, HeaderCodec, request_frame}
use kim_rpc.Discovery.{Address, found}
use kim_rpc.Channel.{
  KimRpcChannel, Pending, failure, find, erase, assign, end_call, fail_all_pending, deadline_at,
}
use kim_rpc.Channel.Receive.{recv_end}

-- What `ensureConnected` makes of an address: its two halves, or none where there is no colon; the
-- port is none where `stoi` throws.
pub data Connected : Type 0 where
  ready : Connected
  refused : Bytes → Connected
  throws : Connected

abbrev pub close_client : Option ℕ → KimRpcChannel → KimRpcChannel
close_client none c = c
close_client (some fd) c = record c { m_clientfd = none; closed = fd ∷ c.closed }

abbrev pub is_open : Option ℕ → Bool
is_open none = false
is_open (some fd) = true

-- The kernel: the new descriptor of `socket`, the result of `connect` to an address and a port, and
-- the text of each error.
pub record Kernel : Type 0 where
  pub socket : Option ℕ
  pub connects : Bytes → ℕ → Bool
  pub socket_error : Bytes
  pub connect_error : Bytes

abbrev pub connect_to : Kernel → Bytes → Bytes → ℕ → KimRpcChannel → Connected × KimRpcChannel
connect_to k host_data ip port c = elim k.socket [
  | none ↦ (refused k.socket_error, c)
  | some fd ↦
      if k.connects ip port
      then (
        ready,
        record c {
          m_clientfd = some fd;
          m_connected_host = host_data;
          m_running = true;
          m_recv_thread = true;
          recv_over = false;
        },
      )
      else (refused k.connect_error, record c { closed = fd ∷ c.closed })
]

abbrev pub connect_port :
    Kernel → Bytes → Bytes → Option ℤ → KimRpcChannel → Connected × KimRpcChannel
connect_port k host_data ip none c = (throws, c)
connect_port k host_data ip (some port) c = connect_to k host_data ip (to_u16 port) c

-- By the place of the colon.
abbrev pub connect_host : Kernel → Bytes → Option ℕ → KimRpcChannel → Connected × KimRpcChannel
connect_host k host_data none c = (refused (host_data ++ codes " address is invalid"), c)
connect_host k host_data (some idx) c =
    connect_port k host_data (take idx host_data) (stoi (drop (idx + 1) host_data)) c

-- Joining the receiving thread waits for its end, which fails the calls in flight; a thread that came
-- to its end before fails none again.
abbrev pub join : (ℕ → Bytes → Bool) → KimRpcChannel → KimRpcChannel
join parse c =
    if c.m_recv_thread
    then record (if c.recv_over then c else recv_end parse c) { m_recv_thread = false }
    else c

-- The body of `ensureConnected`, by whether the connection serves.
abbrev pub reconnect :
    (ℕ → Bytes → Bool) → Kernel → Bytes → Bool → KimRpcChannel → Connected × KimRpcChannel
reconnect parse k host_data true c = (ready, c)
reconnect parse k host_data false c =
    connect_host k host_data (find_byte b':' host_data)
      (record (join parse (close_client c.m_clientfd c)) { m_connected_host = [] })

unfoldable pub ensure_connected :
    (ℕ → Bytes → Bool) → Kernel → Bytes → KimRpcChannel → Connected × KimRpcChannel
ensure_connected parse k host_data c =
    reconnect parse k host_data
      (is_open c.m_clientfd && (c.m_running && bytes_eq c.m_connected_host host_data)) c

-- The loop of `sendLocked` from `written` on: whether all went out, and the bytes that did. The kernel
-- takes no more than it is given; after the script, `send` fails.
unfoldable pub send_loop : List ℤ → Bytes → ℕ → Bytes → Bool × Bytes
send_loop [] text written out = (not (ltb written (length text)), out)
send_loop (ret ∷ script) text written out =
    let rest =
      send_loop script text (written + pos_part ret)
        (out ++ take (pos_part ret) (drop written text)) in
    if ltb written (length text)
    then (if is_nonpos ret then (false, out) else rest)
    else (true, out)

unfoldable pub send_locked : List ℤ → Bytes → Bool × Bytes
unfolding send_loop
send_locked script text = send_loop script text 0 []

-- One call, as `callAsync` is given it: `args` is the serialised request, none where that fails.
pub record Call : Type 0 where
  pub service_name : Bytes
  pub method_name : Bytes
  pub args : Option Bytes
  pub response : ℕ
  pub controller : Option ℕ
  pub done : ℕ

abbrev pub slot : Call → Option ℕ → Pending
slot call deadline = record {
  response = call.response;
  controller = call.controller;
  done = call.done;
  deadline = deadline;
}

-- What the surroundings answer to one call.
pub record World : Type 0 where
  pub address : Bytes → Address
  pub kernel : Kernel
  pub now : ℕ
  pub sends : List ℤ
  pub send_error : Bytes

-- How `callAsync` leaves: it returned, or `stoi` threw out of it.
pub data Outcome : Type 0 where
  returned : Outcome
  thrown : Outcome

module _ (parse : ℕ → Bytes → Bool) (codec : HeaderCodec) where
  -- The lambda `fail`.
  abbrev pub fail : Call → Bytes → KimRpcChannel → KimRpcChannel
  fail call reason c = end_call parse (slot call none) (failure reason) c

  unfoldable pub register : ℕ → Call → ℕ → KimRpcChannel → KimRpcChannel
  register id call now c = record c {
    m_pending = assign id (slot call (deadline_at c.m_timeout_ms now)) c.m_pending;
  }

  -- After a send that failed: the slot is withdrawn, unless another thread took it.
  unfoldable pub withdraw : ℕ → Call → Bytes → KimRpcChannel → KimRpcChannel
  withdraw id call error c = elim (find id c.m_pending) [
    | none ↦ c
    | some p ↦ fail call error (record c { m_pending = erase id c.m_pending })
  ]

  abbrev pub send_call : World → ℕ → Call → Bytes → KimRpcChannel → KimRpcChannel
  send_call w id call frame c =
      if (send_locked w.sends frame).0 then c else withdraw id call w.send_error c

  abbrev pub call_connected :
      World → ℕ → Call → Bytes → Connected × KimRpcChannel → Outcome × KimRpcChannel
  call_connected w id call frame (ready, c) =
      (returned, send_call w id call frame (register id call w.now c))
  call_connected w id call frame (refused error, c) = (returned, fail call error c)
  call_connected w id call frame (throws, c) = (thrown, c)

  abbrev pub call_found :
      World → ℕ → Call → Bytes → Address → KimRpcChannel → Outcome × KimRpcChannel
  call_found w id call frame (found host) c =
      call_connected w id call frame (ensure_connected parse w.kernel host c)
  call_found w id call frame (Address.failed error) c = (returned, fail call error c)

  -- The header, with the id that the call was given.
  abbrev pub header_of : Call → Bytes → ℕ → RpcHeader
  header_of call args id = record {
    service_name = call.service_name;
    method_name = call.method_name;
    args_size = length args % 2 ^ 32;
    request_id = id;
  }

  abbrev pub method_path : Call → Bytes
  method_path call = codes "/" ++ (call.service_name ++ (codes "/" ++ call.method_name))

  -- The steps of `callAsync` after the header and after the arguments were serialised.
  abbrev pub call_framed :
      World → ℕ → Call → Bytes → Option Bytes → KimRpcChannel → Outcome × KimRpcChannel
  call_framed w id call args none c = (returned, fail call (codes "serialize rpcHeader error!") c)
  call_framed w id call args (some header) c =
      call_found w id call (request_frame header args) (w.address (method_path call)) c

  abbrev pub call_serialized : World → Call → Option Bytes → KimRpcChannel → Outcome × KimRpcChannel
  call_serialized w call none c = (returned, fail call (codes "serialize request error!") c)
  call_serialized w call (some args) c =
      let id = c.m_next_id in
      call_framed w id call args (codec.serialize (header_of call args id))
        (record c { m_next_id = (id + 1) % 2 ^ 64 })

  -- `callAsync`, run without other threads in between.
  unfoldable pub call_async : World → Call → KimRpcChannel → Outcome × KimRpcChannel
  call_async w call c = call_serialized w call call.args c

  -- `teardown`, and the destructor, which stops the timer first.
  unfoldable pub teardown : KimRpcChannel → KimRpcChannel
  teardown c = fail_all_pending parse (codes "channel closed") (
      join parse (record (close_client c.m_clientfd (record c { m_running = false })) {
        m_connected_host = [];
      }))

  unfoldable pub destroy : KimRpcChannel → KimRpcChannel
  unfolding teardown
  destroy c = teardown (record c { m_timer_running = false })
