-- ===== src/EndToEnd.antt =====
-- One call from end to end: `callAsync` of src/channel.cc, `tryHandleRequest`, `workerThread`,
-- `onPoolDone`, `handleNotify` and `deliverResponse` of src/uringrpcprovider.cc, and `recvLoop` of
-- src/channel.cc. The business service is a parameter; TCP carries the bytes.
pub mod Client
pub mod Server
use kim_rpc.Prelude.{
  ℕ, ◌+◌, ◌%◌, ◌^◌, ◌≤◌, ◌<◌, ◌≡◌, refl, ap, sym, ◌∙◌, Bool, true, false, List, [], ◌∷◌, ◌++◌,
  Option, none, some, arith, Bytes, length, lookup, append-nil,
}
use kim_rpc.Wire.{HeaderCodec, ReadsBack, request_frame, response_frame}
use kim_rpc.Discovery.{found}
use kim_rpc.Conn.{Ptr}
use kim_rpc.Channel.{KimRpcChannel, answer, erase, end_call, deadline_at}
use kim_rpc.Channel.Receive.{Socket, recv_end, recv_loop}
use kim_rpc.Channel.Frames.{Enough}
use kim_rpc.Channel.Calls.{
  ready, ensure_connected, send_locked, Call, slot, World, returned, register, header_of,
  method_path, call_async,
}
use kim_rpc.Reactor.{Provider, Rpc, Task, ctx_at, find}
use kim_rpc.Reactor.Parsing.{IsServable, task_of}
use kim_rpc.Reactor.Sending.{concat}
use kim_rpc.EndToEnd.Client.{
  send_locked-whole, ensure_connected-running, call_async-sent, recv_loop-answer,
}
use kim_rpc.EndToEnd.Server.{serve_one, serve_one-responds}

-- The client's side: the call with its serialised request and header, and a channel that connects and
-- sends it.
pub record Sends (parse : ℕ → Bytes → Bool) (codec : HeaderCodec) (w : World) (call : Call)
    (c c' : KimRpcChannel) (args header : Bytes) : Type 0 where
  pub host : Bytes
  pub has_args : call.args ≡ some args
  pub has_header : codec.serialize (header_of parse codec call args c.m_next_id) ≡ some header
  pub has_host : w.address (method_path parse codec call) ≡ found host
  pub connects :
      ensure_connected parse w.kernel host (record c { m_next_id = (c.m_next_id + 1) % 2 ^ 64 })
      ≡ (ready, c')
  pub sends : (send_locked w.sends (request_frame header args)).0 ≡ true

-- The server's side: an idle server that can serve the call on the connection at `p`, whose business
-- makes `body` of it.
pub record Serves (parse : ℕ → Bytes → Bool) (rpc : Rpc) (business : Task → Option Bytes) (fd p : ℕ)
    (s : Provider) (call : Call) (id : ℕ) (args header body : Bytes) : Type 0 where
  pub service : ℕ
  pub method : ℕ
  pub reads_back : ReadsBack rpc.codec
  pub servable :
      IsServable rpc s.service_map
        (header_of parse rpc.codec call args id)
        header
        args
        service
        method
  pub is_there : find fd s ≡ some p
  pub no_responses : (ctx_at p s).out_queue ≡ []
  pub no_tasks : s.task_queue ≡ []
  pub no_ready : s.ready_coros ≡ []
  pub computes :
      business (task_of fd p (header_of parse rpc.codec call args id) service method args s)
      ≡ some body
  pub body_fits : 8 + length body < 2 ^ 32

-- A call from end to end: where the channel connects and sends the call, the bytes that it sends are
-- what the connection's input holds, the server can serve the call and is idle, and its business makes
-- `body` of it, then the bytes that the server queues, cut by the kernel in any way, make the client's
-- `recvLoop` end exactly this call, with exactly `body`, and nothing else before the stream ends.
pub recv_loop-call_async :
    (parse : ℕ → Bytes → Bool) (rpc : Rpc) (business : Task → Option Bytes) (w : World)
    (call : Call) (c c' : KimRpcChannel) (args header body : Bytes) (fd p : ℕ) (s : Provider)
    (socket : Socket)
    → Sends parse rpc.codec w call c c' args header
    → Serves parse rpc business fd p s call c.m_next_id args header body
    → (ctx_at p s).input ≡ (send_locked w.sends (request_frame header args)).1
    → socket.stream ≡ concat (ctx_at p (serve_one rpc business fd p s)).out_queue
    → Enough socket
    → let called = (call_async parse rpc.codec w call c).1 in
      recv_loop parse 2 socket called
      ≡ recv_end parse (
          end_call parse
            (slot call (deadline_at c'.m_timeout_ms w.now))
            (answer body)
            (record called { m_pending = erase c.m_next_id called.m_pending }))
recv_loop-call_async parse rpc business w call c c' args header body fd p s socket v u arrives back
      n =
    let id = c.m_next_id in
    let input = arrives ∙ send_locked-whole w.sends (request_frame header args) v.sends in
    let queue =
      serve_one-responds rpc business fd p s (header_of parse rpc.codec call args id) header args
        body u.service u.method u.reads_back u.servable input u.is_there u.no_tasks u.no_ready
        u.computes
      ∙ ap (λ (l : List Bytes). l ++ (response_frame id body ∷ [])) u.no_responses in
    let sent =
      call_async-sent parse rpc.codec w call c c' args header v.host v.has_args v.has_header
        v.has_host v.connects v.sends in
    rw sent (
      recv_loop-answer parse rpc.codec id w.now call c' body socket
        (ensure_connected-running parse w.kernel v.host (record c { m_next_id = (id + 1) % 2 ^ 64 })
          c' v.connects)
        u.body_fits u.servable.id_fits
        (back ∙ ap concat queue ∙ append-nil (response_frame id body)) n)
