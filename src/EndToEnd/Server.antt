-- ===== src/EndToEnd/Server.antt =====
-- The server's side of a call: one request from the input of a connection to the queue of responses.
use kim_rpc.Prelude.{
  ℕ, ◌≡◌, refl, ap, sym, ◌∙◌, false, List, [], ◌∷◌, ◌++◌, Option, some, arith, Bytes, append-nil,
  is_empty,
}
use kim_rpc.Wire.{RpcHeader, ReadsBack, request_frame, response_frame, le_bytes}
use kim_rpc.Conn.{Ptr}
use kim_rpc.Conn
use kim_rpc.Reactor.{Provider, Rpc, Task, ctx_at, find}
use kim_rpc.Reactor.Request.{try_handle_request}
use kim_rpc.Reactor.Parsing.{IsServable, task_of, try_handle_request-Dispatched}
use kim_rpc.Reactor.Handlers.{deliver_response}
use kim_rpc.Reactor.Pool.{
  Round, waits, exits, runs, worker_round, frame_of, on_pool_done, resume, resume_all,
  handle_notify,
}
use kim_rpc.Reactor.Delivery.{deliver_response-appends}

-- A worker's round with what the business makes of the task, and the notification after it.
abbrev pub worked : (Task → Option Bytes) → Provider → Round → Provider
worked business s waits = s
worked business s exits = s
worked business s (runs t s') = handle_notify (on_pool_done t (business t) s')

-- The first request of the input, through the pool and back.
abbrev pub serve_one : Rpc → (Task → Option Bytes) → ℕ → Ptr → Provider → Provider
serve_one rpc business fd p s =
    let s' = (try_handle_request rpc fd p s).1 in worked business s' (worker_round false s')

-- A frame is never empty.
response_some : (id : ℕ) (body : Bytes) → is_empty (response_frame id body) ≡ false
unfolding response_frame le_bytes
response_some id body = refl

-- One task through an idle pool.
worked-one :
    (business : Task → Option Bytes) (t : Task) (body : Bytes) (s : Provider)
    → s.task_queue ≡ t ∷ []
    → s.ready_coros ≡ []
    → business t ≡ some body
    → worked business s (worker_round false s)
      ≡ deliver_response t.fd t.conn_id
          (response_frame t.request_id body)
          (record s { task_queue = []; ready_coros = [] })
unfolding worker_round on_pool_done handle_notify resume_all resume frame_of
worked-one business t body s q r b = ground (arith, q, r, b, response_some t.request_id body)

-- The response stands at the end of the connection's queue.
pub serve_one-responds :
    (rpc : Rpc) (business : Task → Option Bytes) (fd p : ℕ) (s : Provider) (h : RpcHeader)
    (header args body : Bytes) (service method : ℕ)
    → ReadsBack rpc.codec
    → IsServable rpc s.service_map h header args service method
    → (ctx_at p s).input ≡ request_frame header args
    → find fd s ≡ some p
    → s.task_queue ≡ []
    → s.ready_coros ≡ []
    → business (task_of fd p h service method args s) ≡ some body
    → (ctx_at p (serve_one rpc business fd p s)).out_queue
      ≡ (ctx_at p s).out_queue ++ (response_frame h.request_id body ∷ [])
unfolding Conn.find
serve_one-responds rpc business fd p s h header args body service method back v e at q r b =
    let t = task_of fd p h service method args s in
    let frame = response_frame h.request_id body in
    let (done, d) =
      try_handle_request-Dispatched rpc fd p s h header args [] service method back v
        (e ∙ sym (append-nil (request_frame header args))) in
    let s1 = (try_handle_request rpc fd p s).1 in
    let s2 : Provider = record s1 { task_queue = []; ready_coros = [] } in
    let w =
      worked-one business t body s1 (d.queued ∙ ap (λ (l : List Task). l ++ (t ∷ [])) q)
        (d.same_ready ∙ r) b in
    let (out, others) =
      deliver_response-appends fd p t.conn_id p frame s2 (ap (λ f. f fd) d.same_active ∙ at)
        d.same_id in
    ap (λ (x : Provider). (ctx_at p x).out_queue) w
    ∙ out.same_queue
    ∙ ap (λ (l : List Bytes). l ++ (frame ∷ [])) d.same_queue
