-- ===== src/Reactor/Handlers.antt =====
-- The handlers of src/uringrpcprovider.cc.
use kim_rpc.Prelude.{
  ℕ, zero, suc, ◌+◌, Bool, true, false, not, List, [], ◌∷◌, ◌++◌, Option, none, some, Bytes, leb,
  ◌==◌, ◌&&◌, if◌then◌else◌, length, ℤ, pos, negsuc, is_nonpos, pos_part, dec, is_empty,
}
use kim_rpc.Conn.{Ptr, ConnectionContext}
use kim_rpc.Conn
use kim_rpc.Reactor.{Provider, Rpc, ctx_at, on_ctx, close, find, k_max_inflight_per_conn}
use kim_rpc.Reactor.Submit.{submit_accept, submit_recv, submit_send}
use kim_rpc.Reactor.Request.{try_handle_request}

-- `if (!submit…(fd)) close(fd)`.
abbrev pub or_close : ℕ → Bool × Provider → Provider
or_close fd (true, s) = s
or_close fd (false, s) = close fd s

abbrev rearm_accept : Bool × Provider → Provider
rearm_accept (true, s) = s
rearm_accept (false, s) = record s { accept_pending = true }

-- The socket options set on the new descriptor do not show in the state.
unfoldable pub handle_accept : ℤ → Provider → Provider
handle_accept (negsuc n) s = rearm_accept (submit_accept s)
handle_accept (pos connfd) s = rearm_accept (
    submit_accept
      (or_close connfd (submit_recv connfd (record s { conn = (Conn.acquire connfd s.conn).1 }))))

-- `while (tryHandleRequest(fd, ctx)) if (find(fd) == nullptr) return;`, with whether it returned.
-- `none`: the fuel ran out.
unfoldable pub drain : Rpc → ℕ → ℕ → Ptr → Provider → Option (Bool × Provider)
drain rpc zero fd p s = none
drain rpc (suc fuel) fd p s =
    let (more, s') = try_handle_request rpc fd p s in
    elim more [
      | false ↦ some (false, s')
      | true ↦ elim (find fd s') [ none ↦ some (true, s') | some q ↦ drain rpc fuel fd p s' ]
    ]

-- `pendingReqs >= kMaxInflightPerConn`
abbrev pub at_limit : ConnectionContext → Bool
at_limit c = leb k_max_inflight_per_conn (pos_part c.pending_reqs)

-- After the loop: pause reading at the limit, else read on.
unfoldable pub read_on : ℕ → Ptr → Provider → Provider
read_on fd p s =
    if at_limit (ctx_at p s)
    then on_ctx p (λ c. record c { read_paused = true }) s
    else or_close fd (submit_recv fd s)

abbrev pub after_drain : ℕ → Ptr → Option (Bool × Provider) → Option Provider
after_drain fd p none = none
after_drain fd p (some (true, s)) = some s
after_drain fd p (some (false, s)) = some (read_on fd p s)

-- `result == -ENOBUFS`, which is 105.
abbrev pub is_enobufs : ℤ → Bool
is_enobufs (pos n) = false
is_enobufs (negsuc n) = n == 104

-- Each round of the loop takes four bytes at least or closes the connection, so one round for each
-- byte of input and one more are enough.
unfoldable pub handle_recv : Rpc → Ptr → ℤ → Provider → Option Provider
handle_recv rpc p result s =
    let fd = (ctx_at p s).fd in
    if (ctx_at p s).closing
    then some s
    else if is_nonpos result
    then some (if is_enobufs result then or_close fd (submit_recv fd s) else close fd s)
    else after_drain fd p (drain rpc (suc (length (ctx_at p s).input)) fd p s)

-- `outQueue.front()`, which the code calls with a send in flight, so on a queue that is not empty.
abbrev pub front_of : List Bytes → Bytes
front_of [] = []
front_of (f ∷ fs) = f

abbrev pub rest_of : List Bytes → List Bytes
rest_of [] = []
rest_of (f ∷ fs) = fs

-- The response at the front is out: pop it and count it off.
abbrev pub pop_sent : ConnectionContext → ConnectionContext
pop_sent c = record c {
  out_queue = rest_of c.out_queue;
  written = 0;
  pending_reqs = dec c.pending_reqs;
}

-- The end of `handleSend`: stop the chain, or send on.
unfoldable pub send_on : ℕ → Ptr → Provider → Provider
send_on fd p s =
    if is_empty (ctx_at p s).out_queue
    then on_ctx p (λ c. record c { sending = false }) s
    else or_close fd (submit_send fd s)

abbrev pub unpaused : Ptr → Provider → Provider
unpaused p s = on_ctx p (λ c. record c { read_paused = false }) s

abbrev pub resumed : ℕ → Ptr → Bool × Provider → Provider
resumed fd p (true, s) = send_on fd p s
resumed fd p (false, s) = close fd s

-- Reading resumes where it was paused and the count is below the limit again.
unfoldable pub resume_read : ℕ → Ptr → Provider → Provider
resume_read fd p s =
    if (ctx_at p s).read_paused && not (at_limit (ctx_at p s))
    then resumed fd p (submit_recv fd (unpaused p s))
    else send_on fd p s

unfoldable pub sent : ℕ → Ptr → Provider → Provider
sent fd p s =
    if leb (length (front_of (ctx_at p s).out_queue)) (ctx_at p s).written
    then resume_read fd p (on_ctx p pop_sent s)
    else send_on fd p s

abbrev pub advanced : ℕ → ConnectionContext → ConnectionContext
advanced n c = record c { written = c.written + n }

unfoldable pub handle_send : Ptr → ℤ → Provider → Provider
handle_send p result s =
    let fd = (ctx_at p s).fd in
    if is_nonpos result then close fd s else sent fd p (on_ctx p (advanced (pos_part result)) s)

-- The response of an old connection, whose descriptor was taken over, is dropped.
unfoldable pub deliver_response : ℕ → ℕ → Bytes → Provider → Provider
deliver_response fd conn_id frame s = elim (find fd s) [
  | none ↦ s
  | some p ↦
      if (ctx_at p s).conn_id == conn_id
      then (let s' = on_ctx p (λ c. record c { out_queue = c.out_queue ++ (frame ∷ []) }) s in
          if (ctx_at p s').sending then s' else or_close fd (submit_send fd s'))
      else s
]
