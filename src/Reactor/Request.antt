-- ===== src/Reactor/Request.antt =====
-- `tryHandleRequest` of src/uringrpcprovider.cc: takes one request off the input of a connection.
use kim_rpc.Prelude.{
  ℕ, ◌+◌, Bool, true, false, [], ◌∷◌, ◌++◌, Option, none, some, Bytes, ltb, if◌then◌else◌, length,
  take, drop, substr, lookup, inc,
}
use kim_rpc.Wire.{RpcHeader, of_le}
use kim_rpc.Conn.{Ptr}
use kim_rpc.Reactor.{
  Provider, ServiceInfo, Rpc, Task, ctx_at, on_ctx, close, k_max_header_size, k_max_body_size,
}

-- `handleRpc` up to its `co_await`: the call is queued for the thread pool (`submitTask`).
unfoldable pub handle_rpc : Task → Provider → Provider
handle_rpc t s = record s { task_queue = s.task_queue ++ (t ∷ []) }

-- The call of a method that exists.
unfoldable pub start_call : Rpc → ℕ → Ptr → ℕ → ℕ → ℕ → Bytes → Provider → Bool × Provider
unfolding handle_rpc
start_call rpc fd p request_id service method args s =
    if rpc.parses_request method args
    then (
      true,
      handle_rpc
          (record {
            fd = fd;
            conn_id = (ctx_at p s).conn_id;
            request_id = request_id;
            service = service;
            method = method;
            request = args;
          })
          (on_ctx p (λ c. record c { pending_reqs = inc c.pending_reqs }) s),
    )
    else (true, close fd s)

abbrev pub find_method : Option ServiceInfo → Bytes → Option (ℕ × ℕ)
find_method none name = none
find_method (some info) name = elim (lookup name info.method_map) [
  | none ↦ none
  | some method ↦ some (info.service, method)
]

-- A frame that is there whole, and was erased from the input.
unfoldable pub dispatch : Rpc → ℕ → Ptr → RpcHeader → Bytes → Provider → Bool × Provider
dispatch rpc fd p h args s =
    elim (find_method (lookup h.service_name s.service_map) h.method_name) [
      | none ↦ (true, close fd s)
      | some (service, method) ↦ start_call rpc fd p h.request_id service method args s
    ]

-- The header parsed; `size` is 4 + header_size.
unfoldable pub handle_body : Rpc → ℕ → Ptr → ℕ → RpcHeader → Provider → Bool × Provider
handle_body rpc fd p size h s =
    if ltb k_max_body_size h.args_size
    then (true, close fd s)
    else if ltb (length (ctx_at p s).input) (size + h.args_size)
    then (false, s)
    else dispatch rpc fd p h (substr (ctx_at p s).input size h.args_size)
        (on_ctx p (λ c. record c { input = drop (size + h.args_size) c.input }) s)

unfoldable pub handle_header : Rpc → ℕ → Ptr → ℕ → Provider → Bool × Provider
handle_header rpc fd p header_size s =
    if ltb k_max_header_size header_size
    then (true, close fd s)
    else if ltb (length (ctx_at p s).input) (4 + header_size)
    then (false, s)
    else elim (rpc.codec.parse (substr (ctx_at p s).input 4 header_size)) [
      | none ↦ (true, close fd s)
      | some h ↦ handle_body rpc fd p (4 + header_size) h s
    ]

-- False: the input holds no whole request. True: a request was dispatched, or the connection closed.
unfoldable pub try_handle_request : Rpc → ℕ → Ptr → Provider → Bool × Provider
try_handle_request rpc fd p s =
    if ltb (length (ctx_at p s).input) 4
    then (false, s)
    else handle_header rpc fd p (of_le (take 4 (ctx_at p s).input)) s
