-- ===== src/Reactor/Parsing.antt =====
-- What `tryHandleRequest` does with the input of a connection.
use kim_rpc.Prelude.{
  ℕ, zero, suc, ◌+◌, ◌^◌, ◌≤◌, ◌<◌, ◌≡◌, refl, ap, sym, ◌∙◌, true, false, List, [], ◌∷◌, ◌++◌, some,
  arith, Bytes, length, take, drop, substr, lookup, inc, append-nil, length-append,
}
use kim_rpc.Wire.{RpcHeader, ReadsBack, of_le, request_frame}
use kim_rpc.Wire.Frames.{
  request-length, request-header_size, request-header, request-args, request-rest,
}
use kim_rpc.Conn.{Ptr}
use kim_rpc.Reactor.{
  Provider, ServiceInfo, Rpc, Task, ctx_at, on_ctx, k_max_header_size, k_max_body_size,
}
use kim_rpc.Reactor.Request.{
  handle_rpc, start_call, find_method, dispatch, handle_body, handle_header, try_handle_request,
}

-- The task of a request on the connection at `p`.
abbrev pub task_of : ℕ → Ptr → RpcHeader → ℕ → ℕ → Bytes → Provider → Task
task_of fd p h service method args s = record {
  fd = fd;
  conn_id = (ctx_at p s).conn_id;
  request_id = h.request_id;
  service = service;
  method = method;
  request = args;
}

-- `s'` is `s` with the task queued, the input of `p` cut down to `rest` and its count raised by one;
-- what waits to be sent or resumed is as it was.
pub record Dispatched (t : Task) (p : Ptr) (rest : Bytes) (s s' : Provider) : Type 0 where
  pub queued : s'.task_queue ≡ s.task_queue ++ (t ∷ [])
  pub left : (ctx_at p s').input ≡ rest
  pub counted : (ctx_at p s').pending_reqs ≡ inc (ctx_at p s).pending_reqs
  pub same_id : (ctx_at p s').conn_id ≡ (ctx_at p s).conn_id
  pub same_active : s'.conn.active ≡ s.conn.active
  pub same_services : s'.service_map ≡ s.service_map
  pub same_queue : (ctx_at p s').out_queue ≡ (ctx_at p s).out_queue
  pub same_ready : s'.ready_coros ≡ s.ready_coros

-- A request that the server can serve: its header is what protobuf wrote, its sizes are within the
-- limits, and its method exists and parses the arguments.
pub record IsServable (rpc : Rpc) (services : List (Bytes × ServiceInfo)) (h : RpcHeader)
    (header args : Bytes) (service method : ℕ) : Type 0 where
  pub written : rpc.codec.serialize h ≡ some header
  pub header_fits : length header ≤ k_max_header_size
  pub size_of_args : h.args_size ≡ length args
  pub args_fit : length args ≤ k_max_body_size
  pub id_fits : h.request_id < 2 ^ 64
  pub found : find_method (lookup h.service_name services) h.method_name ≡ some (service, method)
  pub parses : rpc.parses_request method args ≡ true

abbrev pub erased : ℕ → Ptr → Provider → Provider
erased n p s = on_ctx p (λ c. record c { input = drop n c.input }) s

abbrev counted_up : Ptr → Provider → Provider
counted_up p s = on_ctx p (λ c. record c { pending_reqs = inc c.pending_reqs }) s

module _ (rpc : Rpc) (fd p : ℕ) (s : Provider) (h : RpcHeader) (header args rest : Bytes)
    (service method : ℕ) (back : ReadsBack rpc.codec)
    (v : IsServable rpc s.service_map h header args service method)
    (e : (ctx_at p s).input ≡ request_frame header args ++ rest) where
  try-header : try_handle_request rpc fd p s ≡ handle_header rpc fd p (length header) s
  unfolding try_handle_request
  try-header = ground (
    arith,
    request-length header args rest _ e,
    request-header_size header args rest _ e,
    v.header_fits,
  )

  parsed : rpc.codec.parse (substr (ctx_at p s).input 4 (length header)) ≡ some h
  parsed =
      rw (request-header header args rest _ e)
        (back h header (omega (arith, v.size_of_args, v.args_fit)) v.id_fits v.written)

  header-body :
      handle_header rpc fd p (length header) s ≡ handle_body rpc fd p (4 + length header) h s
  unfolding handle_header
  header-body = ground (arith, request-length header args rest _ e, parsed, v.header_fits)

  args-eq : substr (ctx_at p s).input (4 + length header) h.args_size ≡ args
  args-eq = rw v.size_of_args (request-args header args rest _ e)

  body-dispatch :
      handle_body rpc fd p (4 + length header) h s
      ≡ dispatch rpc fd p h args (erased (4 + length header + h.args_size) p s)
  unfolding handle_body
  body-dispatch =
      ground (arith, request-length header args rest _ e, v.size_of_args, v.args_fit, args-eq)

  -- The frame is there whole, so the request is dispatched.
  try-dispatch : try_handle_request rpc fd p s ≡ (
    true,
    handle_rpc
        (task_of fd p h service method args s)
        (counted_up p (erased (4 + length header + h.args_size) p s)),
  )
  unfolding dispatch start_call on_ctx
  try-dispatch = try-header ∙ header-body ∙ body-dispatch ∙ ground (arith, v.found, v.parses)

  rest-eq : drop (4 + length header + h.args_size) (ctx_at p s).input ≡ rest
  rest-eq = rw v.size_of_args (request-rest header args rest _ e)

  task_made : Dispatched (task_of fd p h service method args s) p rest s (
      handle_rpc
        (task_of fd p h service method args s)
        (counted_up p (erased (4 + length header + h.args_size) p s)))
  unfolding handle_rpc on_ctx
  task_made = record {
    queued = refl;
    left = ground (arith, rest-eq);
    counted = ground arith;
    same_id = ground arith;
    same_active = refl;
    same_services = refl;
    same_queue = ground arith;
    same_ready = refl;
  }

-- Where the input of a connection begins with the frame of a request that the server can serve, one
-- call of `tryHandleRequest` returns true, queues exactly that request's task under the connection's
-- descriptor and id, takes exactly the frame off the input, and counts the request.
pub try_handle_request-Dispatched :
    (rpc : Rpc) (fd p : ℕ) (s : Provider) (h : RpcHeader) (header args rest : Bytes)
    (service method : ℕ)
    → ReadsBack rpc.codec
    → IsServable rpc s.service_map h header args service method
    → (ctx_at p s).input ≡ request_frame header args ++ rest
    → ((try_handle_request rpc fd p s).0 ≡ true)
      × Dispatched (task_of fd p h service method args s) p rest s (try_handle_request rpc fd p s).1
try_handle_request-Dispatched rpc fd p s h header args rest service method back v e =
    rw (try-dispatch rpc fd p s h header args rest service method back v e)
      (refl, task_made rpc fd p s h header args rest service method back v e)

-- A call that returns false changes nothing, and it happens only while the input is shorter than the
-- largest request within the limits: what waits for more bytes stays bounded.
pub try_handle_request_bounded :
    (rpc : Rpc) (fd p : ℕ) (s : Provider)
    → (try_handle_request rpc fd p s).0 ≡ false
    → ((try_handle_request rpc fd p s).1 ≡ s)
      × (length (ctx_at p s).input < 4 + k_max_header_size + k_max_body_size)
unfolding try_handle_request handle_header handle_body dispatch start_call
try_handle_request_bounded rpc fd p s h = ground arith

-- The first bytes of a list do not change where more is added behind.
take_within : (n : ℕ) (xs ys : Bytes) → n ≤ length xs → take n (xs ++ ys) ≡ take n xs
take_within zero xs ys h = refl
take_within (suc n) [] ys h = absurd (omega arith)
take_within (suc n) (x ∷ xs) ys h = ap (◌∷◌ x) (take_within n xs ys (omega arith))

substr_within :
    (m n : ℕ) (xs ys : Bytes) → m + n ≤ length xs → substr (xs ++ ys) m n ≡ substr xs m n
substr_within zero n xs ys h = take_within n xs ys (omega arith)
substr_within (suc m) n [] ys h = absurd (omega arith)
substr_within (suc m) n (x ∷ xs) ys h = substr_within m n xs ys (omega arith)

module _ (rpc : Rpc) (fd p : ℕ) (s : Provider) (h : RpcHeader) (header args more : Bytes)
    (service method : ℕ) (back : ReadsBack rpc.codec)
    (v : IsServable rpc s.service_map h header args service method)
    (e : (ctx_at p s).input ++ more ≡ request_frame header args) (cut : 0 < length more) where
  whole : (ctx_at p s).input ++ more ≡ request_frame header args ++ []
  whole = e ∙ sym (append-nil _)

  partial-length : length (ctx_at p s).input < 4 + length header + length args
  partial-length =
      omega (arith, request-length header args [] _ whole, length-append (ctx_at p s).input more)

  partial-size : 4 ≤ length (ctx_at p s).input → of_le (take 4 (ctx_at p s).input) ≡ length header
  partial-size long =
      ap of_le (sym (take_within 4 (ctx_at p s).input more long))
      ∙ request-header_size header args [] _ whole (omega (arith, v.header_fits))

  partial-parsed :
      4 + length header ≤ length (ctx_at p s).input
      → rpc.codec.parse (substr (ctx_at p s).input 4 (length header)) ≡ some h
  partial-parsed long =
      rw
        (
          ← substr_within 4 (length header) (ctx_at p s).input more long,
          request-header header args [] _ whole,
        )
        (back h header (omega (arith, v.size_of_args, v.args_fit)) v.id_fits v.written)

  partial-header : handle_header rpc fd p (length header) s ≡ (false, s)
  unfolding handle_header handle_body
  partial-header =
      ground (arith, partial-parsed, partial-length, v.header_fits, v.size_of_args, v.args_fit)

  partial-try : try_handle_request rpc fd p s ≡ (false, s)
  unfolding try_handle_request
  partial-try = ground (arith, partial-size, partial-header)

-- While the frame of a request that the server can serve is not there whole, the call returns false
-- and leaves the state as it is.
pub try_handle_request_partial :
    (rpc : Rpc) (fd p : ℕ) (s : Provider) (h : RpcHeader) (header args more : Bytes)
    (service method : ℕ)
    → ReadsBack rpc.codec
    → IsServable rpc s.service_map h header args service method
    → (ctx_at p s).input ++ more ≡ request_frame header args
    → 0 < length more
    → try_handle_request rpc fd p s ≡ (false, s)
try_handle_request_partial = partial-try
