-- ===== src/Reactor/Draining.antt =====
-- The loop of `handleRecv` over `tryHandleRequest`.
use kim_rpc.Prelude.{
  ℕ, zero, suc, ◌+◌, ◌-◌, ◌≤◌, ◌<◌, ◌≡◌, refl, ap, sym, subst, ◌∙◌, ◌⊎◌, inl, inr, Bool, true,
  false, List, [], ◌∷◌, ◌++◌, Option, none, some, arith, Bytes, length, lookup, length-drop,
  Bool-cases, Option-cases, append-nil, append_assoc, All, ℤ, is_nonpos, map, take, substr,
  if◌then◌else◌,
}
use kim_rpc.Wire.{RpcHeader, ReadsBack, of_le, request_frame}
use kim_rpc.Conn.{Ptr}
use kim_rpc.Conn
use kim_rpc.Conn.Aliasing.{close-gone}
use kim_rpc.Reactor.{Provider, ServiceInfo, Rpc, Task, ctx_at, on_ctx, close, find}
use kim_rpc.Reactor.Request.{
  start_call, find_method, dispatch, handle_body, handle_header, try_handle_request,
}
use kim_rpc.Reactor.Parsing.{
  erased, IsServable, try_handle_request-Dispatched, try_handle_request_partial,
}
use kim_rpc.Reactor.Handlers.{drain, after_drain, read_on, handle_recv, is_enobufs, or_close}
use kim_rpc.Reactor.Submit.{submit_recv}

pub close-find : (fd : ℕ) (s : Provider) → find fd (close fd s) ≡ none
unfolding close Conn.find
close-find fd s = close-gone fd s.conn

start_call-input :
    (rpc : Rpc) (fd p id service method : ℕ) (args : Bytes) (s : Provider)
    → let s' = (start_call rpc fd p id service method args s).1 in
      (find fd s' ≡ none) ⊎ ((ctx_at p s').input ≡ (ctx_at p s).input)
unfolding start_call on_ctx
start_call-input rpc fd p id service method args s = ground (arith, close-find fd s)

dispatch-input :
    (rpc : Rpc) (fd p : ℕ) (h : RpcHeader) (args : Bytes) (s : Provider)
    → let s' = (dispatch rpc fd p h args s).1 in
      (find fd s' ≡ none) ⊎ ((ctx_at p s').input ≡ (ctx_at p s).input)
unfolding dispatch
dispatch-input rpc fd p h args s =
    elim (Option-cases (find_method (lookup h.service_name s.service_map) h.method_name)) [
      | inl e ↦ rw (e, dispatch) (inl (close-find fd s))
      | inr ((service, method), e) ↦
          rw (e, dispatch) (start_call-input rpc fd p h.request_id service method args s)
    ]

abbrev Progress : ℕ → Ptr → Provider → Provider → Type 0
Progress fd p s s' =
    (find fd s' ≡ none) ⊎ (length (ctx_at p s').input + 4 ≤ length (ctx_at p s).input)

erased-input :
    (n p : ℕ) (s : Provider)
    → length (ctx_at p (erased n p s)).input ≡ length (ctx_at p s).input - n
unfolding on_ctx
erased-input n p s = ground (arith, length-drop n (ctx_at p s).input)

body-Progress :
    (rpc : Rpc) (fd p size : ℕ) (h : RpcHeader) (s : Provider)
    → 4 ≤ size
    → (handle_body rpc fd p size h s).0 ≡ true
    → Progress fd p s (handle_body rpc fd p size h s).1
unfolding handle_body
body-Progress rpc fd p size h s le e = ground (
  arith,
  close-find fd s,
  erased-input (size + h.args_size) p s,
  dispatch-input rpc fd p h (substr (ctx_at p s).input size h.args_size)
      (erased (size + h.args_size) p s),
)

-- A round that returns true closed the connection, or took four bytes at least off its input.
round-Progress :
    (rpc : Rpc) (fd p : ℕ) (s : Provider)
    → (try_handle_request rpc fd p s).0 ≡ true
    → Progress fd p s (try_handle_request rpc fd p s).1
unfolding try_handle_request handle_header
round-Progress rpc fd p s e =
    elim (Option-cases
      (rpc.codec.parse (substr (ctx_at p s).input 4 (of_le (take 4 (ctx_at p s).input))))) [
        | inl c ↦ ground (arith, close-find fd s, c)
        | inr (h, c) ↦ ground (
          arith,
          close-find fd s,
          c,
          body-Progress rpc fd p (4 + of_le (take 4 (ctx_at p s).input)) h s,
        )
      ]

-- More rounds than bytes of input are enough.
drain-returns :
    (rpc : Rpc) (fuel fd p : ℕ) (s : Provider)
    → length (ctx_at p s).input < fuel
    → (r : Bool × Provider) × (drain rpc fuel fd p s ≡ some r)
unfolding drain
drain-returns rpc zero fd p s h = absurd (omega arith)
drain-returns rpc (suc fuel) fd p s h =
    let s' = (try_handle_request rpc fd p s).1 in
    elim (Bool-cases (try_handle_request rpc fd p s).0) [
      | inl more ↦ elim (Option-cases (find fd s')) [
        | inl gone ↦ ((true, s'), ground (arith, more, gone))
        | inr (q, open_) ↦
            let (r, e) =
              drain-returns rpc fuel fd p s'
                (ground (arith, round-Progress rpc fd p s, more, open_)) in
            (r, ground (arith, more, open_, e))
      ]
      | inr done ↦ ((false, s'), ground (arith, done))
    ]

after_drain-returns :
    (fd p : ℕ) (o : Option (Bool × Provider)) (r : Bool × Provider)
    → o ≡ some r
    → (s' : Provider) × (after_drain fd p o ≡ some s')
after_drain-returns fd p o (true, t) e = (t, rw e)
after_drain-returns fd p o (false, t) e = (read_on fd p t, rw e)

-- `handleRecv` ends on every completion and every input: its loop is never out of rounds.
pub handle_recv-returns :
    (rpc : Rpc) (p : ℕ) (result : ℤ) (s : Provider)
    → (s' : Provider) × (handle_recv rpc p result s ≡ some s')
unfolding handle_recv
handle_recv-returns rpc p result s =
    let fd = (ctx_at p s).fd in
    let (r, d) = drain-returns rpc (suc (length (ctx_at p s).input)) fd p s (omega arith) in
    let (t, e) = after_drain-returns fd p _ r d in
    elim (Bool-cases (ctx_at p s).closing) [
      | inl c ↦ (s, rw c)
      | inr c ↦ elim (Bool-cases (is_nonpos result)) [
        | inl n ↦
            (if is_enobufs result then or_close fd (submit_recv fd s) else close fd s, rw (c, n))
        | inr n ↦ (t, rw (c, n) e)
      ]
    ]

-- A request with the bytes of its header and of its arguments, and what it asks for.
pub record Request : Type 0 where
  pub header : RpcHeader
  pub header_bytes : Bytes
  pub args : Bytes
  pub service : ℕ
  pub method : ℕ

abbrev pub Servable : Rpc → List (Bytes × ServiceInfo) → Request → Type 0
Servable rpc services r = IsServable rpc services r.header r.header_bytes r.args r.service r.method

abbrev pub frame : Request → Bytes
frame r = request_frame r.header_bytes r.args

-- The frames of the requests, and then `tail`.
abbrev pub stream : List Request → Bytes → Bytes
stream [] tail = tail
stream (r ∷ rs) tail = frame r ++ stream rs tail

abbrev pub request_task : ℕ → ℕ → Request → Task
request_task fd conn_id r = record {
  fd = fd;
  conn_id = conn_id;
  request_id = r.header.request_id;
  service = r.service;
  method = r.method;
  request = r.args;
}

-- What `drain` leaves after the requests `rs`.
pub record Drained (fd p : ℕ) (rs : List Request) (tail : Bytes) (s s' : Provider) : Type 0 where
  pub queued : s'.task_queue ≡ s.task_queue ++ map (request_task fd (ctx_at p s).conn_id) rs
  pub left : (ctx_at p s').input ≡ tail
  pub still_open : s'.conn.active ≡ s.conn.active

drain-stream :
    (rpc : Rpc) (rs : List Request) (fuel fd p q : ℕ) (s : Provider) (next : Request)
    (tail more : Bytes)
    → ReadsBack rpc.codec
    → All (Servable rpc s.service_map) rs
    → Servable rpc s.service_map next
    → tail ++ more ≡ frame next
    → 0 < length more
    → s.conn.active fd ≡ some q
    → (ctx_at p s).input ≡ stream rs tail
    → length rs < fuel
    → (s' : Provider) × (drain rpc fuel fd p s ≡ some (false, s')) × Drained fd p rs tail s s'
unfolding drain Conn.find
drain-stream rpc rs zero fd p q s next tail more back vs v e cut open_ i h = absurd (omega arith)
drain-stream rpc [] (suc fuel) fd p q s next tail more back vs v e cut open_ i h =
    let waits =
      try_handle_request_partial rpc fd p s next.header next.header_bytes next.args more
        next.service next.method back v (ap (λ t. t ++ more) i ∙ e) cut in
    (
      s,
      rw (waits, drain) (ap (λ r. some (false, r.1)) waits),
      record { queued = sym (append-nil _); left = i; still_open = refl },
    )
drain-stream rpc (r ∷ rs) (suc fuel) fd p q s next tail more back (vr, vs) v e cut open_ i h =
    let (ok, d) =
      try_handle_request-Dispatched rpc fd p s r.header r.header_bytes r.args (stream rs tail)
        r.service r.method back vr i in
    let s1 = (try_handle_request rpc fd p s).1 in
    let (s2, run, rest) =
      drain-stream rpc rs fuel fd p q s1 next tail more back
        (subst (λ m. All (Servable rpc m) rs) (sym d.same_services) vs)
        (subst (λ m. Servable rpc m next) (sym d.same_services) v) e cut
        (ap (λ f. f fd) d.same_active ∙ open_) d.left (omega arith) in
    (
      s2,
      rw (ok, drain) (rw (ap (λ f. f fd) d.same_active ∙ open_, drain) run),
      record {
        queued = rest.queued ∙ rw (d.queued, d.same_id) (append_assoc s.task_queue _ _);
        left = rest.left;
        still_open = rest.still_open ∙ d.same_active;
      },
    )

-- However the network cuts the stream: if the input of an open connection is a number of whole frames
-- of requests that the server can serve, and the beginning of one more, the loop of `handleRecv`
-- queues the tasks of the whole ones, each once and in their order, under the descriptor and the id
-- of the connection, keeps the beginning of the last one as the input, and leaves the connection open.
pub drain-pipeline :
    (rpc : Rpc) (rs : List Request) (fuel fd p q : ℕ) (s : Provider) (next : Request)
    (tail more : Bytes)
    → ReadsBack rpc.codec
    → All (Servable rpc s.service_map) rs
    → Servable rpc s.service_map next
    → tail ++ more ≡ frame next
    → 0 < length more
    → find fd s ≡ some q
    → (ctx_at p s).input ≡ stream rs tail
    → length rs < fuel
    → (s' : Provider) × (drain rpc fuel fd p s ≡ some (false, s')) × Drained fd p rs tail s s'
unfolding Conn.find
drain-pipeline = drain-stream
