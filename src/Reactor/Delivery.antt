-- ===== src/Reactor/Delivery.antt =====
-- The way of a response from the thread pool to its connection.
use kim_rpc.Prelude.{
  ℕ, ◌+◌, ◌^◌, ◌<◌, ◌≡◌, subst, ◌≢◌, List, [], ◌∷◌, ◌++◌, some, arith, Bytes, length, Option-cases,
  Bool-cases, if◌then◌else◌, inl, inr,
}
use kim_rpc.Conn.{ConnectionManager, Ptr, ConnectionContext}
use kim_rpc.Conn
use kim_rpc.Conn.Invariant.{Inv}
use kim_rpc.Conn.Aliasing.{HasIds, Op, run, close_retires_id}
use kim_rpc.Reactor.{Provider, ctx_at, on_ctx, find}
use kim_rpc.Reactor.Submit.{submit_send}
use kim_rpc.Reactor.Handlers.{deliver_response, or_close}
use kim_rpc.Reactor.Sending.{
  SameOut, SameOut-refl, submit_send-SameOut, or_close-SameOut, on_ctx_self,
}

abbrev pub appended : Bytes → ConnectionContext → ConnectionContext
appended frame c = record c { out_queue = c.out_queue ++ (frame ∷ []) }

-- What a delivery does once the connection is found.
abbrev started : ℕ → Ptr → Provider → Provider
started fd p s = if (ctx_at p s).sending then s else or_close fd (submit_send fd s)

started-SameOut : (fd p q : ℕ) (s : Provider) → SameOut (ctx_at q s) (ctx_at q (started fd p s))
started-SameOut fd p q s = elim (Bool-cases (ctx_at p s).sending) [
  | inl e ↦ rw e (SameOut-refl (ctx_at q s))
  | inr e ↦ rw e (or_close-SameOut fd q (submit_send fd s) (submit_send-SameOut fd q s))
]

deliver-started :
    (fd p conn_id : ℕ) (frame : Bytes) (s : Provider)
    → find fd s ≡ some p
    → (ctx_at p s).conn_id ≡ conn_id
    → deliver_response fd conn_id frame s ≡ started fd p (on_ctx p (appended frame) s)
unfolding deliver_response
deliver-started fd p conn_id frame s e i = rw (e, deliver_response) (ground (arith, i))

other_same :
    (p q : ℕ) (f : ConnectionContext → ConnectionContext) (s : Provider)
    → p ≢ q
    → ctx_at q (on_ctx p f s) ≡ ctx_at q s
unfolding on_ctx
other_same p q f s d = ground arith

-- A response whose connection is still there is put behind the responses that wait on it, and what
-- waits on every other connection stays as it is.
pub deliver_response-appends :
    (fd p conn_id q : ℕ) (frame : Bytes) (s : Provider)
    → find fd s ≡ some p
    → (ctx_at p s).conn_id ≡ conn_id
    → let s' = deliver_response fd conn_id frame s in
      SameOut (appended frame (ctx_at p s)) (ctx_at p s')
      × (p ≢ q → SameOut (ctx_at q s) (ctx_at q s'))
deliver_response-appends fd p conn_id q frame s e i =
    rw (deliver-started fd p conn_id frame s e i) (
      subst (λ c. SameOut c (ctx_at p (started fd p (on_ctx p (appended frame) s))))
          (on_ctx_self p (appended frame) s) (started-SameOut fd p p (on_ctx p (appended frame) s)),
      λ d.
          subst (λ c. SameOut c (ctx_at q (started fd p (on_ctx p (appended frame) s))))
            (other_same p q (appended frame) s d)
            (started-SameOut fd p q (on_ctx p (appended frame) s)),
    )

deliver-dropped :
    (fd conn_id : ℕ) (frame : Bytes) (s : Provider)
    → ((p : ℕ) → find fd s ≡ some p → (ctx_at p s).conn_id ≢ conn_id)
    → deliver_response fd conn_id frame s ≡ s
unfolding deliver_response
deliver-dropped fd conn_id frame s h = elim (Option-cases (find fd s)) [
  | inl e ↦ rw (e, deliver_response)
  | inr (p, e) ↦ rw (e, deliver_response) (ground (arith, h p e))
]

-- A response that is computed for a connection which closes meanwhile is dropped, whatever happens to
-- the connections in between, also where its descriptor has been given to a new connection: the
-- delivery changes nothing.
pub deliver_response_stale :
    (fd p f : ℕ) (m : ConnectionManager) (os : List Op) (frame : Bytes) (s : Provider)
    → Inv m
    → HasIds m
    → m.next_id + length os < 2 ^ 64
    → Conn.find fd m ≡ some p
    → s.conn ≡ run os (Conn.close fd m)
    → deliver_response f (m.conns p).conn_id frame s ≡ s
deliver_response_stale fd p f m os frame s v ids h e c =
    deliver-dropped f (m.conns p).conn_id frame s
      (λ q found. rw c (close_retires_id fd p m os f q v ids h e (rw (← c) found)))
