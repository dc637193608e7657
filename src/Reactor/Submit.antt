-- ===== src/Reactor/Submit.antt =====
-- The four `submit…` functions of src/uringrpcprovider.cc. They return false where no slot is free.
use kim_rpc.Prelude.{
  ℕ, Bool, true, false, List, [], ◌∷◌, Option, none, some, Bytes, drop, if◌then◌else◌,
}
use kim_rpc.Conn.{Ptr}
use kim_rpc.Conn
use kim_rpc.Reactor.{Provider, Sqe, accept, recv, send, read_notify, ctx_at, on_ctx}

-- The next answer of `io_uring_get_sqe`.
abbrev pub slot : List Bool → Bool
slot [] = false
slot (g ∷ gs) = g

abbrev pub used : List Bool → List Bool
used [] = []
used (g ∷ gs) = gs

-- With a slot the entry is submitted, for a context (counted by `onSubmit`) or for none.
unfoldable pub submit : Sqe → Option Ptr → Provider → Bool × Provider
submit e none s =
    if slot s.grants
    then (true, record s { grants = used s.grants; sqes = e ∷ s.sqes })
    else (false, record s { grants = used s.grants })
submit e (some p) s =
    if slot s.grants
    then (
      true,
      record s { grants = used s.grants; sqes = e ∷ s.sqes; conn = Conn.on_submit p s.conn },
    )
    else (false, record s { grants = used s.grants })

unfoldable pub submit_accept : Provider → Bool × Provider
submit_accept s = submit accept none s

unfoldable pub submit_notify_read : Provider → Bool × Provider
submit_notify_read s = submit read_notify none s

abbrev submit_recv_to : Option Ptr → ℕ → Provider → Bool × Provider
submit_recv_to none fd s = (false, s)
submit_recv_to (some p) fd s = submit (recv p fd) (some p) s

unfoldable pub submit_recv : ℕ → Provider → Bool × Provider
submit_recv fd s = submit_recv_to (Conn.find fd s.conn) fd s

-- The front of the queue, past what was written. `sending` is set only once the entry is submitted.
abbrev submit_send_of : List Bytes → Ptr → ℕ → Provider → Bool × Provider
submit_send_of [] p fd s = (true, on_ctx p (λ c. record c { sending = false }) s)
submit_send_of (front ∷ rest) p fd s =
    let (done, s') = submit (send p fd (drop (ctx_at p s).written front)) (some p) s in
    if done then (true, on_ctx p (λ c. record c { sending = true }) s') else (false, s')

abbrev submit_send_to : Option Ptr → ℕ → Provider → Bool × Provider
submit_send_to none fd s = (false, s)
submit_send_to (some p) fd s = submit_send_of (ctx_at p s).out_queue p fd s

unfoldable pub submit_send : ℕ → Provider → Bool × Provider
submit_send fd s = submit_send_to (Conn.find fd s.conn) fd s
