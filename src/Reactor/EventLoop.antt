-- ===== src/Reactor/EventLoop.antt =====
-- The body of `eventLoop` of src/uringrpcprovider.cc. User data is taken apart already (UserData).
use kim_rpc.Prelude.{
  ℕ, Bool, true, false, not, ◌&&◌, ◌++◌, Option, none, some, Bytes, if◌then◌else◌, ℤ, is_nonpos,
}
use kim_rpc.UserData.{OpType, accept, recv, send, notify}
use kim_rpc.Conn.{Ptr}
use kim_rpc.Conn
use kim_rpc.Reactor.{Provider, Rpc, ctx_at, on_ctx}
use kim_rpc.Reactor.Submit.{submit_accept, submit_notify_read}
use kim_rpc.Reactor.Handlers.{handle_accept, handle_recv, handle_send}
use kim_rpc.Reactor.Pool.{handle_notify}

-- A completion; `chosen` is what the kernel wrote to the provided buffer that it picked, if it did.
pub record Cqe : Type 0 where
  pub ctx : Option Ptr
  pub op : OpType
  pub result : ℤ
  pub chosen : Option Bytes

-- Deferred submissions, once the queue was flushed.
abbrev retry_accept : Bool × Provider → Provider
retry_accept (true, s) = record s { accept_pending = false }
retry_accept (false, s) = s

abbrev retry_notify : Bool × Provider → Provider
retry_notify (true, s) = record s { notify_pending = false }
retry_notify (false, s) = s

unfoldable pub retry_deferred : Provider → Provider
retry_deferred s =
    let s' = if s.accept_pending then retry_accept (submit_accept s) else s in
    if s'.notify_pending then retry_notify (submit_notify_read s') else s'

-- The received bytes are copied before the buffer goes back, and only for an open connection.
unfoldable pub take_buffer : Cqe → Provider → Provider
take_buffer c s = elim c.ctx [
  | none ↦ s
  | some p ↦ elim c.chosen [
    | none ↦ s
    | some bytes ↦
        if not (is_nonpos c.result) && not (ctx_at p s).closing
        then on_ctx p (λ x. record x { input = x.input ++ bytes }) s
        else s
  ]
]

abbrev copied : OpType → Cqe → Provider → Provider
copied recv c s = take_buffer c s
copied _ c s = s

abbrev rearm_notify : Bool × Provider → Provider
rearm_notify (true, s) = s
rearm_notify (false, s) = record s { notify_pending = true }

-- The end of a read of the eventfd: what is ready is resumed, and the next read is submitted or put off.
unfoldable pub on_notify : Provider → Provider
on_notify s = rearm_notify (submit_notify_read (handle_notify s))

-- The switch. A receive or send has a context; `none`, which does not happen, would crash.
unfoldable pub switch : Rpc → OpType → Option Ptr → ℤ → Provider → Option Provider
unfolding on_notify
switch rpc accept ctx result s = some (handle_accept result s)
switch rpc recv none result s = none
switch rpc recv (some p) result s = handle_recv rpc p result s
switch rpc send none result s = none
switch rpc send (some p) result s = some (handle_send p result s)
switch rpc notify ctx result s = some (on_notify s)

unfoldable pub handle_cqe : Rpc → Cqe → Provider → Option Provider
unfolding take_buffer switch
handle_cqe rpc c s =
    let s' = copied c.op c s in
    let (recycled, m) = Conn.on_complete c.ctx s'.conn in
    if recycled
    then some (record s' { conn = m })
    else switch rpc c.op c.ctx c.result (record s' { conn = m })

-- A completion by its word: one of a coroutine's operation, with the word, the result and the flags,
-- or one for the handlers.
pub data Word : Type 0 where
  of_coroutine : ℕ → ℤ → ℕ → Word
  of_handler : Cqe → Word

-- One completion of the loop. `resume_from_cqe` is what the coroutine that waits for it does to the
-- server until it is suspended again, which is the business code's.
unfoldable pub handle_word :
    (ℕ → ℤ → ℕ → Provider → Provider) → Rpc → Word → Provider → Option Provider
unfolding handle_cqe
handle_word resume_from_cqe rpc (of_coroutine word result flags) s =
    some (resume_from_cqe word result flags s)
handle_word resume_from_cqe rpc (of_handler c) s = handle_cqe rpc c s
