-- ===== src/Tests/Conn.antt =====
-- The theorems on the connection manager at concrete inputs, and a state that the tests of the server
-- start from.
use kim_rpc.Prelude.{◌+◌, ◌^◌, ◌<◌, ◌≡◌, ◌≢◌, refl, [], ◌∷◌, some, arith}
use kim_rpc.Conn.{
  ConnectionManager, new_manager, acquire, update, enter, reset, find, on_submit, modify, close,
  close_at, recycle,
}
use kim_rpc.Conn.Invariant.{Inv}
use kim_rpc.Conn.Aliasing.{HasIds, Op, run, close_retires_id}
use kim_rpc.Conn.Aliasing
use kim_rpc.Conn.Reach.{Kernel, Counts, Reach, start, next, acquires, submits, Reach-Inv}

-- Descriptor 7 is accepted, and two operations are submitted for it.
unfoldable pub busy : ConnectionManager
busy = on_submit 0 (on_submit 0 (acquire 7 new_manager).1)

-- What the kernel has then.
pub busy_kernel : Kernel
busy_kernel = update (update (λ p. 0) 0 1) 0 2

pub busy-Reach : Reach busy busy_kernel
unfolding busy busy_kernel acquire enter reset new_manager on_submit modify
busy-Reach =
    next (next (next start (acquires 7 (omega arith))) (submits 0 (omega arith) refl))
      (submits 0 (omega arith) refl)

Reach-Inv_example : Inv busy × Counts busy busy_kernel × HasIds busy
Reach-Inv_example = Reach-Inv busy-Reach

pub busy-Inv : Inv busy
busy-Inv = (Reach-Inv busy-Reach).0

pub busy-HasIds : HasIds busy
busy-HasIds = (Reach-Inv busy-Reach).2

pub busy_found : find 7 busy ≡ some 0
unfolding busy find acquire enter reset new_manager on_submit modify
busy_found = refl

pub few_ids : busy.next_id + 1 < 2 ^ 64
unfolding busy acquire enter reset new_manager on_submit modify
few_ids = omega arith

-- Descriptor 7 is closed and accepted again.
reused : find 7 (run (Aliasing.acquires 7 ∷ []) (close 7 busy)) ≡ some 1
unfolding busy find acquire enter reset new_manager on_submit modify close close_at recycle run
    Aliasing.apply
reused = refl

close_retires_id_example :
    ((run (Aliasing.acquires 7 ∷ []) (close 7 busy)).conns 1).conn_id ≢ (busy.conns 0).conn_id
close_retires_id_example =
    close_retires_id 7 0 busy (Aliasing.acquires 7 ∷ []) 7 1 busy-Inv busy-HasIds few_ids busy_found
      reused
