-- ===== src/Reactor/Pool.antt =====
-- The thread pool and the way back to the reactor: `submitTask`, `workerThread`, `onPoolDone`,
-- `resumeOnReactor` and `handleNotify` of src/uringrpcprovider.cc.
use kim_rpc.Prelude.{
  ℕ, ◌+◌, Bool, List, [], ◌∷◌, ◌++◌, Option, none, some, Bytes, if◌then◌else◌, is_empty,
}
use kim_rpc.Wire.{response_frame}
use kim_rpc.Reactor.{Provider, Task}
use kim_rpc.Reactor.Handlers.{deliver_response}

-- One round of `workerThread` under the lock: it waits, ends, or takes the front task.
pub data Round : Type 0 where
  waits exits : Round
  runs : Task → Provider → Round

unfoldable pub worker_round : Bool → Provider → Round
worker_round stop s = elim s.task_queue [
  | [] ↦ if stop then exits else waits
  | t ∷ ts ↦ runs t (record s { task_queue = ts })
]

-- What `onPoolDone` makes of the result of `SerializeToString`: the frame stays empty where it failed.
unfoldable pub frame_of : Task → Option Bytes → Bytes
frame_of t none = []
frame_of t (some body) = response_frame t.request_id body

-- `resumeOnReactor` in its two steps, between which the reactor may come: the coroutine is handed over
-- under the lock, and then 1 is added to the counter of the eventfd, which the kernel keeps.
unfoldable pub push_ready : Task × Bytes → Provider → Provider
push_ready r s = record s { ready_coros = s.ready_coros ++ (r ∷ []) }

unfoldable pub write_notify : ℕ → ℕ
write_notify counter = counter + 1

-- `onPoolDone` up to that write.
unfoldable pub on_pool_done : Task → Option Bytes → Provider → Provider
unfolding frame_of push_ready
on_pool_done t body s = push_ready (t, frame_of t body) s

-- `handleRpc` from its `co_await` on.
unfoldable pub resume : Task × Bytes → Provider → Provider
resume (t, frame) s = if is_empty frame then s else deliver_response t.fd t.conn_id frame s

unfoldable pub resume_all : List (Task × Bytes) → Provider → Provider
resume_all [] s = s
resume_all (r ∷ rs) s = resume_all rs (resume r s)

-- The list is swapped out first: what workers add meanwhile waits for the next notification.
unfoldable pub handle_notify : Provider → Provider
unfolding resume_all
handle_notify s = resume_all s.ready_coros (record s { ready_coros = [] })
