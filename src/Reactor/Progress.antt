-- ===== src/Reactor/Progress.antt =====
-- The workers and the reactor thread of src/uringrpcprovider.cc together, in any interleaving: requests
-- on their way from the queue of tasks through the workers and the eventfd back to the reactor.
pub mod Bounded
pub mod Resumes
use kim_rpc.Prelude.{
  ℕ, suc, ◌+◌, ◌*◌, ◌≤◌, ◌≡◌, Bool, true, false, List, [], ◌∷◌, ◌++◌, Option, none, some, Bytes, ℤ,
  length, is_empty, if◌then◌else◌,
}
use kim_rpc.UserData.{notify}
use kim_rpc.Reactor.{Provider, Rpc, Task, Sqe, read_notify}
use kim_rpc.Reactor.Pool.{runs, worker_round, on_pool_done, write_notify}
use kim_rpc.Reactor.EventLoop.{Cqe, handle_cqe, retry_deferred}

-- `busy` are the tasks that the workers run, `writing` the workers between handing a coroutine over and
-- the write to the eventfd, `counter` the eventfd's counter, and `reads` the reads of it that have
-- completed; `resumed` records the requests whose coroutine went on.
pub record Pool : Type 0 where
  pub provider : Provider
  pub busy : List Task
  pub writing : ℕ
  pub counter : ℕ
  pub reads : ℕ
  pub resumed : List Task

abbrev pub tasks_of : List (Task × Bytes) → List Task
tasks_of [] = []
tasks_of ((t, frame) ∷ rs) = t ∷ tasks_of rs

-- The reads of the eventfd that were submitted.
abbrev pub notify_reads : List Sqe → ℕ
notify_reads [] = 0
notify_reads (read_notify ∷ es) = suc (notify_reads es)
notify_reads (_ ∷ es) = notify_reads es

abbrev pub notify_cqe : ℤ → Cqe
notify_cqe result = record { ctx = none; op = notify; result = result; chosen = none }

-- One step, where `serialize` is what `SerializeToString` makes of the response of each task:
-- * a worker takes the front task, whether or not it was told to stop;
-- * a worker comes to the end of its task and hands the coroutine over;
-- * it writes to the eventfd;
-- * a submitted read of the eventfd completes, as the counter is not 0, takes the counter and reaches
--   the event loop, which finds slots in its queue or none;
-- * the event loop comes round after its queue was flushed, so there are slots, and submits what it
--   had put off.
pub data Step (rpc : Rpc) (serialize : Task → Option Bytes) : Pool → Pool → Type 0 where
  takes :
      (stop : Bool) (t : Task) (a : Pool) (s : Provider)
      → worker_round stop a.provider ≡ runs t s
      → Step rpc serialize a (record a { provider = s; busy = t ∷ a.busy })
  finishes :
      (t : Task) (before after : List Task) (a : Pool)
      → a.busy ≡ before ++ (t ∷ after)
      → Step rpc serialize a (record a {
        provider = on_pool_done t (serialize t) a.provider;
        busy = before ++ after;
        writing = suc a.writing;
      })
  writes :
      (n : ℕ) (a : Pool)
      → a.writing ≡ suc n
      → Step rpc serialize a (record a { writing = n; counter = write_notify a.counter })
  notifies :
      (result : ℤ) (gs : List Bool) (a : Pool) (s : Provider)
      → 1 ≤ a.counter
      → suc a.reads ≤ notify_reads a.provider.sqes
      → handle_cqe rpc (notify_cqe result) (record a.provider { grants = gs }) ≡ some s
      → Step rpc serialize a (record a {
        provider = s;
        counter = 0;
        reads = suc a.reads;
        resumed = a.resumed ++ tasks_of a.provider.ready_coros;
      })
  retries :
      (gs : List Bool) (a : Pool)
      → a.provider.notify_pending ≡ true
      → Step rpc serialize a (record a {
        provider = retry_deferred (record a.provider { grants = true ∷ (true ∷ gs) });
      })

pub data Steps (rpc : Rpc) (serialize : Task → Option Bytes) : ℕ → Pool → Pool → Type 0 where
  here : {a : Pool} → Steps rpc serialize 0 a a
  then_ :
      {n : ℕ} {a b c : Pool}
      → Step rpc serialize a b
      → Steps rpc serialize n b c
      → Steps rpc serialize (suc n) a c

-- No wake-up is lost: where a coroutine is ready, a worker has still to write or the counter is not 0;
-- and one read of the eventfd is submitted and not yet completed, or it is put off.
pub record IsWakeable (a : Pool) : Type 0 where
  pub woken : is_empty a.provider.ready_coros ≡ false → 1 ≤ a.writing + a.counter
  pub armed :
      notify_reads a.provider.sqes + (if a.provider.notify_pending then 1 else 0) ≡ suc a.reads

-- The steps that are left for the requests on their way.
pub weight : Pool → ℕ
weight a =
    6 * length a.provider.task_queue
    + 5 * length a.busy
    + 3 * a.writing
    + 2 * a.counter
    + length a.provider.ready_coros
    + (if a.provider.notify_pending then 1 else 0)

-- A sum over the requests of a list, and over all in the pool.
abbrev pub sum : (Task → ℕ) → List Task → ℕ
sum f [] = 0
sum f (t ∷ ts) = f t + sum f ts

pub total : (Task → ℕ) → Pool → ℕ
total f a =
    sum f a.provider.task_queue
    + (sum f a.busy + (sum f (tasks_of a.provider.ready_coros) + sum f a.resumed))

-- No request is on its way.
abbrev pub Idle : Pool → Type 0
Idle a = (a.provider.task_queue ≡ []) × (a.busy ≡ []) × (a.provider.ready_coros ≡ [])
