-- ===== src/Coro.antt =====
-- src/include/coroutine: task.h, io_uring_awaiter.h and sync_wait.h. A coroutine body is the tree of
-- what it does between its suspension points. A handle is the number of its frame; a frame that was
-- destroyed is none, and every use of one ends in `undefined`. The kernel's side is the script.
pub mod Machine
pub mod Loop
pub mod Eval
pub mod Steps
pub mod Drains
pub mod Waits
pub mod Settles
pub mod Refines
use kim_rpc.Prelude.{ℕ, Bool, true, false, List, Option, none, some, Bytes, ℤ, pos}

-- The operations of the wrappers `async_recv` to `async_timeout`; a pointer is an address.
pub data IoOp : Type 0 where
  recv send : ℕ → ℕ → ℕ → ℕ → IoOp
  read write : ℕ → ℕ → ℕ → ℕ → IoOp
  accept : ℕ → ℕ → ℕ → ℕ → IoOp
  connect : ℕ → ℕ → ℕ → IoOp
  timeout : ℕ → ℕ → ℕ → IoOp

-- An exception: a `std::exception` by its `what()`, or one of another type.
pub data Exception : Type 0 where
  std_exception : Bytes → Exception
  other_exception : Exception

-- How a coroutine ends: `co_return` of a value, or an exception.
pub data Outcome (V : Type 0) : Type 0 where
  returns : V → Outcome V
  throws : Exception → Outcome V

-- A body: it ends, it awaits the task of another body and goes on with that one's outcome (which it
-- may catch where it is an exception), or it awaits an operation and goes on with `res` and the flags.
pub data Body (V : Type 0) : Type 0 where
  ret : V → Body V
  throw : Exception → Body V
  await : Body V → (Outcome V → Body V) → Body V
  io : IoOp → (ℤ → ℕ → Body V) → Body V

-- `IoRequest`, a member of the awaiter that lives in the frame.
pub record IoRequest : Type 0 where
  pub handle : Option ℕ
  pub result : ℤ
  pub cqe_flags : ℕ

-- `IoRequest req{}`.
abbrev pub no_request : IoRequest
no_request = record { handle = none; result = pos 0; cqe_flags = 0 }

-- `TaskPromise<T>` with its base, or the promise of a `DetachedTask`, which keeps nothing; `value` is
-- the storage and `has_value`.
pub record Promise (V : Type 0) : Type 0 where
  pub continuation : Option ℕ
  pub exception : Option Exception
  pub value : Option V
  pub detached : Bool

-- Where a coroutine is suspended, or that it runs.
pub data Point (V : Type 0) : Type 0 where
  initial : Body V → Point V
  running : Point V
  at_task : ℕ → (Outcome V → Body V) → Point V
  at_io : (ℤ → ℕ → Body V) → Point V
  final : Point V

pub record Frame (V : Type 0) : Type 0 where
  pub point : Point V
  pub promise : Promise V
  pub request : IoRequest

-- `result()`: the exception again, or the value; none where the storage holds none.
unfoldable pub result : {V : Type 0} → Promise V → Option (Outcome V)
result p = elim p.exception [
  | some e ↦ some (throws e)
  | none ↦ elim p.value [ none ↦ none | some v ↦ some (returns v) ]
]

-- `done()` of a handle.
abbrev pub is_final : {V : Type 0} → Point V → Bool
is_final (initial b) = false
is_final running = false
is_final (at_task c k) = false
is_final (at_io k) = false
is_final final = true

-- `coro.done()` of the frame behind a handle, and `await_ready` of a task's awaiter.
abbrev pub is_done : {V : Type 0} → Option (Frame V) → Bool
is_done none = false
is_done (some f) = is_final f.point

-- The empty handle is ready too.
unfoldable pub await_ready : {V : Type 0} → Option ℕ → (ℕ → Option (Frame V)) → Bool
await_ready none frames = true
await_ready (some c) frames = is_done (frames c)

-- What a body with this outcome would be.
abbrev pub body_of : {V : Type 0} → Outcome V → Body V
body_of (returns v) = ret v
body_of (throws e) = throw e

-- One CQE that the loop of `sync_wait` takes: of another operation, or of the oldest request that the
-- kernel has, with `res` and the flags.
pub data Event : Type 0 where
  other : Event
  answers : ℤ → ℕ → Event

-- The ring: the coming answers of `io_uring_get_sqe`, what was prepared so far, latest first, and the
-- CQEs that each coming `io_uring_submit_and_wait` finds.
pub record Ring : Type 0 where
  pub grants : List Bool
  pub prepared : List IoOp
  pub script : List (List Event)
