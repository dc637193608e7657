-- ===== src/Coro/Machine.antt =====
-- The thread that runs coroutines: `co_await` of a task and of an operation, and `final_suspend`.
use kim_rpc.Prelude.{
  ℕ, suc, Bool, true, false, List, [], ◌∷◌, ◌++◌, Option, none, some, Bytes, codes, if◌then◌else◌,
  ℤ, pos, negsuc,
}
use kim_rpc.Conn.{update}
use kim_rpc.Reactor.Submit.{slot, used}
use kim_rpc.Coro.{
  Exception, std_exception, other_exception, IoOp, Outcome, Body, ret, throw, await, io, no_request,
  Promise, Point, initial, running, at_task, at_io, final, Frame, result, await_ready, Event, Ring,
}

-- What the thread does: it executes the body of a coroutine, goes through the CQEs that are left, tests
-- `handle.done()`, or has come to an end.
pub data Control (V : Type 0) : Type 0 where
  runs : ℕ → Body V → Control V
  drains : Control V
  tests : Control V
  returned : Outcome V → Control V
  blocked : Control V
  undefined : Control V

-- `sqes` are the requests that were prepared, `in_flight` those that were submitted; `rest` is what the
-- loop over the CQEs has left.
pub record Machine (V : Type 0) : Type 0 where
  pub control : Control V
  pub frames : ℕ → Option (Frame V)
  pub next : ℕ
  pub ring : Ring
  pub sqes : List ℕ
  pub in_flight : List ℕ
  pub rest : List Event
  -- The exceptions that were printed to stderr, latest first.
  pub printed : List Bytes

-- The frame of a new coroutine, which `initial_suspend` suspends at once.
abbrev pub new_frame : {V : Type 0} → Body V → Frame V
new_frame b = record {
  point = initial b;
  promise = record { continuation = none; exception = none; value = none; detached = false };
  request = no_request;
}

-- `get_sqe`, and once more after a submission; whether there was a slot.
abbrev pub second_slot : List Bool → Bool → Bool
second_slot gs true = true
second_slot gs false = slot (used gs)

abbrev pub second_used : List Bool → Bool → List Bool
second_used gs true = used gs
second_used gs false = used (used gs)

abbrev pub got_sqe : Ring → Bool
got_sqe r = second_slot r.grants (slot r.grants)

abbrev pub after_get : Ring → Ring
after_get r = record r { grants = second_used r.grants (slot r.grants) }

-- `prep(sqe)`.
abbrev pub prepare : IoOp → Ring → Ring
prepare op r = record r { prepared = op ∷ r.prepared }

-- What goes to stderr: the catch of `std::exception`, and the catch of everything else.
abbrev report_text : Exception → Bytes
report_text (std_exception what) =
    codes "[coro] unhandled exception in DetachedTask: " ++ (what ++ (10 ∷ []))
report_text other_exception =
    codes "[coro] unhandled non-std exception in DetachedTask" ++ (10 ∷ [])

abbrev pub report : Option Exception → List Bytes → List Bytes
report none l = l
report (some e) l = report_text e ∷ l

module _ {V : Type 0} where
  abbrev pub go : Control V → Machine V → Machine V
  go c m = record m { control = c }

  abbrev pub put : ℕ → Frame V → Machine V → Machine V
  put h f m = record m { frames = update m.frames h (some f) }

  -- `destroy()`.
  abbrev pub free : ℕ → Machine V → Machine V
  free h m = record m { frames = update m.frames h none }

  abbrev pub at_point : Point V → Frame V → Frame V
  at_point p f = record f { point = p }

  -- `await_resume` of a task's awaiter in the coroutine `h`; the task is a temporary, so its frame is
  -- destroyed after.
  abbrev pub take_outcome :
      ℕ → ℕ → (Outcome V → Body V) → Option (Outcome V) → Machine V → Machine V
  take_outcome h c k none m = go undefined m
  take_outcome h c k (some o) m = go (runs h (k o)) (free c m)

  abbrev pub await_resume : ℕ → ℕ → (Outcome V → Body V) → Option (Frame V) → Machine V → Machine V
  await_resume h c k none m = go undefined m
  await_resume h c k (some f) m = take_outcome h c k (result f.promise) m

  -- `resume()`, by where the coroutine is suspended; to resume one that runs or is done is undefined.
  abbrev pub resume_point : ℕ → Frame V → Point V → Machine V → Machine V
  resume_point h f (initial b) m = go (runs h b) (put h (at_point running f) m)
  resume_point h f running m = go undefined m
  resume_point h f (at_task c k) m = await_resume h c k (m.frames c) (put h (at_point running f) m)
  resume_point h f (at_io k) m =
      go (runs h (k f.request.result f.request.cqe_flags)) (put h (at_point running f) m)
  resume_point h f final m = go undefined m

  abbrev pub resume_frame : ℕ → Option (Frame V) → Machine V → Machine V
  resume_frame h none m = go undefined m
  resume_frame h (some f) m = resume_point h f f.point m

  unfoldable pub resume : ℕ → Machine V → Machine V
  resume h m = resume_frame h (m.frames h) m

  -- `FinalAwaiter::await_suspend`: to the continuation, or back to who resumed.
  unfoldable pub transfer : Option ℕ → Machine V → Machine V
  unfolding resume
  transfer (some parent) m = resume parent m
  transfer none m = go drains m

  -- The end of a coroutine, by its promise; that of a `DetachedTask` prints an exception and has the
  -- frame destroyed at once.
  unfoldable pub end_with : ℕ → Frame V → Promise V → Bool → Machine V → Machine V
  unfolding transfer
  end_with h f p false m =
      transfer p.continuation (put h (record f { point = final; promise = p }) m)
  end_with h f p true m = go drains (free h (record m { printed = report p.exception m.printed }))

  abbrev pub end_frame : ℕ → (Promise V → Promise V) → Option (Frame V) → Machine V → Machine V
  end_frame h set none m = go undefined m
  end_frame h set (some f) m = end_with h f (set f.promise) f.promise.detached m

  -- `return_value` and `unhandled_exception`, each with `final_suspend` after it.
  abbrev pub return_value : V → Promise V → Promise V
  return_value v p = record p { value = some v }

  abbrev pub unhandled_exception : Exception → Promise V → Promise V
  unhandled_exception e p = record p { exception = some e }

  -- `await_suspend` of a task's awaiter: the continuation is set and the child runs.
  abbrev pub set_continuation : ℕ → Option (Frame V) → ℕ → Machine V → Machine V
  set_continuation c none h m = go undefined m
  set_continuation c (some f) h m =
      put c (record f { promise = record f.promise { continuation = some h } }) m

  abbrev pub suspend_at : ℕ → Point V → Option (Frame V) → Machine V → Machine V
  suspend_at h p none m = go undefined m
  suspend_at h p (some f) m = put h (at_point p f) m

  unfoldable pub await_suspend : ℕ → ℕ → (Outcome V → Body V) → Machine V → Machine V
  unfolding resume
  await_suspend h c k m =
      resume c (set_continuation c (m.frames c) h (suspend_at h (at_task c k) (m.frames h) m))

  unfoldable pub co_await : ℕ → ℕ → (Outcome V → Body V) → Machine V → Machine V
  unfolding await_ready resume
  co_await h c k m =
      if await_ready (some c) m.frames
      then await_resume h c k (m.frames c) m
      else await_suspend h c k m

  -- A call of a coroutine function: its frame is allocated, and nothing of it runs yet.
  abbrev pub create : Body V → Machine V → Machine V
  create b m = record (put m.next (new_frame b) m) { next = suc m.next }

  -- `io_uring_submit`.
  abbrev pub submit : Machine V → Machine V
  submit m = record m { sqes = []; in_flight = m.in_flight ++ m.sqes }

  -- `UringAwaiter::await_suspend` and, where it does not suspend, `await_resume`: -ENOMEM.
  abbrev pub suspend_io : ℕ → IoOp → (ℤ → ℕ → Body V) → Option (Frame V) → Machine V → Machine V
  suspend_io h op k none m = go undefined m
  suspend_io h op k (some f) m = go drains (
      put h
        (record f {
          point = at_io k;
          request = record { handle = some h; result = pos 0; cqe_flags = 0 };
        })
        (record m { sqes = m.sqes ++ (h ∷ []); ring = prepare op m.ring }))

  abbrev pub with_sqe : ℕ → IoOp → (ℤ → ℕ → Body V) → Bool → Machine V → Machine V
  with_sqe h op k true m = suspend_io h op k (m.frames h) m
  with_sqe h op k false m = go (runs h (k (negsuc 11) 0)) m

  abbrev pub flushed : Bool → Machine V → Machine V
  flushed true m = m
  flushed false m = submit m

  unfoldable pub await_io : ℕ → IoOp → (ℤ → ℕ → Body V) → Machine V → Machine V
  await_io h op k m =
      with_sqe h op k (got_sqe m.ring)
        (record (flushed (slot m.ring.grants) m) { ring = after_get m.ring })

  unfoldable pub execute : ℕ → Body V → Machine V → Machine V
  unfolding co_await await_io resume
  execute h (ret v) m = end_frame h (return_value v) (m.frames h) m
  execute h (throw e) m = end_frame h (unhandled_exception e) (m.frames h) m
  execute h (await b k) m = co_await h m.next k (create b m)
  execute h (io op k) m = await_io h op k m
