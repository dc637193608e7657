-- ===== src/Coro/Loop.antt =====
-- `resumeFromCqe`, `drainCqes` and `sync_wait`: the loop that drives the coroutines of one ring.
use kim_rpc.Prelude.{ℕ, zero, suc, List, [], ◌∷◌, Option, none, some, if◌then◌else◌, ℤ}
use kim_rpc.Coro.{Outcome, Body, Frame, result, is_done, Event, other, answers, Ring}
use kim_rpc.Coro.Machine.{
  Control, runs, drains, tests, returned, blocked, undefined, Machine, go, put, free, resume,
  create, submit, execute,
}

module _ {V : Type 0} where
  -- `resumeFromCqe`: the result is written to the request, and its handle is resumed.
  unfoldable pub resume_handle : Option ℕ → Machine V → Machine V
  unfolding resume
  resume_handle none m = go undefined m
  resume_handle (some h) m = resume h m

  abbrev pub resume_request : ℕ → ℤ → ℕ → Option (Frame V) → Machine V → Machine V
  resume_request r res flags none m = go undefined m
  resume_request r res flags (some f) m =
      resume_handle f.request.handle
        (put r (record f { request = record f.request { result = res; cqe_flags = flags } }) m)

  unfoldable pub resume_from_cqe : ℕ → ℤ → ℕ → Machine V → Machine V
  unfolding resume
  resume_from_cqe r res flags m = resume_request r res flags (m.frames r) m

  -- One CQE of the loop of `drainCqes`; where the kernel has no request there is none to answer.
  unfoldable pub answer_first : ℤ → ℕ → List ℕ → Machine V → Machine V
  unfolding resume_from_cqe
  answer_first res flags [] m = m
  answer_first res flags (r ∷ rs) m = resume_from_cqe r res flags (record m { in_flight = rs })

  unfoldable pub drain_next : List Event → Machine V → Machine V
  unfolding resume_from_cqe
  drain_next [] m = go tests m
  drain_next (other ∷ es) m = record m { rest = es }
  drain_next (answers res flags ∷ es) m =
      answer_first res flags m.in_flight (record m { rest = es })

  -- `io_uring_submit_and_wait`, which blocks where nothing comes any more.
  abbrev pub wait : List (List Event) → Machine V → Machine V
  wait [] m = go blocked m
  wait (es ∷ script) m = record m {
    control = drains;
    ring = record m.ring { script = script };
    rest = es;
  }

  -- The end of `sync_wait`: the result is taken and the task, its argument, destroyed.
  abbrev pub finish : ℕ → Option (Outcome V) → Machine V → Machine V
  finish root none m = go undefined m
  finish root (some o) m = go (returned o) (free root m)

  abbrev pub finish_frame : ℕ → Option (Frame V) → Machine V → Machine V
  finish_frame root none m = go undefined m
  finish_frame root (some f) m = finish root (result f.promise) m

  unfoldable pub test_done : ℕ → Machine V → Machine V
  test_done root m =
      if is_done (m.frames root)
      then finish_frame root (m.frames root) m
      else wait m.ring.script (submit m)

  unfoldable pub step_control : ℕ → Control V → Machine V → Machine V
  unfolding execute drain_next test_done
  step_control root (runs h b) m = execute h b m
  step_control root drains m = drain_next m.rest m
  step_control root tests m = test_done root m
  step_control root (returned o) m = m
  step_control root blocked m = m
  step_control root undefined m = m

  abbrev pub step : ℕ → Machine V → Machine V
  step root m = step_control root m.control m

  unfoldable pub run : ℕ → ℕ → Machine V → Machine V
  run zero root m = m
  run (suc n) root m = run n root (step root m)

  -- `sync_wait` of the task of a body on a ring: its frame is the only one, and it is resumed by hand.
  unfoldable pub launch : Body V → Ring → Machine V
  unfolding resume
  launch b r = resume 0 (
      create b (record {
        control = tests;
        frames = λ q. none;
        next = 0;
        ring = r;
        sqes = [];
        in_flight = [];
        rest = [];
        printed = [];
      }))

  unfoldable pub sync_wait : ℕ → Body V → Ring → Machine V
  unfolding run launch
  sync_wait fuel b r = run fuel 0 (launch b r)
