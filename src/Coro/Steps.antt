-- ===== src/Coro/Steps.antt =====
-- The states in which one coroutine of a chain runs, and what one of its steps makes of them.
use kim_rpc.Prelude.{
  ℕ, zero, suc, ◌+◌, ◌≤◌, ◌<◌, ◌≡◌, ◌≢◌, refl, ap, ◌∙◌, false, [], none, some, arith,
}
use kim_rpc.Coro.{
  Outcome, returns, throws, Body, await, no_request, Promise, running, at_task, final, Frame,
  result, is_done, await_ready, body_of,
}
use kim_rpc.Coro.Machine.{
  end_with, runs, Machine, new_frame, go, put, free, at_point, return_value, unhandled_exception,
  create, execute, resume, transfer, co_await, await_suspend,
}
use kim_rpc.Coro.Loop.{step_control, step, run}

module _ {V : Type 0} where
  pub run-add : (a b root : ℕ) (m : Machine V) → run (a + b) root m ≡ run b root (run a root m)
  unfolding run
  run-add zero b root m = ap (λ (j : ℕ). run j root m) {x = 0 + b} {y = b} (omega arith)
  run-add (suc a) b root m =
      ap (λ (j : ℕ). run j root m) {x = suc a + b} {y = suc (a + b)} (omega arith)
      ∙ run-add a b root (step root m)

  -- Some steps lead from one state to another.
  abbrev pub Leads : ℕ → Machine V → Machine V → Type 0
  Leads root m m' = (n : ℕ) × (run n root m ≡ m')

  pub Leads-trans :
      (root : ℕ) (a b c : Machine V) → Leads root a b → Leads root b c → Leads root a c
  Leads-trans root a b c (n, p) (k, q) = (n + k, run-add n k root a ∙ ap (run k root) p ∙ q)

  -- The frame at `h` is `f`.
  abbrev pub At : ℕ → Frame V → Machine V → Type 0
  At h f m = m.frames h ≡ some f

  -- The frame of the coroutine `h` is `f`, the frames from `next` on are free, and the coroutine that
  -- `sync_wait` started is not done.
  pub record Sound (root h : ℕ) (f : Frame V) (m : Machine V) : Type 0 where
    pub frame_at : m.frames h ≡ some f
    pub below : h < m.next
    pub fresh : (q : ℕ) → m.next ≤ q → m.frames q ≡ none
    pub root_below : root < m.next
    pub root_alive : is_done (m.frames root) ≡ false

  -- The coroutine `h` runs the body `b`, and nothing is on its way to the kernel.
  pub record Running (root h : ℕ) (f : Frame V) (b : Body V) (m : Machine V) : Type 0 where
    pub sound : Sound root h f m
    pub control_runs : m.control ≡ runs h b
    pub is_running : f.point ≡ running
    pub no_sqes : m.sqes ≡ []
    pub no_flight : m.in_flight ≡ []

  -- The other frames are as they were, and so is what the frame's coroutine left in its promise.
  pub record Kept (h : ℕ) (f : Frame V) (m : Machine V) (f' : Frame V) (m' : Machine V)
      : Type 0 where
    pub others : (q : ℕ) → q ≢ h → m'.frames q ≡ m.frames q
    pub same_promise : f'.promise ≡ f.promise
    pub same_printed : m'.printed ≡ m.printed
    pub no_less : m.next ≤ m'.next

  pub Kept-trans :
      (h : ℕ) (f f' g : Frame V) (m m' n : Machine V)
      → Kept h f m f' m'
      → Kept h f' m' g n
      → Kept h f m g n
  Kept-trans h f f' g m m' n v w = record {
    others = λ q d. w.others q d ∙ v.others q d;
    same_promise = w.same_promise ∙ v.same_promise;
    same_printed = w.same_printed ∙ v.same_printed;
    no_less = omega (arith, v.no_less, w.no_less);
  }

  pub step-runs :
      (root h : ℕ) (b : Body V) (m : Machine V)
      → m.control ≡ runs h b
      → run 1 root m ≡ execute h b m
  unfolding run step_control
  step-runs root h b m e = ap (λ c. step_control root c m) e

  -- The call of a child: what the state becomes.
  abbrev pub child_frame : ℕ → Body V → Frame V
  child_frame h b = record {
    point = running;
    promise = record { continuation = some h; exception = none; value = none; detached = false };
    request = no_request;
  }

  -- The call of a child: what the state becomes.
  abbrev pub waiting_frame : ℕ → Body V → Frame V
  waiting_frame h b = record (new_frame b) {
    promise = record { continuation = some h; exception = none; value = none; detached = false };
  }

  abbrev pub called : ℕ → Frame V → Body V → (Outcome V → Body V) → Machine V → Machine V
  called h f b k m = go (runs m.next b) (
      put m.next (child_frame h b)
        (put m.next (waiting_frame h b) (put h (at_point (at_task m.next k) f) (create b m))))

  execute_await :
      (h : ℕ) (f : Frame V) (b : Body V) (k : Outcome V → Body V) (m : Machine V)
      → m.frames h ≡ some f
      → h < m.next
      → execute h (await b k) m ≡ called h f b k m
  unfolding execute co_await await_ready await_suspend resume
  execute_await h f b k m e l = ground (arith, e)

  pub Leads-called :
      (root h : ℕ) (f : Frame V) (b : Body V) (k : Outcome V → Body V) (m : Machine V)
      → Running root h f (await b k) m
      → Leads root m (called h f b k m)
  Leads-called root h f b k m v = (
    1,
    step-runs root h (await b k) m v.control_runs
        ∙ execute_await h f b k m v.sound.frame_at v.sound.below,
  )

  pub called-Running :
      (root h : ℕ) (f : Frame V) (b : Body V) (k : Outcome V → Body V) (m : Machine V)
      → Running root h f (await b k) m
      → Running root m.next (child_frame h b) b (called h f b k m)
  called-Running root h f b k m v = record {
    sound = record {
      frame_at = ground arith;
      below = omega arith;
      fresh = λ q d. ground (arith, v.sound.fresh q, v.sound.below);
      root_below = omega (arith, v.sound.root_below);
      root_alive = ground (arith, v.sound.root_alive, v.sound.root_below);
    };
    control_runs = refl;
    is_running = refl;
    no_sqes = v.no_sqes;
    no_flight = v.no_flight;
  }

  -- The end of the child: its outcome is in its promise, its parent takes it and goes on.
  abbrev pub set_outcome : Outcome V → Promise V → Promise V
  set_outcome (returns v) p = return_value v p
  set_outcome (throws e) p = unhandled_exception e p

  abbrev pub ended_frame : Outcome V → Frame V → Frame V
  ended_frame o g = record g { point = final; promise = set_outcome o g.promise }

  abbrev pub resumed :
      ℕ → Frame V → ℕ → Frame V → (Outcome V → Body V) → Outcome V → Machine V → Machine V
  resumed h f c g k o m =
      go (runs h (k o)) (free c (put h (at_point running f) (put c (ended_frame o g) m)))

  execute_end :
      (h c : ℕ) (f g : Frame V) (k : Outcome V → Body V) (o : Outcome V) (m : Machine V)
      → h < c
      → m.frames c ≡ some g
      → g.promise
        ≡ record { continuation = some h; exception = none; value = none; detached = false }
      → m.frames h ≡ some f
      → f.point ≡ at_task c k
      → execute c (body_of o) m ≡ resumed h f c g k o m
  unfolding execute end_with transfer resume result
  execute_end h c f g k (returns v) m l e p a w = ground (arith, e, p, a, w)
  execute_end h c f g k (throws x) m l e p a w = ground (arith, e, p, a, w)

  pub Leads-resumed :
      (root h c : ℕ) (f g : Frame V) (k : Outcome V → Body V) (o : Outcome V) (m : Machine V)
      → Running root c g (body_of o) m
      → h < c
      → g.promise
        ≡ record { continuation = some h; exception = none; value = none; detached = false }
      → m.frames h ≡ some f
      → f.point ≡ at_task c k
      → Leads root m (resumed h f c g k o m)
  Leads-resumed root h c f g k o m v l p a w = (
    1,
    step-runs root c (body_of o) m v.control_runs
        ∙ execute_end h c f g k o m l v.sound.frame_at p a w,
  )

  -- The child's frame is gone, and all others are as before the call.
  pub resumed-Running :
      (root h : ℕ) (f g : Frame V) (b : Body V) (k : Outcome V → Body V) (o : Outcome V)
      (m n : Machine V)
      → Running root h f (await b k) m
      → Running root m.next g (body_of o) n
      → Kept m.next (child_frame h b) (called h f b k m) g n
      → let f' = at_point running (at_point (at_task m.next k) f) in
        let n' = resumed h (at_point (at_task m.next k) f) m.next g k o n in
        Running root h f' (k o) n' × Kept h f m f' n'
  resumed-Running root h f g b k o m n v w t = (
    record {
      sound = record {
        frame_at = ground (arith, v.sound.below);
        below = omega (arith, v.sound.below, t.no_less);
        fresh = λ q d. ground (arith, w.sound.fresh q, v.sound.below, t.no_less);
        root_below = w.sound.root_below;
        root_alive = ground (arith, w.sound.root_alive, v.sound.root_below);
      };
      control_runs = refl;
      is_running = refl;
      no_sqes = w.no_sqes;
      no_flight = w.no_flight;
    },
    record {
      others = λ q d. ground (arith, t.others q, v.sound.fresh q);
      same_promise = refl;
      same_printed = t.same_printed;
      no_less = omega (arith, t.no_less);
    },
  )
