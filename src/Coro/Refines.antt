-- ===== src/Coro/Refines.antt =====
-- `sync_wait` runs a chain of coroutines to what the chain computes in direct style.
use kim_rpc.Prelude.{false, ℕ, zero, suc, ◌+◌, ◌≡◌, refl, ap, sym, ◌∙◌, Option, none, some, arith}
use kim_rpc.Coro.{Outcome, returns, throws, Body, running, Frame, body_of, Ring, result}
use kim_rpc.Coro.Machine.{
  end_with, drains, free, put, new_frame, execute, resume, transfer, returned, blocked, Machine, go,
}
use kim_rpc.Coro.Loop.{test_done, step_control, run, launch, sync_wait}
use kim_rpc.Coro.Eval.{Ended, ends, hangs, eval}
use kim_rpc.Coro.Steps.{run-add, Leads, Leads-trans, Running, step-runs, ended_frame}
use kim_rpc.Coro.Drains.{drained, drains_idle}
use kim_rpc.Coro.Settles.{Settled, settles}

module _ {V : Type 0} where
  -- What the run has come to; none while it goes on, or where it does what C++ leaves undefined.
  unfoldable pub observe : Machine V → Option (Ended V)
  observe m = elim m.control [
    | returned o ↦ some (ends o m.ring)
    | blocked ↦ some (hangs m.ring)
    | _ ↦ none
  ]

  -- The end of the run.
  abbrev Finished : Machine V → Ended V → Type 0
  Finished m (ends o r) =
      (m' : Machine V) × Leads 0 m m'
      × (m'.control ≡ returned o)
      × (m'.ring ≡ r)
      × ((q : ℕ) → m'.frames q ≡ none)
  Finished m (hangs r) = (m' : Machine V) × Leads 0 m m' × (m'.control ≡ blocked) × (m'.ring ≡ r)

  launch-Running :
      (b : Body V) (r : Ring)
      → Running 0 0 (record (new_frame b) { point = running }) b (launch b r)
  unfolding launch resume
  launch-Running b r = record {
    sound = record {
      frame_at = refl;
      below = omega arith;
      fresh = λ q d. ground arith;
      root_below = omega arith;
      root_alive = refl;
    };
    control_runs = refl;
    is_running = refl;
    no_sqes = refl;
    no_flight = refl;
  }

  -- The root has ended: the frame is final, and the loop of `sync_wait` finds it so.
  abbrev over : Frame V → Outcome V → Machine V → Machine V
  over f o m = go drains (put 0 (ended_frame o f) m)

  execute_root :
      (f : Frame V) (o : Outcome V) (m : Machine V)
      → m.frames 0 ≡ some f
      → f.promise ≡ record { continuation = none; exception = none; value = none; detached = false }
      → execute 0 (body_of o) m ≡ over f o m
  unfolding execute end_with transfer
  execute_root f (returns v) m e p = ground (arith, e, p)
  execute_root f (throws x) m e p = ground (arith, e, p)

  tests_over :
      (f : Frame V) (o : Outcome V) (m : Machine V)
      → f.promise ≡ record { continuation = none; exception = none; value = none; detached = false }
      → run 1 0 (drained (over f o m)) ≡ go (returned o) (free 0 (drained (over f o m)))
  unfolding run step_control test_done result
  tests_over f (returns v) m p = ground (arith, p)
  tests_over f (throws x) m p = ground (arith, p)

  finished :
      (b : Body V) (r : Ring) (e : Ended V)
      → Settled 0 0 (record (new_frame b) { point = running }) (launch b r) e
      → Finished (launch b r) e
  unfolding launch resume
  finished b r (hangs r') d = d
  finished b r (ends o r') (m, f, l, v, t, q) =
      let n = over f o m in
      (
        go (returned o) (free 0 (drained n)),
        Leads-trans 0 (launch b r) m _ l (
            Leads-trans 0 m n _
              (
                1,
                step-runs 0 0 (body_of o) m v.control_runs
                    ∙ execute_root f o m v.sound.frame_at t.same_promise,
              )
              (Leads-trans 0 n (drained n) _ (drains_idle 0 m.rest n refl v.no_flight)
                (1, tests_over f o m t.same_promise))),
        refl,
        q,
        λ j. ground (arith, t.others j),
      )

  launch-Finished : (b : Body V) (r : Ring) → Finished (launch b r) (eval b r)
  unfolding launch resume
  launch-Finished b r =
      finished b r (eval b r)
        (settles b 0 0 (record (new_frame b) { point = running }) (launch b r) (launch-Running b r))

  -- What has come to an end stays.
  run_stays :
      (k : ℕ) (m m' : Machine V)
      → ((c : ℕ) → step_control c m'.control m' ≡ m')
      → m ≡ m'
      → run k 0 m ≡ m'
  unfolding run
  run_stays zero m m' h e = e
  run_stays (suc k) m m' h e =
      run_stays k (step_control 0 m.control m) m' h
        (ap (λ (n : Machine V). step_control 0 n.control n) e ∙ h 0)

  returned_stays :
      (o : Outcome V) (m : Machine V)
      → m.control ≡ returned o
      → (c : ℕ) → step_control c m.control m ≡ m
  unfolding step_control
  returned_stays o m e c = ap (λ x. step_control c x m) e

  blocked_stays : (m : Machine V) → m.control ≡ blocked → (c : ℕ) → step_control c m.control m ≡ m
  unfolding step_control
  blocked_stays m e c = ap (λ x. step_control c x m) e

  observe_returned :
      (o : Outcome V) (r : Ring) (m : Machine V)
      → m.control ≡ returned o
      → m.ring ≡ r
      → observe m ≡ some (ends o r)
  unfolding observe
  observe_returned o r m c q = ground (arith, c, q)

  observe_blocked :
      (r : Ring) (m : Machine V) → m.control ≡ blocked → m.ring ≡ r → observe m ≡ some (hangs r)
  unfolding observe
  observe_blocked r m c q = ground (arith, c, q)

  -- Two runs that have come to an end agree.
  ended_twice :
      (j n : ℕ) (m a b : Machine V)
      → run j 0 m ≡ a
      → ((c : ℕ) → step_control c a.control a ≡ a)
      → run n 0 m ≡ b
      → ((c : ℕ) → step_control c b.control b ≡ b)
      → a ≡ b
  ended_twice j n m a b e h f i =
      sym (run-add j n 0 m ∙ run_stays n (run j 0 m) a h e)
      ∙ ap (λ (i : ℕ). run i 0 m) {x = j + n} {y = n + j} (omega arith)
      ∙ run-add n j 0 m
      ∙ run_stays j (run n 0 m) b i f

  observed :
      (m : Machine V) (e : Ended V)
      → Finished m e
      → (n : ℕ) × ((k : ℕ) → observe (run (n + k) 0 m) ≡ some e)
  observed m (ends o r) (m', (n, l), c, q, z) = (
    n,
    λ k.
        ap observe (run-add n k 0 m ∙ run_stays k (run n 0 m) m' (returned_stays o m' c) l)
        ∙ observe_returned o r m' c q,
  )
  observed m (hangs r) (m', (n, l), c, q) = (
    n,
    λ k.
        ap observe (run-add n k 0 m ∙ run_stays k (run n 0 m) m' (blocked_stays m' c) l)
        ∙ observe_blocked r m' c q,
  )

  freed :
      (m : Machine V) (e : Ended V)
      → Finished m e
      → (n : ℕ) (o : Outcome V) → (run n 0 m).control ≡ returned o
      → (q : ℕ) → (run n 0 m).frames q ≡ none
  freed m (ends o r) (m', (j, l), c, x, z) n o' h q =
      ap (λ (a : Machine V). a.frames q)
        (ended_twice n j m (run n 0 m) m' refl (returned_stays o' (run n 0 m) h) l
          (returned_stays o m' c))
      ∙ z q
  freed m (hangs r) (m', (j, l), c, x) n o' h q =
      let e =
        ended_twice n j m (run n 0 m) m' refl (returned_stays o' (run n 0 m) h) l
          (blocked_stays m' c) in
      let d : returned o' ≡ blocked = sym h ∙ ap (λ (a : Machine V). a.control) e ∙ c in
      ground (arith, d)

-- `sync_wait` on any ring runs the task of any body, however deep its chain of tasks is, to the end
-- that the body has in direct style: the same value or the same exception, with each exception of a
-- child thrown again in its parent, the same operations in the same order, and the same use of the
-- ring; it blocks only where the kernel leaves an operation without answer. There is enough fuel for
-- it, more makes no difference, and nothing that C++ leaves undefined happens.
pub sync_wait-eval :
    {V : Type 0}
    → (b : Body V) (r : Ring)
    → (n : ℕ) × ((k : ℕ) → observe (sync_wait (n + k) b r) ≡ some (eval b r))
unfolding sync_wait
sync_wait-eval b r = observed (launch b r) (eval b r) (launch-Finished b r)

-- Where `sync_wait` returns, every frame of the chain is destroyed, its own task's included.
pub sync_wait_frees :
    {V : Type 0}
    → (n : ℕ) (b : Body V) (r : Ring) (o : Outcome V) (q : ℕ)
    → (sync_wait n b r).control ≡ returned o
    → (sync_wait n b r).frames q ≡ none
unfolding sync_wait
sync_wait_frees n b r o q h = freed (launch b r) (eval b r) (launch-Finished b r) n o h q
