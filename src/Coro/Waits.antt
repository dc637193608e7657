-- ===== src/Coro/Waits.antt =====
-- A coroutine that waits for an operation: from `UringAwaiter::await_suspend` through the loops of
-- `drainCqes` and `sync_wait` to the resumption.
use kim_rpc.Prelude.{
  ℕ, ◌≡◌, ◌≢◌, refl, ap, ◌∙◌, true, false, List, [], ◌∷◌, ◌++◌, Option, none, some, arith, ℤ,
  negsuc,
}
use kim_rpc.Coro.{IoOp, Body, io, running, Frame, is_done, Event}
use kim_rpc.Coro.Machine.{
  runs, drains, tests, blocked, Machine, got_sqe, after_get, prepare, go, put, at_point, execute,
  await_io, submit,
}
use kim_rpc.Coro.Loop.{test_done, step_control, run}
use kim_rpc.Coro.Eval.{first_answer, next_answer, rescript}
use kim_rpc.Coro.Steps.{Leads, Leads-trans, Sound, Running, Kept, step-runs}
use kim_rpc.Coro.Drains.{
  parked_frame, drained, drains_idle, answered_frame, woken, Drains, drains_flight,
}

module _ {V : Type 0} where
  -- What comes of the wait, by the first answer.
  abbrev pub Wakes :
      ℕ → ℕ → Frame V → (ℤ → ℕ → Body V) → Machine V → Option ((ℤ × ℕ) × List (List Event)) → Type 0
  Wakes root h f k m none =
      (m' : Machine V) × Leads root m m' × (m'.control ≡ blocked) × (m'.ring ≡ rescript [] m.ring)
  Wakes root h f k m (some ((res, flags), script)) =
      (m' : Machine V) × (f' : Frame V) × Leads root m m'
      × Running root h f' (k res flags) m'
      × Kept h f m f' m'
      × (m'.ring ≡ rescript script m.ring)

  -- The loop of `sync_wait` goes on while `h` waits.
  abbrev batch : List Event → List (List Event) → ℕ → Machine V → Machine V
  batch es script h m = record m {
    control = drains;
    ring = record m.ring { script = script };
    sqes = [];
    in_flight = h ∷ [];
    rest = es;
  }

  tests_waits :
      (root h : ℕ) (m : Machine V) (es : List Event) (script : List (List Event))
      → m.control ≡ tests
      → is_done (m.frames root) ≡ false
      → m.in_flight ++ m.sqes ≡ h ∷ []
      → m.ring.script ≡ es ∷ script
      → Leads root m (batch es script h m)
  unfolding run step_control test_done
  tests_waits root h m es script e d n s =
      (1, ap (λ c. step_control root c m) e ∙ ground (arith, d, n, s))

  tests_blocked :
      (root : ℕ) (m : Machine V)
      → m.control ≡ tests
      → is_done (m.frames root) ≡ false
      → m.ring.script ≡ []
      → Leads root m (go blocked (submit m))
  unfolding run step_control test_done
  tests_blocked root m e d s = (1, ap (λ c. step_control root c m) e ∙ ground (arith, d, s))

  woken-Running :
      (root h : ℕ) (f : Frame V) (k : ℤ → ℕ → Body V) (res : ℤ) (flags : ℕ) (es : List Event)
      (m : Machine V)
      → Sound root h (parked_frame h f k) m
      → m.sqes ≡ []
      → let f' = at_point running (answered_frame h f k res flags) in
        Running root h f' (k res flags) (woken h f k res flags es m)
        × Kept h f m f' (woken h f k res flags es m)
  woken-Running root h f k res flags es m v q = (
    record {
      sound = record {
        frame_at = ground arith;
        below = v.below;
        fresh = λ j d. ground (arith, v.fresh j, v.below);
        root_below = v.root_below;
        root_alive = ground (arith, v.root_alive);
      };
      control_runs = refl;
      is_running = refl;
      no_sqes = q;
      no_flight = refl;
    },
    record {
      others = λ j d. ground arith;
      same_promise = refl;
      same_printed = refl;
      no_less = omega arith;
    },
  )

  -- `m1` is `m` after some steps that concern nothing but the driver.
  Wakes-before :
      (root h : ℕ) (f : Frame V) (k : ℤ → ℕ → Body V) (script : List (List Event))
      (m m1 : Machine V) (a : Option ((ℤ × ℕ) × List (List Event)))
      → Leads root m m1
      → m1.frames ≡ m.frames
      → m1.next ≡ m.next
      → m1.printed ≡ m.printed
      → m1.ring ≡ rescript script m.ring
      → Wakes root h f k m1 a
      → Wakes root h f k m a
  Wakes-before root h f k script m m1 none l e x y r (m', p, b, q) =
      (m', Leads-trans root m m1 m' l p, b, q ∙ ap (rescript []) r)
  Wakes-before root h f k script m m1 (some ((res, flags), s)) l e x y r (m', f', p, v, t, q) = (
    m',
    f',
    Leads-trans root m m1 m' l p,
    v,
    record {
      others = λ j d. t.others j d ∙ ap (λ (g : ℕ → Option (Frame V)). g j) e;
      same_promise = t.same_promise;
      same_printed = t.same_printed ∙ y;
      no_less = omega (arith, t.no_less, x);
    },
    q ∙ ap (rescript s) r,
  )

  -- One wait, by the first answer among its CQEs.
  wait_round :
      (root h : ℕ) (f : Frame V) (k : ℤ → ℕ → Body V) (es : List Event) (script : List (List Event))
      (m : Machine V) (a : Option (ℤ × ℕ))
      → Sound root h (parked_frame h f k) m
      → Leads root m (batch es script h m)
      → Drains root h f k es (batch es script h m) a
      → Wakes root h f k (drained (batch es script h m)) (next_answer script)
      → Wakes root h f k m (elim a [ some b ↦ some (b, script) | none ↦ next_answer script ])
  wait_round root h f k es script m none v l d w =
      Wakes-before root h f k script m (drained (batch es script h m)) (next_answer script)
        (Leads-trans root m (batch es script h m) (drained (batch es script h m)) l d) refl refl
        refl refl w
  wait_round root h f k es script m (some (res, flags)) v l (es', d) w =
      let n = batch es script h m in
      let (r, t) =
        woken-Running root h f k res flags es' n
          (record {
            frame_at = v.frame_at;
            below = v.below;
            fresh = v.fresh;
            root_below = v.root_below;
            root_alive = v.root_alive;
          })
          refl in
      (
        woken h f k res flags es' n,
        at_point running (answered_frame h f k res flags),
        Leads-trans root m n (woken h f k res flags es' n) l d,
        r,
        record {
          others = t.others;
          same_promise = t.same_promise;
          same_printed = t.same_printed;
          no_less = t.no_less;
        },
        refl,
      )

  tests_wake :
      (root h : ℕ) (f : Frame V) (k : ℤ → ℕ → Body V) (script : List (List Event)) (m : Machine V)
      → Sound root h (parked_frame h f k) m
      → m.control ≡ tests
      → m.in_flight ++ m.sqes ≡ h ∷ []
      → m.ring.script ≡ script
      → Wakes root h f k m (next_answer script)
  tests_wake root h f k [] m v e n s = (
    go blocked (submit m),
    tests_blocked root m e v.root_alive s,
    refl,
    ap (λ (x : List (List Event)). rescript x m.ring) s,
  )
  tests_wake root h f k (es ∷ script) m v e n s =
      let b = batch es script h m in
      let w : Sound root h (parked_frame h f k) (drained b) = record {
        frame_at = v.frame_at;
        below = v.below;
        fresh = v.fresh;
        root_below = v.root_below;
        root_alive = v.root_alive;
      } in
      wait_round root h f k es script m (first_answer es) v
        (tests_waits root h m es script e v.root_alive n s)
        (drains_flight root h f k es b refl v.frame_at refl)
        (tests_wake root h f k script (drained b) w refl refl refl)

  -- An operation that gets its slot.
  abbrev parked : ℕ → Frame V → IoOp → (ℤ → ℕ → Body V) → Machine V → Machine V
  parked h f op k m = go drains (
      put h (parked_frame h f k)
        (record m { sqes = h ∷ []; in_flight = []; ring = prepare op (after_get m.ring) }))

  execute_io_slot :
      (h : ℕ) (f : Frame V) (op : IoOp) (k : ℤ → ℕ → Body V) (m : Machine V)
      → m.frames h ≡ some f
      → m.sqes ≡ []
      → m.in_flight ≡ []
      → got_sqe m.ring ≡ true
      → execute h (io op k) m ≡ parked h f op k m
  unfolding execute await_io
  execute_io_slot h f op k m e q n g = ground (arith, e, q, n, g)

  pub execute_io_full :
      (h : ℕ) (op : IoOp) (k : ℤ → ℕ → Body V) (m : Machine V)
      → m.sqes ≡ []
      → m.in_flight ≡ []
      → got_sqe m.ring ≡ false
      → execute h (io op k) m ≡ go (runs h (k (negsuc 11) 0)) (record m { ring = after_get m.ring })
  unfolding execute await_io
  execute_io_full h op k m q n g = ground (arith, q, n, g)

  parked-Sound :
      (root h : ℕ) (f : Frame V) (op : IoOp) (k : ℤ → ℕ → Body V) (m : Machine V)
      → Running root h f (io op k) m
      → Sound root h (parked_frame h f k) (drained (parked h f op k m))
  parked-Sound root h f op k m v = record {
    frame_at = ground arith;
    below = v.sound.below;
    fresh = λ j d. ground (arith, v.sound.fresh j, v.sound.below);
    root_below = v.sound.root_below;
    root_alive = ground (arith, v.sound.root_alive);
  }

  -- `h` awaits an operation that gets its slot.
  pub io-Wakes :
      (root h : ℕ) (f : Frame V) (op : IoOp) (k : ℤ → ℕ → Body V) (m : Machine V)
      → Running root h f (io op k) m
      → got_sqe m.ring ≡ true
      → (m1 : Machine V) × Leads root m m1
        × Wakes root h f k m1 (next_answer m.ring.script)
        × (m1.ring ≡ prepare op (after_get m.ring))
        × (m1.next ≡ m.next)
        × (m1.printed ≡ m.printed)
        × ((q : ℕ) → q ≢ h → m1.frames q ≡ m.frames q)
  io-Wakes root h f op k m v g =
      let p = parked h f op k m in
      (
        drained p,
        Leads-trans root m p (drained p)
            (
              1,
              step-runs root h (io op k) m v.control_runs
                  ∙ execute_io_slot h f op k m v.sound.frame_at v.no_sqes v.no_flight g,
            )
            (drains_idle root m.rest p refl refl),
        tests_wake root h f k m.ring.script (drained p) (parked-Sound root h f op k m v) refl refl
            refl,
        refl,
        refl,
        refl,
        λ q d. ground arith,
      )
