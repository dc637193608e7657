-- ===== src/Coro/Settles.antt =====
-- Every body runs, on the thread's machine, to the end that it has in direct style.
use kim_rpc.Prelude.{
  ℕ, ◌≡◌, ◌≢◌, refl, subst, ◌∙◌, Bool, true, false, List, Option, none, some, arith, ℤ, negsuc,
}
use kim_rpc.Coro.{
  IoOp, Outcome, returns, throws, Body, ret, throw, await, io, running, at_task, Frame, body_of,
  Event, Ring,
}
use kim_rpc.Coro.Machine.{runs, blocked, Machine, got_sqe, after_get, go, at_point}
use kim_rpc.Coro.Loop.{run}
use kim_rpc.Coro.Eval.{Ended, ends, hangs, and_then, answered, perform, eval, next_answer, rescript}
use kim_rpc.Coro.Steps.{
  Leads, Leads-trans, Running, Kept, Kept-trans, step-runs, child_frame, called, Leads-called,
  called-Running, resumed, Leads-resumed, resumed-Running,
}
use kim_rpc.Coro.Waits.{Wakes, io-Wakes, execute_io_full}

module _ {V : Type 0} where
  -- The body that `h` runs comes to this end.
  abbrev pub Settled : ℕ → ℕ → Frame V → Machine V → Ended V → Type 0
  Settled root h f m (ends o r) =
      (m' : Machine V) × (f' : Frame V) × Leads root m m'
      × Running root h f' (body_of o) m'
      × Kept h f m f' m'
      × (m'.ring ≡ r)
  Settled root h f m (hangs r) =
      (m' : Machine V) × Leads root m m' × (m'.control ≡ blocked) × (m'.ring ≡ r)

  Settled-before :
      (root h : ℕ) (f f1 : Frame V) (m m1 : Machine V) (e : Ended V)
      → Leads root m m1
      → Kept h f m f1 m1
      → Settled root h f1 m1 e
      → Settled root h f m e
  Settled-before root h f f1 m m1 (ends o r) l t (m', f', p, v, u, q) =
      (m', f', Leads-trans root m m1 m' l p, v, Kept-trans h f f1 f' m m1 m' t u, q)
  Settled-before root h f f1 m m1 (hangs r) l t (m', p, b, q) =
      (m', Leads-trans root m m1 m' l p, b, q)

  -- What is shown of each body.
  abbrev Settles : Body V → Type 0
  Settles b =
      (root h : ℕ) (f : Frame V) (m : Machine V)
      → Running root h f b m
      → Settled root h f m (eval b m.ring)

  ends-Settled :
      (root h : ℕ) (f : Frame V) (o : Outcome V) (m : Machine V)
      → Running root h f (body_of o) m
      → Settled root h f m (ends o m.ring)
  unfolding run
  ends-Settled root h f o m v = (
    m,
    f,
    (0, refl),
    v,
    record {
      others = λ q d. refl;
      same_promise = refl;
      same_printed = refl;
      no_less = omega arith;
    },
    refl,
  )

  -- A call, by the end of the child.
  call-Settled :
      (root h : ℕ) (f : Frame V) (b : Body V) (k : Outcome V → Body V) (m : Machine V) (e : Ended V)
      → ((o : Outcome V) → Settles (k o))
      → Running root h f (await b k) m
      → Settled root m.next (child_frame h b) (called h f b k m) e
      → Settled root h f m (and_then e (λ o r. eval (k o) r))
  call-Settled root h f b k m (hangs r) ih v (m', l, c, q) =
      (m', Leads-trans root m (called h f b k m) m' (Leads-called root h f b k m v) l, c, q)
  call-Settled root h f b k m (ends o r) ih v (n, g, l, w, t, q) =
      let wait = at_point (at_task m.next k) f in
      let n' = resumed h wait m.next g k o n in
      let (v', u) = resumed-Running root h f g b k o m n v w t in
      let here : h ≢ m.next = omega (arith, v.sound.below) in
      let back =
        Leads-resumed root h m.next wait g k o n w v.sound.below t.same_promise
          (t.others h here ∙ ground (arith, v.sound.below)) refl in
      Settled-before root h f (at_point running wait) m n' (eval (k o) r)
        (Leads-trans root m (called h f b k m) n' (Leads-called root h f b k m v)
          (Leads-trans root (called h f b k m) n n' l back))
        u
        (subst (λ (x : Ring). Settled root h (at_point running wait) n' (eval (k o) x)) q
          (ih o root h (at_point running wait) n' v'))

  -- An operation, by whether there is a slot and by the answer that comes.
  answer-Settled :
      (root h : ℕ) (f : Frame V) (op : IoOp) (k : ℤ → ℕ → Body V) (m m1 : Machine V)
      (a : Option ((ℤ × ℕ) × List (List Event)))
      → ((res : ℤ) (flags : ℕ) → Settles (k res flags))
      → Leads root m m1
      → Kept h f m f m1
      → Wakes root h f k m1 a
      → Settled root h f m (answered a (λ res flags r. eval (k res flags) r) m1.ring)
  answer-Settled root h f op k m m1 none ih l t (m', p, b, q) =
      (m', Leads-trans root m m1 m' l p, b, q)
  answer-Settled root h f op k m m1 (some ((res, flags), s)) ih l t (m', f', p, v, u, q) =
      Settled-before root h f f' m m' (eval (k res flags) (rescript s m1.ring))
        (Leads-trans root m m1 m' l p) (Kept-trans h f f f' m m1 m' t u)
        (subst (λ (x : Ring). Settled root h f' m' (eval (k res flags) x)) q
          (ih res flags root h f' m' v))

  io-Settled :
      (root h : ℕ) (f : Frame V) (op : IoOp) (k : ℤ → ℕ → Body V) (m : Machine V) (g : Bool)
      → ((res : ℤ) (flags : ℕ) → Settles (k res flags))
      → Running root h f (io op k) m
      → got_sqe m.ring ≡ g
      → Settled root h f m (perform op (λ res flags r. eval (k res flags) r) g (after_get m.ring))
  io-Settled root h f op k m true ih v e =
      let (m1, l, w, q, x, y, o) = io-Wakes root h f op k m v e in
      let t : Kept h f m f m1 = record {
        others = o;
        same_promise = refl;
        same_printed = y;
        no_less = omega (arith, x);
      } in
      subst
        (λ (r : Ring).
          Settled root h f m
            (answered (next_answer m.ring.script) (λ res flags r'. eval (k res flags) r') r))
        q (answer-Settled root h f op k m m1 (next_answer m.ring.script) ih l t w)
  io-Settled root h f op k m false ih v e =
      let n = go (runs h (k (negsuc 11) 0)) (record m { ring = after_get m.ring }) in
      Settled-before root h f f m n (eval (k (negsuc 11) 0) (after_get m.ring))
        (
          1,
          step-runs root h (io op k) m v.control_runs
              ∙ execute_io_full h op k m v.no_sqes v.no_flight e,
        )
        (record {
          others = λ q d. refl;
          same_promise = refl;
          same_printed = refl;
          no_less = omega arith;
        })
        (ih (negsuc 11) 0 root h f n (record {
          sound = record {
            frame_at = v.sound.frame_at;
            below = v.sound.below;
            fresh = v.sound.fresh;
            root_below = v.sound.root_below;
            root_alive = v.sound.root_alive;
          };
          control_runs = refl;
          is_running = v.is_running;
          no_sqes = v.no_sqes;
          no_flight = v.no_flight;
        }))

  pub settles : (b : Body V) → Settles b
  unfolding eval
  settles (ret v) root h f m w = ends-Settled root h f (returns v) m w
  settles (throw e) root h f m w = ends-Settled root h f (throws e) m w
  settles (await b k) root h f m w =
      call-Settled root h f b k m (eval b m.ring) (λ o. settles (k o)) w
        (settles b root m.next (child_frame h b) (called h f b k m)
          (called-Running root h f b k m w))
  settles (io op k) root h f m w =
      io-Settled root h f op k m (got_sqe m.ring) (λ res flags. settles (k res flags)) w refl
